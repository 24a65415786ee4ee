-- ===== src/Prelude/Strings.antt =====
-- Texts as the source's `str`: the list of their UTF-8 bytes, with the operations of Rust's
-- standard library that the crate uses on them.
use Prim.Native.Nat.{ℕ, zero, suc, ◌+◌, ◌-◌}
use Prim.Native.Char.{code}
use Prim.Native.String.{String}
use mathlib.Core.Path.{◌≡◌, refl}
use mathlib.Core.Logic.{◌↔◌, inl, inr}
use mathlib.Core.Bool.{Bool, true, false, ◌&&◌, ◌||◌}
use mathlib.Core.List.{List, [], ◌∷◌, ◌++◌, reverse}
use native.Mathlib.Omega.{arith}
use pg_ask.Prelude.Tests.{◌==◌, within, if◌then◌else◌, Bool-cases}
use pg_ask.Prelude.Lists.{any, Any, here, there}

abbrev pub Text : Type 0
Text = List ℕ

-- The bytes of an ASCII literal.
abbrev pub codes : String → Text
codes String.[] = []
codes (String.◌∷◌ c s) = code c ∷ codes s

-- The bytes of `…`.
abbrev pub ellipsis : Text
ellipsis = 0xe2 ∷ 0x80 ∷ 0xa6 ∷ []

-- `u8::is_ascii_whitespace`
unfoldable pub is_ascii_whitespace : ℕ → Bool
is_ascii_whitespace c = c == 32 || c == 9 || c == 10 || c == 12 || c == 13

-- `u8::is_ascii_alphabetic`
unfoldable pub is_ascii_alphabetic : ℕ → Bool
is_ascii_alphabetic c = within b'a' b'z' c || within b'A' b'Z' c

-- `u8::is_ascii_alphanumeric`
unfoldable pub is_ascii_alphanumeric : ℕ → Bool
unfolding is_ascii_alphabetic
is_ascii_alphanumeric c = is_ascii_alphabetic c || within b'0' b'9' c

abbrev lower : ℕ → ℕ
lower c = if within b'A' b'Z' c then c + 32 else c

-- `str::to_ascii_lowercase`
unfoldable pub to_ascii_lowercase : Text → Text
to_ascii_lowercase [] = []
to_ascii_lowercase (c ∷ s) = lower c ∷ to_ascii_lowercase s

-- `==` of two texts
unfoldable pub eq : Text → Text → Bool
eq [] [] = true
eq (a ∷ s) (b ∷ t) = a == b && eq s t
eq _ _ = false

-- `str::eq_ignore_ascii_case`
unfoldable pub eq_ignore_ascii_case : Text → Text → Bool
unfolding eq to_ascii_lowercase
eq_ignore_ascii_case s t = eq (to_ascii_lowercase s) (to_ascii_lowercase t)

-- `[&str]::contains`
unfoldable pub contains : List Text → Text → Bool
unfolding any eq
contains l s = any (λ t. eq t s) l

-- `s.starts_with(p)`
unfoldable pub starts_with : Text → Text → Bool
starts_with s [] = true
starts_with [] (b ∷ p) = false
starts_with (a ∷ s) (b ∷ p) = a == b && starts_with s p

-- `s.ends_with(p)`
unfoldable pub ends_with : Text → Text → Bool
unfolding starts_with
ends_with s p = starts_with (reverse s) (reverse p)

-- `parts.join(sep)`
unfoldable pub join : Text → List Text → Text
join sep [] = []
join sep (p ∷ []) = p
join sep (p ∷ q ∷ ps) = p ++ (sep ++ join sep (q ∷ ps))

-- The encodings of `char::is_whitespace` that take one, two and three bytes.
abbrev white1 : ℕ → Bool
white1 c = within 9 13 c || c == 32

abbrev white2 : ℕ → ℕ → Bool
white2 c d = c == 0xc2 && (d == 0x85 || d == 0xa0)

abbrev white3 : ℕ → ℕ → ℕ → Bool
white3 c d e =
    (c == 0xe1 && d == 0x9a && e == 0x80)
    || (c == 0xe2 && d == 0x80 && (within 0x80 0x8a e || e == 0xa8 || e == 0xa9 || e == 0xaf))
    || (c == 0xe2 && d == 0x81 && e == 0x9f)
    || (c == 0xe3 && d == 0x80 && e == 0x80)

-- How many bytes the white space at the front takes; 0 if there is none.
unfoldable pub white_front : Text → ℕ
white_front [] = 0
white_front (c ∷ []) = if white1 c then 1 else 0
white_front (c ∷ d ∷ []) = if white1 c then 1 else if white2 c d then 2 else 0
white_front (c ∷ d ∷ e ∷ s) =
    if white1 c then 1 else if white2 c d then 2 else if white3 c d e then 3 else 0

-- The same at the end of a text that is given reversed.
white_back : Text → ℕ
white_back [] = 0
white_back (c ∷ []) = if white1 c then 1 else 0
white_back (c ∷ d ∷ []) = if white1 c then 1 else if white2 d c then 2 else 0
white_back (c ∷ d ∷ e ∷ s) =
    if white1 c then 1 else if white2 d c then 2 else if white3 e d c then 3 else 0

skip_white : (Text → ℕ) → ℕ → Text → Text
skip_white f k [] = []
skip_white f (suc k) (c ∷ s) = skip_white f k s
skip_white f zero (c ∷ s) = let n = f (c ∷ s) in if n == 0 then c ∷ s else skip_white f (n - 1) s

-- `str::trim_start`
unfoldable pub trim_start : Text → Text
unfolding skip_white white_front
trim_start s = skip_white white_front 0 s

-- `str::trim`
unfoldable pub trim : Text → Text
unfolding skip_white white_front white_back
trim s = reverse (skip_white white_back 0 (reverse (skip_white white_front 0 s)))

strip_quotes : Text → Text
strip_quotes [] = []
strip_quotes (c ∷ s) = if c == b'"' then strip_quotes s else c ∷ s

-- `str::trim_matches('"')`
unfoldable pub trim_quotes : Text → Text
unfolding strip_quotes
trim_quotes s = reverse (strip_quotes (reverse (strip_quotes s)))

pub eq_iff : (s t : Text) → (eq s t ≡ true) ↔ (s ≡ t)
unfolding eq
eq_iff (a ∷ s) (b ∷ t) = ground (arith, eq_iff s t)
eq_iff _ _ = ground arith

pub eq_refl : (s : Text) → eq s s ≡ true
eq_refl s = (eq_iff s s).1 refl

starts_with→prefix : (s p : Text) → starts_with s p ≡ true → (r : Text) × (s ≡ p ++ r)
unfolding starts_with
starts_with→prefix s [] h = (s, refl)
starts_with→prefix [] (b ∷ p) h = cc
starts_with→prefix (a ∷ s) (b ∷ p) h =
    let (r, e) = starts_with→prefix s p (ground arith) in (r, ground arith)

prefix→starts_with : (p r : Text) → starts_with (p ++ r) p ≡ true
unfolding starts_with
prefix→starts_with [] r = refl
prefix→starts_with (b ∷ p) r = ground (arith, prefix→starts_with p r)

-- `s` begins with `p` exactly when it is `p` with something behind it.
pub starts_with_iff : (s p : Text) → (starts_with s p ≡ true) ↔ ((r : Text) × (s ≡ p ++ r))
starts_with_iff s p = (starts_with→prefix s p, λ (r, e). rw e (prefix→starts_with p r))

contains→Any : (l : List Text) (s : Text) → contains l s ≡ true → Any (λ t. t ≡ s) l
unfolding contains
contains→Any [] s h = cc
contains→Any (t ∷ l) s h = elim (Bool-cases (eq t s)) [
  | inl e ↦ here ((eq_iff t s).0 e)
  | inr e ↦ there (contains→Any l s (rw e at h))
]

Any→contains : (s : Text) {l : List Text} → Any (λ t. t ≡ s) l → contains l s ≡ true
unfolding contains
Any→contains s (here {x} h) = rw ((eq_iff x s).1 h)
Any→contains s (there {x} h) = elim (Bool-cases (eq x s)) [
  | inl e ↦ rw e
  | inr e ↦ rw e (Any→contains s h)
]

-- Membership in a list of texts.
pub contains_iff : (l : List Text) (s : Text) → (contains l s ≡ true) ↔ Any (λ t. t ≡ s) l
contains_iff l s = (contains→Any l s, Any→contains s)

trim_test : trim (codes "  a b \n") ≡ codes "a b"
unfolding trim
trim_test = refl
