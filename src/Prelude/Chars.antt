-- ===== src/Prelude/Chars.antt =====
-- Characters of a text: in UTF-8 every byte but a continuation byte begins one.
use Prim.Native.Nat.{ℕ, zero, suc, ◌+◌, ◌≤◌}
use mathlib.Core.Path.{◌≡◌, refl, ap}
use mathlib.Core.Logic.{inl, inr}
use mathlib.Core.Bool.{Bool, false}
use mathlib.Core.List.{[], ◌∷◌, ◌++◌}
use native.Mathlib.Omega.{arith}
use pg_ask.Prelude.Tests.{within, if◌then◌else◌, Bool-cases}
use pg_ask.Prelude.Strings.{Text}

abbrev pub is_continuation : ℕ → Bool
is_continuation b = within 128 191 b

-- `s.chars().count()`
unfoldable pub char_count : Text → ℕ
char_count [] = 0
char_count (b ∷ s) = if is_continuation b then char_count s else suc (char_count s)

-- `s.chars().take(n).collect()`
unfoldable pub take_chars : ℕ → Text → Text
take_chars n [] = []
take_chars zero (b ∷ s) = if is_continuation b then b ∷ take_chars zero s else []
take_chars (suc n) (b ∷ s) =
    if is_continuation b then b ∷ take_chars (suc n) s else b ∷ take_chars n s

-- A text that starts with a character and not inside one, as every `str` does.
abbrev pub IsStr : Text → Type 0
IsStr [] = Unit
IsStr (b ∷ s) = is_continuation b ≡ false

pub char_count-append : (s t : Text) → char_count (s ++ t) ≡ char_count s + char_count t
unfolding char_count
char_count-append [] t = omega arith
char_count-append (b ∷ s) t = ground (arith, char_count-append s t)

pub char_count-take_chars : (n : ℕ) (s : Text) → n ≤ char_count s → char_count (take_chars n s) ≡ n
unfolding char_count take_chars
char_count-take_chars zero [] h = refl
char_count-take_chars (suc n) [] h = absurd (omega arith)
char_count-take_chars zero (b ∷ s) h = ground (arith, char_count-take_chars zero s)
char_count-take_chars (suc n) (b ∷ s) h =
    ground (arith, char_count-take_chars (suc n) s, char_count-take_chars n s)

pub take_chars-prefix : (n : ℕ) (s : Text) → (r : Text) × (s ≡ take_chars n s ++ r)
unfolding take_chars
take_chars-prefix n [] = ([], refl)
take_chars-prefix zero (b ∷ s) = elim (Bool-cases (is_continuation b)) [
  | inl e ↦ let (r, p) = take_chars-prefix zero s in (r, rw e (ap (◌∷◌ b) p))
  | inr e ↦ (b ∷ s, rw e)
]
take_chars-prefix (suc n) (b ∷ s) = elim (Bool-cases (is_continuation b)) [
  | inl e ↦ let (r, p) = take_chars-prefix (suc n) s in (r, rw e (ap (◌∷◌ b) p))
  | inr e ↦ let (r, p) = take_chars-prefix n s in (r, rw e (ap (◌∷◌ b) p))
]
