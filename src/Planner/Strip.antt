-- ===== src/Planner/Strip.antt =====
-- `strip_leading_explain` of src/planner/mod.rs. A position `i` is the list of the bytes from `i` on.
pub mod Stripped
use pg_ask.Prelude.{
  ℕ, zero, suc, ◌+◌, ◌-◌, ◌==◌, ◌&&◌, ◌||◌, Bool, true, false, List, [], ◌∷◌, is_empty, drop,
  length, if◌then◌else◌, Text, codes, eq, starts_with, trim_start, to_ascii_lowercase,
  is_ascii_whitespace, is_ascii_alphabetic,
}

unfoldable pub skip_ws : Text → Text
unfolding is_ascii_whitespace
skip_ws [] = []
skip_ws (c ∷ s) = let rest = skip_ws s in if is_ascii_whitespace c then rest else c ∷ s

abbrev pub next_depth : ℕ → ℕ → ℕ
next_depth c depth = if c == b'(' then depth + 1 else if c == b')' then depth - 1 else depth

-- `while i < bytes.len() && depth > 0`
unfoldable pub skip_parens : ℕ → Text → Text
skip_parens depth [] = []
skip_parens depth (c ∷ s) =
    let rest = skip_parens (next_depth c depth) s in if depth == 0 then c ∷ s else rest

unfoldable pub is_option_byte : ℕ → Bool
unfolding is_ascii_alphabetic
is_option_byte c = is_ascii_alphabetic c || c == b'_'

abbrev pub cons_word : ℕ → Text × Text → Text × Text
cons_word c (word, rest) = (c ∷ word, rest)

-- The word at the position, and what follows it.
unfoldable pub word_at : Text → Text × Text
unfolding is_option_byte
word_at [] = ([], [])
word_at (c ∷ s) = let rest = word_at s in if is_option_byte c then cons_word c rest else ([], c ∷ s)

abbrev pub is_verb : Text → Bool
is_verb word =
    eq word (codes "select")
    || eq word (codes "with")
    || eq word (codes "table")
    || eq word (codes "values")

abbrev pub after_word : Text → Text × Text → Text → Text
after_word start (word, rest) more =
    if is_empty word then start else if is_verb (to_ascii_lowercase word) then start else more

-- The loop over the bareword options, on fuel.
unfoldable pub skip_options : ℕ → Text → Text
unfolding skip_ws word_at eq to_ascii_lowercase
skip_options zero s = s
skip_options (suc fuel) s =
    let start = skip_ws s in
    let more = skip_options fuel (word_at start).1 in after_word start (word_at start) more

abbrev pub opens : Text → Bool
opens [] = false
opens (c ∷ s) = c == b'('

abbrev pub tail_of : Text → Text
tail_of [] = []
tail_of (c ∷ s) = s

abbrev pub skip_explain : Text → Text
skip_explain s =
    if opens (skip_ws s) then skip_parens 1 (tail_of (skip_ws s)) else skip_options (length s + 1) s

unfoldable pub strip_leading_explain : Text → Text
unfolding starts_with to_ascii_lowercase skip_ws skip_parens skip_options trim_start
strip_leading_explain sql =
    if starts_with (to_ascii_lowercase sql) (codes "explain")
    then trim_start (skip_explain (drop 7 sql))
    else sql
