-- ===== src/Planner/Strip/Stripped.antt =====
-- What `strip_leading_explain` leaves of a statement with bareword options.
use pg_ask.Prelude.{
  ℕ, zero, suc, ◌+◌, ◌≤◌, ◌<◌, ◌≡◌, refl, sym, ap, ◌∙◌, ◌⊎◌, inl, inr, true, false, [], ◌∷◌, ◌++◌,
  is_empty, drop, length, Text, codes, starts_with, trim_start, to_ascii_lowercase,
  is_ascii_whitespace, Bool-cases, arith,
}
use mathlib.Core.List.{append_assoc}
use pg_ask.Planner.Strip.{
  skip_ws, opens, is_option_byte, is_verb, word_at, skip_options, strip_leading_explain,
}

-- The text starts with a verb of a query, or with no word.
abbrev pub Stops : Text → Type 0
Stops r = (is_empty (word_at r).0 ≡ true) ⊎ (is_verb (to_ascii_lowercase (word_at r).0) ≡ true)

-- The rest is an end of the text.
pub record Tail (s r : Text) : Type 0 where
  pub skipped : Text
  pub split : s ≡ skipped ++ r

Tail-refl : (s : Text) → Tail s s
Tail-refl s = record { skipped = []; split = refl }

Tail-cons : (c : ℕ) {s r : Text} → Tail s r → Tail (c ∷ s) r
Tail-cons c t = record { skipped = c ∷ t.skipped; split = ap (λ s. c ∷ s) t.split }

Tail-trans : {s r q : Text} → Tail s r → Tail r q → Tail s q
Tail-trans {s} {r} {q} t u = record {
  skipped = t.skipped ++ u.skipped;
  split = t.split ∙ ap (λ x. t.skipped ++ x) u.split ∙ sym (append_assoc t.skipped u.skipped q);
}

skip_ws-Tail : (s : Text) → Tail s (skip_ws s)
unfolding skip_ws
skip_ws-Tail [] = Tail-refl []
skip_ws-Tail (c ∷ s) = elim (Bool-cases (is_ascii_whitespace c)) [
  | inl e ↦ rw e (Tail-cons c (skip_ws-Tail s))
  | inr e ↦ rw e (Tail-refl (c ∷ s))
]

word_at-Tail : (s : Text) → Tail s (word_at s).1
unfolding word_at
word_at-Tail [] = Tail-refl []
word_at-Tail (c ∷ s) = elim (Bool-cases (is_option_byte c)) [
  | inl e ↦ rw e (Tail-cons c (word_at-Tail s))
  | inr e ↦ rw e (Tail-refl (c ∷ s))
]

drop-Tail : (n : ℕ) (s : Text) → Tail s (drop n s)
drop-Tail zero s = Tail-refl s
drop-Tail (suc n) [] = Tail-refl []
drop-Tail (suc n) (c ∷ s) = Tail-cons c (drop-Tail n s)

length-skip_ws : (s : Text) → length (skip_ws s) ≤ length s
unfolding skip_ws
length-skip_ws [] = omega arith
length-skip_ws (c ∷ s) = elim (Bool-cases (is_ascii_whitespace c)) [
  | inl e ↦ rw e (omega (arith, length-skip_ws s))
  | inr e ↦ rw e (omega arith)
]

word_at_le : (s : Text) → length (word_at s).1 ≤ length s
unfolding word_at
word_at_le [] = omega arith
word_at_le (c ∷ s) = elim (Bool-cases (is_option_byte c)) [
  | inl e ↦ rw e (omega (arith, word_at_le s))
  | inr e ↦ rw e (omega arith)
]

-- A word takes a byte or more.
length-word_at : (s : Text) → is_empty (word_at s).0 ≡ false → length (word_at s).1 < length s
unfolding word_at
length-word_at [] h = absurd (cc)
length-word_at (c ∷ s) h = elim (Bool-cases (is_option_byte c)) [
  | inl e ↦ rw e (omega (arith, word_at_le s))
  | inr e ↦ absurd (cc (rw e at h))
]

skip_options-Stops :
    (fuel : ℕ) (s : Text)
    → length s < fuel
    → Tail s (skip_options fuel s) × Stops (skip_options fuel s)
unfolding skip_options
skip_options-Stops zero s h = absurd (omega arith)
skip_options-Stops (suc fuel) s h =
    let start = skip_ws s in
    let word = word_at start in
    elim (Bool-cases (is_empty word.0)) [
      | inl e ↦ rw e (skip_ws-Tail s, inl e)
      | inr e ↦ elim (Bool-cases (is_verb (to_ascii_lowercase word.0))) [
        | inl v ↦ rw (e, v) (skip_ws-Tail s, inr v)
        | inr v ↦
            let rest =
              skip_options-Stops fuel word.1
                (omega (arith, h, length-skip_ws s, length-word_at start e)) in
            rw (e, v) (Tail-trans (skip_ws-Tail s) (Tail-trans (word_at-Tail start) rest.0), rest.1)
      ]
    ]

-- A statement that starts with EXPLAIN, in any case, and no list of options in parentheses loses
-- the keyword and its bareword options: what is left is an end of the statement, trimmed at its
-- start, that starts with a verb of a query or with no word.
pub strip_leading_explain-Stops :
    (sql : Text)
    → starts_with (to_ascii_lowercase sql) (codes "explain") ≡ true
    → opens (skip_ws (drop 7 sql)) ≡ false
    → (r : Text) × (strip_leading_explain sql ≡ trim_start r) × Tail sql r × Stops r
unfolding strip_leading_explain
strip_leading_explain-Stops sql explained bare =
    let (tail, stops) = skip_options-Stops (length (drop 7 sql) + 1) (drop 7 sql) (omega arith) in
    (
      skip_options (length (drop 7 sql) + 1) (drop 7 sql),
      rw (explained, bare) refl,
      Tail-trans (drop-Tail 7 sql) tail,
      stops,
    )
