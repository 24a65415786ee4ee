-- ===== src/SqlGuard/Lexer/Progress.antt =====
-- The loop of src/sql_guard/lexer.rs ends: every round consumes its byte and never goes back, so
-- the length of the source is enough fuel.
use pg_ask.Prelude.{
  ℕ, zero, suc, ◌≤◌, Bool, [], ◌∷◌, ◌++◌, length, drop, length-drop-le, Text, ◌≡◌, refl, arith, ap,
}
use pg_ask.SqlGuard.Lexer.{
  skip_until, skip_block, skip_string, span, read_dollar_tag, skip_dollar, read_quoted, lex_plain,
  lex_dollar, lex_step, emit, tokens_within, tokenize, is_word_cont, is_tag_byte,
}

skip_until-le : (s : Text) (c : ℕ) → length (skip_until s c) ≤ length s
unfolding skip_until
skip_until-le [] c = omega arith
skip_until-le (d ∷ s) c = ground (arith, skip_until-le s c)

skip_block-le : (s : Text) → length (skip_block s) ≤ length s
unfolding skip_block
skip_block-le [] = omega arith
skip_block-le (c ∷ []) = omega arith
skip_block-le (c ∷ d ∷ s) = ground (arith, skip_block-le (d ∷ s))

skip_string-le : (s : Text) → length (skip_string s) ≤ length s
unfolding skip_string
skip_string-le [] = omega arith
skip_string-le (c ∷ []) = omega arith
skip_string-le (c ∷ d ∷ s) = ground (arith, skip_string-le s, skip_string-le (d ∷ s))

span-le : (p : ℕ → Bool) (s : Text) → length (span p s).1 ≤ length s
unfolding span
span-le p [] = omega arith
span-le p (c ∷ s) = ground (arith, span-le p s)

skip_dollar-le : (p s : Text) → length (skip_dollar p s) ≤ length s
unfolding skip_dollar
skip_dollar-le p [] = omega arith
skip_dollar-le p (c ∷ s) = ground (arith, skip_dollar-le p s, length-drop-le (length p) (c ∷ s))

read_quoted-le : (s : Text) → length (read_quoted s).1 ≤ length s
unfolding read_quoted
read_quoted-le [] = omega arith
read_quoted-le (c ∷ []) = ground arith
read_quoted-le (c ∷ d ∷ s) = ground (arith, read_quoted-le s, read_quoted-le (d ∷ s))

lex_plain-le : (b : ℕ) (s : Text) → length (lex_plain b s).1 ≤ length s
unfolding lex_plain
lex_plain-le b s =
    ground (arith, read_quoted-le s, length-drop-le 1 (read_quoted s).1, span-le is_word_cont s)

lex_dollar-le : (b : ℕ) (s : Text) → length (lex_dollar b s (read_dollar_tag s)).1 ≤ length s
unfolding lex_dollar read_dollar_tag
lex_dollar-le b s =
    let rest = (span is_tag_byte s).1 in
    ground (
      arith,
      lex_plain-le b s,
      span-le is_tag_byte s,
      length-drop-le 1 rest,
      skip_dollar-le (b'$' ∷ ((span is_tag_byte s).0 ++ b'$' ∷ [])) (drop 1 rest),
    )

pub lex_step-le : (b : ℕ) (s : Text) → length (lex_step b s).1 ≤ length s
unfolding lex_step
lex_step-le b s = ground (
  arith,
  length-drop-le 1 s,
  skip_until-le (drop 1 s) b'\n',
  skip_block-le (drop 1 s),
  skip_string-le s,
  lex_dollar-le b s,
  lex_plain-le b s,
)

-- Any fuel from the length of the source on gives the same tokens.
tokens_within-fuel :
    (f g : ℕ) (s : Text) → length s ≤ f → length s ≤ g → tokens_within f s ≡ tokens_within g s
unfolding tokens_within
tokens_within-fuel zero zero [] hf hg = refl
tokens_within-fuel zero zero (b ∷ s) hf hg = refl
tokens_within-fuel zero (suc g) [] hf hg = refl
tokens_within-fuel (suc f) g [] hf hg = refl
tokens_within-fuel zero (suc g) (b ∷ s) hf hg = absurd (omega arith)
tokens_within-fuel (suc f) zero (b ∷ s) hf hg = absurd (omega arith)
tokens_within-fuel (suc f) (suc g) (b ∷ s) hf hg = ap (emit (lex_step b s).0) (
    tokens_within-fuel f g (lex_step b s).1 (omega (arith, lex_step-le b s))
      (omega (arith, lex_step-le b s)))

pub tokenize-cons :
    (b : ℕ) (s : Text) → tokenize (b ∷ s) ≡ emit (lex_step b s).0 (tokenize (lex_step b s).1)
unfolding tokenize
tokenize-cons b s = ap (emit (lex_step b s).0) (
    tokens_within-fuel (length s) (length (lex_step b s).1) (lex_step b s).1 (lex_step-le b s)
      (omega arith))
