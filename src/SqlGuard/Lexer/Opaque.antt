-- ===== src/SqlGuard/Lexer/Opaque.antt =====
-- What src/sql_guard/lexer.rs passes over: block comments leave no token, and a string literal leaves
-- one, whatever they hold.
use pg_ask.Prelude.{
  ℕ, false, [], ◌∷◌, ◌++◌, ◌==◌, Text, ◌≡◌, refl, arith, if◌then◌else◌, ap, ◌∙◌, ◌&&◌,
  is_ascii_whitespace, Bool-cases, inl, inr,
}
use pg_ask.SqlGuard.Lexer.{string, peeks, skip_block, skip_string, lex_step, tokenize}
use pg_ask.SqlGuard.Lexer.Progress.{tokenize-cons}

-- No `*/` inside the text.
abbrev pub IsUnclosed : Text → Type 0
IsUnclosed [] = Unit
IsUnclosed (c ∷ []) = Unit
IsUnclosed (c ∷ d ∷ s) = (c == b'*' && d == b'/' ≡ false) × IsUnclosed (d ∷ s)

skip_block_closed :
    (body rest : Text) → IsUnclosed body → skip_block (body ++ b'*' ∷ b'/' ∷ rest) ≡ rest
unfolding skip_block
skip_block_closed [] rest h = refl
skip_block_closed (c ∷ []) rest h = ground arith
skip_block_closed (c ∷ d ∷ s) rest h = ground (arith, skip_block_closed (d ∷ s) rest h.1)

-- A block comment leaves no token: with any body that holds no `*/`, the tokens are those of the
-- text after the comment.
pub tokenize_block_comment :
    (body rest : Text)
    → IsUnclosed body
    → tokenize (b'/' ∷ b'*' ∷ (body ++ b'*' ∷ b'/' ∷ rest)) ≡ tokenize rest
unfolding lex_step is_ascii_whitespace
tokenize_block_comment body rest h =
    tokenize-cons b'/' (b'*' ∷ (body ++ b'*' ∷ b'/' ∷ rest))
    ∙ ap tokenize (skip_block_closed body rest h)

-- A text as the inside of an SQL string literal: each quote is written twice.
abbrev pub doubled : Text → Text
doubled [] = []
doubled (c ∷ s) = if c == b'\'' then b'\'' ∷ b'\'' ∷ doubled s else c ∷ doubled s

skip_string-other :
    (c : ℕ) (s rest : Text)
    → c == b'\'' ≡ false
    → skip_string (c ∷ (s ++ b'\'' ∷ rest)) ≡ skip_string (s ++ b'\'' ∷ rest)
unfolding skip_string
skip_string-other c [] rest h = ground arith
skip_string-other c (d ∷ s) rest h = ground arith

skip_string-doubled :
    (body rest : Text)
    → peeks rest b'\'' ≡ false
    → skip_string (doubled body ++ b'\'' ∷ rest) ≡ rest
unfolding skip_string
skip_string-doubled [] [] h = refl
skip_string-doubled [] (r ∷ rest) h = ground arith
skip_string-doubled (c ∷ body) rest h = elim (Bool-cases (c == b'\'')) [
  | inl e ↦ rw e (skip_string-doubled body rest h)
  | inr e ↦ rw e (skip_string-other c (doubled body) rest e ∙ skip_string-doubled body rest h)
]

-- A string literal is one token, whatever text it holds: statements, comments and function calls
-- written inside it are never read, if no further quote follows the closing one.
pub tokenize_string :
    (body rest : Text)
    → peeks rest b'\'' ≡ false
    → tokenize (b'\'' ∷ (doubled body ++ b'\'' ∷ rest)) ≡ string ∷ tokenize rest
unfolding lex_step is_ascii_whitespace
tokenize_string body rest h =
    tokenize-cons b'\'' (doubled body ++ b'\'' ∷ rest)
    ∙ ap (λ t. string ∷ tokenize t) (skip_string-doubled body rest h)
