-- ===== src/SqlGuard/Lexer.antt =====
-- src/sql_guard/lexer.rs. A position `i` in the source is the list of the bytes from `i` on.
pub mod Progress
pub mod Opaque
use pg_ask.Prelude.{
  ℕ, zero, suc, ◌+◌, ◌<◌, Bool, true, false, ◌&&◌, ◌||◌, Option, none, some, List, [], ◌∷◌, ◌++◌,
  ◌==◌, ltb, if◌then◌else◌, length, drop, Text, codes, starts_with, is_ascii_whitespace,
  is_ascii_alphabetic, is_ascii_alphanumeric, ◌≡◌, refl,
}

pub data Token : Type 0 where
  word : Text → Token
  string : Token
  quoted_ident : Text → Token
  l_paren r_paren comma semicolon : Token
  punct : ℕ → Token

-- `peek(bytes, i)`, where the list starts at `i`
pub peek : Text → Option ℕ
peek [] = none
peek (c ∷ s) = some c

-- `peek(bytes, i) == Some(c)`
abbrev pub peeks : Text → ℕ → Bool
peeks [] c = false
peeks (d ∷ s) c = d == c

pub skip_until : Text → ℕ → Text
skip_until [] target = []
skip_until (c ∷ s) target = let rest = skip_until s target in if c == target then s else rest

-- The inner loop of `/* … */`, from behind the opening; the end of the source is skipped to when
-- the comment is not closed.
pub skip_block : Text → Text
skip_block [] = []
skip_block (c ∷ []) = []
skip_block (c ∷ d ∷ s) = let rest = skip_block (d ∷ s) in if c == b'*' && d == b'/' then s else rest

-- The inner loop of `'…'`, from behind the opening quote.
pub skip_string : Text → Text
skip_string [] = []
skip_string (c ∷ []) = []
skip_string (c ∷ d ∷ s) =
    let escaped = skip_string s in
    let rest = skip_string (d ∷ s) in
    if c == b'\'' then (if d == b'\'' then escaped else d ∷ s) else rest

pub is_word_start : ℕ → Bool
unfolding is_ascii_alphabetic
is_word_start b = is_ascii_alphabetic b || b == b'_'

pub is_word_cont : ℕ → Bool
unfolding is_ascii_alphanumeric
is_word_cont b = is_ascii_alphanumeric b || b == b'_' || b == b'$' || b == b'.'

is_tag_byte : ℕ → Bool
unfolding is_ascii_alphanumeric
is_tag_byte b = is_ascii_alphanumeric b || b == b'_'

-- `while i < bytes.len() && p(bytes[i]) { i += 1; }`: the bytes passed over, and the rest.
pub span : (ℕ → Bool) → Text → Text × Text
span p [] = ([], [])
span p (c ∷ s) = let (taken, rest) = span p s in if p c then (c ∷ taken, rest) else ([], c ∷ s)

-- From behind the opening `$`: the tag with both dollars, and what follows the opener.
pub read_dollar_tag : Text → Option (Text × Text)
read_dollar_tag s =
    let (tag, rest) = span is_tag_byte s in
    if peeks rest b'$' then some (b'$' ∷ (tag ++ b'$' ∷ []), drop 1 rest) else none

-- The search for the closing tag. Where it is missing, the loop stops at the last position at
-- which the tag would still fit, plus one.
pub skip_dollar : Text → Text → Text
skip_dollar close_pat [] = []
skip_dollar close_pat (c ∷ s) =
    let rest = skip_dollar close_pat s in
    if ltb (length (c ∷ s)) (length close_pat)
    then c ∷ s
    else if starts_with (c ∷ s) close_pat
    then drop (length close_pat) (c ∷ s)
    else rest

-- The inner loop of `"…"`, from behind the opening quote: the slice, and the rest, which starts
-- at the closing quote.
pub read_quoted : Text → Text × Text
read_quoted [] = ([], [])
read_quoted (c ∷ []) = if c == b'"' then ([], c ∷ []) else (c ∷ [], [])
read_quoted (c ∷ d ∷ s) =
    let (inner, escaped) = read_quoted s in
    let (taken, rest) = read_quoted (d ∷ s) in
    if c == b'"'
    then (if d == b'"' then (c ∷ d ∷ inner, escaped) else ([], c ∷ d ∷ s))
    else (c ∷ taken, rest)

pub punctuation : ℕ → Token
punctuation b =
    if b == b'('
    then l_paren
    else if b == b')'
    then r_paren
    else if b == b','
    then comma
    else if b == b';'
    then semicolon
    else punct b

-- The branches from `"` on, which a `$` that opens no string falls through to.
lex_plain : ℕ → Text → Option Token × Text
lex_plain b s =
    if b == b'"'
    then (let (slice, rest) = read_quoted s in (some (quoted_ident slice), drop 1 rest))
    else if is_word_start b
    then (let (taken, rest) = span is_word_cont s in (some (word (b ∷ taken)), rest))
    else (some (punctuation b), s)

lex_dollar : ℕ → Text → Option (Text × Text) → Option Token × Text
lex_dollar b s none = lex_plain b s
lex_dollar b s (some (close_pat, rest)) = (some string, skip_dollar close_pat rest)

-- One round of the loop of `tokenize`, at the byte `b` with `s` behind it: the token pushed, if
-- any, and where the next round starts.
pub lex_step : ℕ → Text → Option Token × Text
lex_step b s =
    if is_ascii_whitespace b
    then (none, s)
    else if b == b'-' && peeks s b'-'
    then (none, skip_until (drop 1 s) b'\n')
    else if b == b'/' && peeks s b'*'
    then (none, skip_block (drop 1 s))
    else if b == b'\''
    then (some string, skip_string s)
    else if b == b'$'
    then lex_dollar b s (read_dollar_tag s)
    else lex_plain b s

abbrev pub emit : Option Token → List Token → List Token
emit none ts = ts
emit (some t) ts = t ∷ ts

-- The loop, on fuel.
tokens_within : ℕ → Text → List Token
tokens_within fuel [] = []
tokens_within zero (b ∷ s) = []
tokens_within (suc fuel) (b ∷ s) = let (t, rest) = lex_step b s in emit t (tokens_within fuel rest)

unfoldable pub tokenize : Text → List Token
unfolding tokens_within lex_step lex_plain lex_dollar read_quoted span punctuation is_word_start
    is_word_cont skip_until skip_block skip_string skip_dollar read_dollar_tag is_tag_byte
    starts_with is_ascii_whitespace
tokenize src = tokens_within (length src) src

tokenize_test :
    tokenize (codes "-- x\nSELECT \"a\"\"b\", 'it''s' /* ; */ $t$;$t$;")
    ≡ word (codes "SELECT")
      ∷ quoted_ident (codes "a\"\"b")
      ∷ comma
      ∷ string
      ∷ string
      ∷ semicolon
      ∷ []
unfolding tokenize
tokenize_test = refl
