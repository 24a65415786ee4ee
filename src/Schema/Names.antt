-- ===== src/Schema/Names.antt =====
-- `distinct_schemas` and `search_path_clause` of src/schema/mod.rs.
pub mod Reads
pub mod Seen
use pg_ask.Prelude.{
  ℕ, zero, suc, ◌-◌, Bool, true, false, not, ◌&&◌, ◌||◌, Option, none, some, List, [], ◌∷◌, ◌++◌,
  ◌==◌, map, if◌then◌else◌, is_empty, any, Text, codes, eq, contains, join, trim_start, white_front,
  starts_with, drop,
}

-- `str::lines`: a line ends with `\n` or `\r\n`, and nothing behind the last end is no line.
abbrev pub cons_line : ℕ → List Text → List Text
cons_line c [] = (c ∷ []) ∷ []
cons_line c (l ∷ ls) = (c ∷ l) ∷ ls

pub split_lines : Text → List Text
split_lines [] = []
split_lines (c ∷ s) = let rest = split_lines s in if c == 10 then [] ∷ rest else cons_line c rest

-- A `\r` that stands last before the end of the line is no part of it.
abbrev pub before_newline : Text → Bool
before_newline [] = false
before_newline (c ∷ s) = c == 10

-- Where the whole text is scanned: a `\r` before a `\n` is dropped.
pub drop_cr : Text → Text
drop_cr [] = []
drop_cr (c ∷ s) = let rest = drop_cr s in if c == 13 && before_newline s then rest else c ∷ rest

unfoldable pub lines : Text → List Text
unfolding split_lines drop_cr
lines s = split_lines (drop_cr s)

-- `split_whitespace().next()`, of a text with no white space in front
unfoldable pub first_word : Text → Text
unfolding white_front
first_word [] = []
first_word (c ∷ s) = let rest = first_word s in if white_front (c ∷ s) == 0 then c ∷ rest else []

-- `split_once('.')`
unfoldable pub split_once : ℕ → Text → Option (Text × Text)
split_once sep [] = none
split_once sep (c ∷ s) =
    if c == sep
    then some ([], s)
    else elim (split_once sep s) [ none ↦ none | some (a, b) ↦ some (c ∷ a, b) ]

-- `line.strip_prefix("TABLE ").unwrap_or(line)`
abbrev pub strip_table : Text → Text
strip_table line = if starts_with line (codes "TABLE ") then drop 6 line else line

-- The first word of a line, without a leading `TABLE `.
abbrev pub table_word : Text → Text
table_word raw = first_word (trim_start (strip_table (trim_start raw)))

abbrev pub schema_of : Option (Text × Text) → Option Text
schema_of none = none
schema_of (some (schema, rest)) = if is_empty schema || is_empty rest then none else some schema

-- The schema that a line names; a word holds no blank.
unfoldable pub line_schema : Text → Option Text
unfolding trim_start first_word split_once starts_with
line_schema raw = schema_of (split_once b'.' (table_word raw))

abbrev pub see : Option Text → List Text → List Text
see none seen = seen
see (some schema) seen = if contains seen schema then seen else seen ++ schema ∷ []

unfoldable pub seen_schemas : List Text → List Text → List Text
unfolding line_schema contains
seen_schemas [] seen = seen
seen_schemas (raw ∷ raws) seen = seen_schemas raws (see (line_schema raw) seen)

unfoldable pub distinct_schemas : Text → List Text
unfolding lines seen_schemas
distinct_schemas schema_text = seen_schemas (lines schema_text) []

-- `s.replace('"', "\"\"")`
unfoldable pub double_quotes : Text → Text
double_quotes [] = []
double_quotes (c ∷ s) = (if c == b'"' then b'"' ∷ b'"' ∷ [] else c ∷ []) ++ double_quotes s

abbrev pub quoted : Text → Text
quoted s = b'"' ∷ (double_quotes s ++ b'"' ∷ [])

abbrev pub with_public : List Text → List Text
with_public parts =
    if any (λ p. eq p (quoted (codes "public"))) parts
    then parts
    else parts ++ quoted (codes "public") ∷ []

unfoldable pub search_path_clause : Text → Text
unfolding distinct_schemas double_quotes any eq join
search_path_clause schema_text =
    let parts = map quoted (distinct_schemas schema_text) in
    if is_empty parts then [] else join (codes ", ") (with_public parts)
