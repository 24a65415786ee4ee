-- ===== src/Schema/Render.antt =====
-- src/schema/render.rs: the two renderings of the columns. A `HashMap` that is filled from a list
-- keeps the last value of a key; `Acc` is its keys in the order of `order` with their counts.
pub mod Tally
use pg_ask.Prelude.{
  ℕ, ◌+◌, Bool, true, false, ◌&&◌, Option, none, some, List, [], ◌∷◌, ◌++◌, if◌then◌else◌, is_empty,
  Text, codes, eq, decimal, char_count,
}
use pg_ask.Tools.Render.{pad, max}

pub record ColumnRow : Type 0 where
  pub schema : Text
  pub table : Text
  pub column : Text
  pub data_type : Text
  pub not_null : Bool
  pub comment : Text

pub record TableKey : Type 0 where
  pub schema : Text
  pub table : Text

abbrev pub key_eq : TableKey → TableKey → Bool
key_eq a b = eq a.schema b.schema && eq a.table b.table

abbrev pub key_of : ColumnRow → TableKey
key_of r = record { schema = r.schema; table = r.table }

unfoldable pub comment_lookup : List (TableKey × Text) → TableKey → Option Text
comment_lookup [] k = none
comment_lookup ((j, c) ∷ comments) k = elim (comment_lookup comments k) [
  | some last ↦ some last
  | none ↦ if key_eq j k then some c else none
]

abbrev pub no_tables : Text
no_tables = codes "(no user-visible tables found)"

-- ` -- ` and the comment of a table that has one
abbrev pub table_comment : Option Text → Text
table_comment none = []
table_comment (some c) = codes " -- " ++ c

abbrev pub is_current : Option TableKey → TableKey → Bool
is_current none k = false
is_current (some c) k = key_eq c k

abbrev pub blank_line : Option TableKey → Text
blank_line none = []
blank_line (some c) = 10 ∷ []

abbrev pub table_line : List (TableKey × Text) → Option TableKey → TableKey → Text
table_line comments current k =
    blank_line current
    ++ (codes "TABLE "
        ++ (k.schema
            ++ (b'.' ∷ (k.table ++ (table_comment (comment_lookup comments k) ++ 10 ∷ [])))))

abbrev pub column_line : ColumnRow → Text
column_line r =
    codes "  "
    ++ (r.column
        ++ (b' '
            ∷ (r.data_type
                ++ ((if r.not_null then codes " NOT NULL" else [])
                    ++ ((if is_empty r.comment then [] else codes "  -- " ++ r.comment)
                        ++ 10 ∷ [])))))

-- `for r in rows`
unfoldable pub full_lines : List (TableKey × Text) → Option TableKey → List ColumnRow → Text
unfolding comment_lookup eq
full_lines comments current [] = []
full_lines comments current (r ∷ rows) =
    (if is_current current (key_of r) then [] else table_line comments current (key_of r))
    ++ (column_line r ++ full_lines comments (some (key_of r)) rows)

unfoldable pub render_full : List ColumnRow → List (TableKey × Text) → Text
unfolding full_lines
render_full rows comments = if is_empty rows then no_tables else full_lines comments none rows

-- `col_counts.entry(key).or_insert(0)`, the push to `order`, and the count
unfoldable pub bump : TableKey → List (TableKey × ℕ) → List (TableKey × ℕ)
unfolding eq
bump k [] = (k, 1) ∷ []
bump k ((j, n) ∷ acc) = if key_eq j k then (j, n + 1) ∷ acc else (j, n) ∷ bump k acc

unfoldable pub tally : List ColumnRow → List (TableKey × ℕ) → List (TableKey × ℕ)
unfolding bump
tally [] acc = acc
tally (r ∷ rows) acc = tally rows (bump (key_of r) acc)

abbrev pub qname : TableKey → Text
qname k = k.schema ++ (b'.' ∷ k.table)

unfoldable pub max_name_width : List (TableKey × ℕ) → ℕ
unfolding char_count
max_name_width [] = 0
max_name_width ((k, n) ∷ acc) =
    max (char_count k.schema + 1 + char_count k.table) (max_name_width acc)

unfoldable pub compact_lines : List (TableKey × Text) → ℕ → List (TableKey × ℕ) → Text
unfolding comment_lookup decimal pad
compact_lines comments width [] = []
compact_lines comments width ((k, n) ∷ acc) =
    codes "  "
    ++ (pad (qname k) width
        ++ (codes "  ("
            ++ (decimal n
                ++ (codes " columns)"
                    ++ (table_comment (comment_lookup comments k)
                        ++ (10 ∷ compact_lines comments width acc))))))

unfoldable pub render_compact : List ColumnRow → List (TableKey × Text) → Text
unfolding tally max_name_width compact_lines
render_compact rows comments =
    let acc = tally rows [] in
    if is_empty rows
    then no_tables
    else codes "TABLES (use describe_table for columns):\n"
      ++ compact_lines comments (max_name_width acc) acc
