-- ===== src/Tools/Render.antt =====
-- src/tools/render.rs: rows as JSON become the text table that the model reads. The rows that a
-- query returns are data of a parameter, each the text of its JSON or no text.
pub mod Masked
pub mod Rows
pub mod Layout
pub mod Tests
use pg_ask.Prelude.{
  join, ℕ, zero, suc, ◌+◌, ◌-◌, ◌%◌, ◌^◌, ◌≤◌, Bool, true, false, not, ◌&&◌, ◌||◌, Option, none,
  some, List, [], ◌∷◌, ◌++◌, ◌==◌, ltb, leb, if◌then◌else◌, is_empty, length, get_elem?, map, any,
  Text, codes, ellipsis, eq_ignore_ascii_case, to_ascii_lowercase, ends_with, decimal,
  is_continuation, char_count,
}
use pg_ask.Checked.{Checked, pass, fail, ◌>>=◌}
use pg_ask.Json.{Value, null, bool, number, string, array, object, Fields, end, field, get, Serde}

abbrev pub max_cell_chars : ℕ
max_cell_chars = 500

pub record RenderedTable : Type 0 where
  pub text : Text
  pub row_count : ℕ
  pub truncated : Bool

unfoldable pub wrap_with_cap : Text → Text
wrap_with_cap inner =
    codes "SELECT row_to_json(_pg_ask_t)::text FROM (" ++ (inner ++ codes ") AS _pg_ask_t LIMIT $1")

-- The loop of `truncate_cell`, with the characters that are left: what stands before the first
-- character too many, if there is one.
pub cut_at : ℕ → Text → Option Text
cut_at left [] = none
cut_at zero (b ∷ s) =
    let rest = cut_at zero s in
    if is_continuation b then elim rest [ none ↦ none | some p ↦ some (b ∷ p) ] else some []
cut_at (suc left) (b ∷ s) =
    let inside = cut_at (suc left) s in
    let next = cut_at left s in
    elim (if is_continuation b then inside else next) [ none ↦ none | some p ↦ some (b ∷ p) ]

pub truncate_cell : Text → Text
truncate_cell s = elim (cut_at max_cell_chars s) [ some p ↦ p ++ ellipsis | none ↦ s ]

module _ (serde : Serde) where
  -- One row of `parse_json_rows`; a missing datum is `null`.
  abbrev cell_text : Option Text → Text
  cell_text none = codes "null"
  cell_text (some t) = t

  parse_row : Option Text → Checked Value
  parse_row cell = elim (serde.from_str (cell_text cell)) [
    | pass v ↦ pass v
    | fail e ↦ fail (codes "internal: row_to_json parse failed: " ++ e)
  ]

  -- The loop, from the index on; the second part is `truncated`.
  pub parse_from : ℕ → ℕ → List (Option Text) → Checked (List Value × Bool)
  parse_from idx max_rows [] = pass ([], false)
  parse_from idx max_rows (cell ∷ cells) =
      let rest = parse_from (idx + 1) max_rows cells in
      if leb max_rows idx
      then pass ([], true)
      else do parsed ← parse_row cell; more ← rest; pass (parsed ∷ more.0, more.1)

  pub parse_json_rows : List (Option Text) → ℕ → Checked (List Value × Bool)
  parse_json_rows tuptable max_rows = parse_from 0 max_rows tuptable

  pub value_to_cell : Value → Text
  value_to_cell null = codes "NULL"
  value_to_cell (string s) = truncate_cell s
  value_to_cell (bool b) = truncate_cell (serde.to_string (bool b))
  value_to_cell (number n) = truncate_cell (serde.to_string (number n))
  value_to_cell (array vs) = truncate_cell (serde.to_string (array vs))
  value_to_cell (object fs) = truncate_cell (serde.to_string (object fs))

  -- `row.get(col).map(value_to_cell).unwrap_or_else(…)`
  pub cell_of : Value → Text → Text
  cell_of row col = elim (get row col) [ some v ↦ value_to_cell v | none ↦ codes "NULL" ]

pub keys : Fields → List Text
keys end = []
keys (field k v fs) = k ∷ keys fs

pub columns_of : Value → List Text
columns_of (object fs) = keys fs
columns_of _ = codes "?column?" ∷ []

module _ (serde : Serde) where
  pub pivot_rows : List Value → List Text × List (List Text)
  pivot_rows [] = ([], [])
  pivot_rows (row ∷ rows) =
      let columns = columns_of row in
      (columns, map (λ r. map (cell_of serde r) columns) (row ∷ rows))

-- A pattern is the column's name, or what follows a dot in it, in any case.
pub is_sensitive_col : Text → List Text → Bool
is_sensitive_col col patterns =
    any
      (λ p.
        eq_ignore_ascii_case col p
        || ends_with (to_ascii_lowercase col) (b'.' ∷ to_ascii_lowercase p))
      patterns

-- `row.into_iter().enumerate().map(…)`, over the mask from the place on.
pub mask_row : List Bool → List Text → List Text
mask_row mask [] = []
mask_row [] (v ∷ row) = v ∷ mask_row [] row
mask_row (m ∷ mask) (v ∷ row) = (if m then codes "<redacted>" else v) ∷ mask_row mask row

pub apply_sensitive : List Text → List (List Text) → List Text → List (List Text)
apply_sensitive columns cells sensitive =
    if is_empty sensitive
    then cells
    else map (mask_row (map (λ c. is_sensitive_col c sensitive) columns)) cells

-- `" ".repeat(n)` and `"-".repeat(n)`
unfoldable pub repeat : ℕ → ℕ → Text
repeat c zero = []
repeat c (suc n) = c ∷ repeat c n

-- `format!("{:<width$}", c)`
unfoldable pub pad : Text → ℕ → Text
pad c width = c ++ repeat b' ' (width - char_count c)

pub padded : List Text → List ℕ → List Text
padded [] ws = []
padded (c ∷ cs) [] = []
padded (c ∷ cs) (w ∷ ws) = pad c w ∷ padded cs ws

pub fmt_row : List Text → List ℕ → Text
fmt_row cells widths = join (codes " | ") (padded cells widths) ++ b'\n' ∷ []

pub fmt_sep : List ℕ → Text
fmt_sep widths = join (codes "-+-") (map (repeat b'-') widths) ++ b'\n' ∷ []

abbrev pub max : ℕ → ℕ → ℕ
max a b = if leb a b then b else a

-- The width of a place in a row, 0 where the row ends before it.
abbrev pub cell_width : Option Text → ℕ
cell_width none = 0
cell_width (some s) = char_count s

pub column_width : ℕ → List (List Text) → ℕ
column_width i [] = 0
column_width i (r ∷ rows) = max (cell_width (get_elem? r i)) (column_width i rows)

-- The widths of the columns from the given place on.
pub widths_from : ℕ → List Text → List (List Text) → List ℕ
widths_from i [] rows = []
widths_from i (name ∷ cols) rows =
    max (char_count name) (column_width i rows) ∷ widths_from (i + 1) cols rows

pub row_lines : List ℕ → List (List Text) → Text
row_lines widths [] = []
row_lines widths (r ∷ rows) = fmt_row r widths ++ row_lines widths rows

-- The bytes of ` — truncated at `.
abbrev truncated_at : Text
truncated_at = 32 ∷ 0xe2 ∷ 0x80 ∷ 0x94 ∷ codes " truncated at "

pub render_table : List Text → List (List Text) → Bool → ℕ → Text
render_table cols rows truncated cap =
    if is_empty rows
    then codes "(0 rows)\ncolumns: " ++ join (codes ", ") cols
    else let widths = widths_from 0 cols rows in
      fmt_row cols widths
      ++ (fmt_sep widths
          ++ (row_lines widths rows
              ++ (b'\n'
                  ∷ b'('
                  ∷ (decimal (length rows)
                      ++ (codes " rows)"
                          ++ (if truncated then truncated_at ++ decimal cap else []))))))

module _ (serde : Serde) where
  unfoldable pub format_table : List Value → List Text → Bool → ℕ → Text × ℕ
  format_table json_rows sensitive truncated cap =
      let (columns, cells) = pivot_rows serde json_rows in
      (render_table columns (apply_sensitive columns cells sensitive) truncated cap, length cells)

  -- `max_rows.saturating_add(1) as i64`, on the bits
  abbrev pub cap_plus_one : ℕ → ℕ
  cap_plus_one max_rows = if leb (2 ^ 64) (max_rows + 1) then 2 ^ 64 - 1 else max_rows + 1

  -- `select` runs a text with the cap bound to `$1`.
  unfoldable pub run_to_table :
      (Text → ℕ → Checked (List (Option Text))) → Text → ℕ → List Text → Checked RenderedTable
  unfolding parse_json_rows parse_from parse_row
  run_to_table select query max_rows sensitive = do
    tuptable ← select (wrap_with_cap query) (cap_plus_one max_rows)
    parsed ← parse_json_rows serde tuptable max_rows
    let table = format_table parsed.0 sensitive parsed.1 max_rows
    pass (record { text = table.0; row_count = table.1; truncated = parsed.1 })
