-- ===== src/Tools/Render/Tests.antt =====
-- Runs of src/tools/render.rs.
use pg_ask.Prelude.{
  join, true, false, none, some, [], ◌∷◌, ◌≡◌, refl, Text, codes, char_count, eq, if◌then◌else◌,
  any, eq_ignore_ascii_case, decimal, ends_with, starts_with, to_ascii_lowercase,
}
use pg_ask.Checked.{pass}
use pg_ask.Json.{Value, null, string, object, end, field, get, lookup, Serde}
use pg_ask.Tools.Render.{
  truncate_cell, parse_json_rows, format_table, fmt_row, fmt_sep, widths_from, is_sensitive_col,
  render_table, pivot_rows, apply_sensitive, padded, columns_of, keys, pad, repeat, column_width,
  mask_row, cell_of, cut_at, row_lines, value_to_cell, columns_of, keys, parse_from, parse_row,
}

-- `{"name": …, "password": …}`
abbrev user_row : Text → Text → Value
user_row name password =
    object (field (codes "name") (string name) (field (codes "password") (string password) end))

-- A parser that reads every text as its row for Ada.
abbrev serde : Serde
serde = record {
  to_string = λ v. codes "0";
  to_string_pretty = λ v. codes "0";
  from_str = λ s. if eq s (codes "null") then pass null else pass (user_row (codes "Ada") s);
}

format_table_test :
    format_table serde (user_row (codes "Ada") (codes "x1") ∷ []) (codes "Password" ∷ []) false 1
    ≡ (codes "name | password  \n-----+-----------\nAda  | <redacted>\n\n(1 rows)", 1)
unfolding format_table render_table pivot_rows apply_sensitive fmt_row join padded columns_of keys
    widths_from pad repeat char_count column_width mask_row is_sensitive_col any
    eq_ignore_ascii_case get lookup decimal ends_with eq starts_with to_ascii_lowercase cell_of
    cut_at fmt_sep row_lines truncate_cell value_to_cell
format_table_test = refl

parse_test :
    parse_json_rows serde (some (codes "a") ∷ none ∷ some (codes "b") ∷ []) 2
    ≡ pass (user_row (codes "Ada") (codes "a") ∷ null ∷ [], true)
unfolding parse_json_rows parse_from parse_row eq
parse_test = refl
