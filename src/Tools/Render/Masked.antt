-- ===== src/Tools/Render/Masked.antt =====
-- The masking of src/tools/render.rs: what `format_table` shows of the sensitive columns.
use pg_ask.Prelude.{ℕ, Bool, false, List, [], ◌∷◌, ◌≡◌, if◌then◌else◌, length, map, Text, codes}
use pg_ask.Json.{Value, get, Serde}
use pg_ask.Tools.Render.{cell_of, columns_of, is_sensitive_col, apply_sensitive, render_table}

-- A cell under the mask.
abbrev pub shown_as : Bool → Text → Text
shown_as sensitive v = if sensitive then codes "<redacted>" else v

-- Two results with xs many rows, whose rows agree at every name that is not sensitive.
pub data Agrees (sensitive : List Text) : List Value → List Value → Type 0 where
  no_rows : Agrees sensitive [] []
  row :
      {a b : Value} {xs ys : List Value}
      → ((c : Text) → is_sensitive_col c sensitive ≡ false → get a c ≡ get b c)
      → Agrees sensitive xs ys
      → Agrees sensitive (a ∷ xs) (b ∷ ys)

-- The same columns, which are those of the first rows.
abbrev pub SameColumns : List Value → List Value → Type 0
SameColumns [] ys = Unit
SameColumns (a ∷ xs) [] = Unit
SameColumns (a ∷ xs) (b ∷ ys) = columns_of a ≡ columns_of b

module _ (serde : Serde) (sensitive : List Text) where
  -- A row xs the table shows it.
  abbrev visible : List Text → Value → List Text
  visible cols r = map (λ c. shown_as (is_sensitive_col c sensitive) (cell_of serde r c)) cols

  -- The cells before masking, and what the table makes of them.
  abbrev cells : List Text → List Value → List (List Text)
  cells cols rows = map (λ r. map (cell_of serde r) cols) rows

  abbrev laid_out : List Text → List Value → Bool → ℕ → Text × ℕ
  laid_out cols rows truncated cap = (
    render_table cols (apply_sensitive cols (cells cols rows) sensitive) truncated cap,
    length (cells cols rows),
  )
