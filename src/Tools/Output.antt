-- ===== src/Tools/Output.antt =====
-- `ToolOutput` of src/tools/mod.rs.
use pg_ask.Prelude.{Bool, true, false, Text}

pub record ToolOutput : Type 0 where
  pub text : Text
  pub is_error : Bool

-- `ToolOutput { text, is_error: false }` and `ToolOutput { text, is_error: true }`
abbrev pub shown : Text → ToolOutput
shown text = record { text = text; is_error = false }

abbrev pub failure : Text → ToolOutput
failure text = record { text = text; is_error = true }
