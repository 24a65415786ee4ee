-- ===== src/Telemetry.antt =====
-- `truncate_tool_output` and `ToolCallTrace` of src/telemetry/mod.rs.
pub mod Tests
pub mod Trace
use pg_ask.Prelude.{
  ℕ, ◌+◌, ◌≤◌, Bool, true, false, List, [], ◌∷◌, ◌++◌, ltb, if◌then◌else◌, Text, ellipsis,
  char_count, take_chars, char_count-append, char_count-take_chars, take_chars-prefix, ◌≡◌, refl,
  arith, ◌⊎◌, inl, inr, Bool-cases,
}
use pg_ask.Json.{Value}
use pg_ask.Providers.{ToolCall}

abbrev pub tool_output_preview_chars : ℕ
tool_output_preview_chars = 2000

unfoldable pub truncate_tool_output : Text → Text
truncate_tool_output output =
    if ltb tool_output_preview_chars (char_count output)
    then take_chars tool_output_preview_chars output ++ ellipsis
    else output

pub record ToolCallTrace : Type 0 where
  pub name : Text
  pub arguments : Value
  pub is_error : Bool
  pub output_preview : Text
  pub elapsed_ms : ℕ

-- `ToolCallTrace::from_call`
unfoldable pub from_call : ToolCall → Text → Bool → ℕ → ToolCallTrace
unfolding truncate_tool_output
from_call call output is_error elapsed_ms = record {
  name = call.name;
  arguments = call.arguments;
  is_error = is_error;
  output_preview = truncate_tool_output output;
  elapsed_ms = elapsed_ms;
}

le_of_not_ltb : (a b : ℕ) → ltb a b ≡ false → b ≤ a
le_of_not_ltb a b h = ground arith

-- A preview has at most 2001 characters; it is the output itself where that has at most 2000, and
-- else a prefix of it with 2000 characters and the ellipsis.
pub truncate_tool_output_bounded :
    (output : Text)
    → (char_count (truncate_tool_output output) ≤ tool_output_preview_chars + 1)
      × (((char_count output ≤ tool_output_preview_chars) × (truncate_tool_output output ≡ output))
          ⊎ ((cut rest : Text) × (output ≡ cut ++ rest)
              × (char_count cut ≡ tool_output_preview_chars)
              × (truncate_tool_output output ≡ cut ++ ellipsis)))
unfolding truncate_tool_output
truncate_tool_output_bounded output =
    elim (Bool-cases (ltb tool_output_preview_chars (char_count output))) [
      | inr e ↦ rw e (let short = le_of_not_ltb _ _ e in (omega arith, inl (short, refl)))
      | inl e ↦
          let cut = take_chars tool_output_preview_chars output in
          let (rest, p) = take_chars-prefix tool_output_preview_chars output in
          let n = char_count-take_chars tool_output_preview_chars output (ground arith) in
          rw e
            (rw char_count-append (unfold char_count in omega arith), inr (cut, rest, p, n, refl))
    ]
