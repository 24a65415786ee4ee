-- ===== src/Agent/Dispatch.antt =====
-- src/agent/dispatch.rs, over the trait `Tool` of src/tools/mod.rs. What a tool does to the
-- database, the network and the clock is a state of type `World` that it is given and returns.
pub mod Found
use pg_ask.Prelude.{
  ℕ, Bool, true, false, Option, none, some, List, [], ◌∷◌, ◌++◌, if◌then◌else◌, Text, codes, eq,
  ◌≡◌, refl,
}
use pg_ask.Errors.{AskError, Result, ok, err, display}
use pg_ask.Json.{Value}
use pg_ask.Providers.{ToolSpec}
use pg_ask.Tools.Output.{ToolOutput, failure}

-- `dyn Tool`: `spec()` and `invoke(args)`
pub record Tool (World : Type 0) : Type 0 where
  pub spec : ToolSpec
  pub invoke : Value → World → Result ToolOutput × World

pub output_of : Result ToolOutput → ToolOutput
output_of (ok out) = out
output_of (err e) = failure (codes "tool error: " ++ display e)

module _ {World : Type 0} where
  -- `tools.iter().find(|t| t.spec().name == name)`
  pub find_tool : List (Tool World) → Text → Option (Tool World)
  find_tool [] name = none
  find_tool (t ∷ ts) name = if eq t.spec.name name then some t else find_tool ts name

  unfoldable pub dispatch : List (Tool World) → Text → Value → World → ToolOutput × World
  unfolding find_tool output_of
  dispatch tools name args w = elim (find_tool tools name) [
    | none ↦ (failure (codes "unknown tool `" ++ (name ++ codes "`")), w)
    | some tool ↦ let (result, w') = tool.invoke args w in (output_of result, w')
  ]
