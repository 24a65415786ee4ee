-- ===== src/Agent/Stream.antt =====
-- `run_stream_with_cfg` of src/agent/stream.rs, over the parameters of Agent.Run.
pub mod Answers
use pg_ask.Prelude.{
  ℕ, zero, suc, Bool, true, false, Option, none, some, List, [], ◌∷◌, ◌++◌, if◌then◌else◌, map,
  Text, codes, is_empty,
}
use pg_ask.Errors.{Result, ok, err}
use pg_ask.Providers.{ToolCall, Message, TokenUsage, ProviderResponse, final, tool_calls}
use pg_ask.Telemetry.{truncate_tool_output}
use pg_ask.Tools.Output.{ToolOutput}
use pg_ask.Agent.Dispatch.{Tool, dispatch}
use pg_ask.Agent.Run.{
  AgentMode, Exit, returned, interrupted, Setup, Env, answer, user_text, assistant_text,
  assistant_calls, result_of,
}

-- The mutable variables of the loop; `rows` is its `out`.
pub record Stream : Type 0 where
  pub history : List Message
  pub rows : List Text

abbrev pub say : Message → Stream → Stream
say m s = record s { history = s.history ++ m ∷ [] }

abbrev pub show_row : Text → Stream → Stream
show_row row s = record s { rows = s.rows ++ row ∷ [] }

abbrev pub answer_row : Text → Text
answer_row text = codes "[answer] " ++ text

-- The row of the text beside tool calls, where there is one that is not empty.
abbrev pub show_thinking : Option Text → Stream → Stream
show_thinking none s = s
show_thinking (some t) s = show_row (codes "[thinking] " ++ t) s

-- The arrow is three bytes.
abbrev pub tool_row : Text → Text → Text
tool_row name text =
    codes "[tool] " ++ (name ++ (32 ∷ 226 ∷ 134 ∷ 146 ∷ 32 ∷ truncate_tool_output text))

-- The rows that are given, behind the loop.
abbrev pub shown_rows : List Text → List Text
shown_rows rows = if is_empty rows then codes "[error] no response from model" ∷ [] else rows

module _ {World : Type 0} (env : Env World) where
  -- `for call in calls`
  pub stream_calls : List (Tool World) → List ToolCall → Stream → World → Stream × World
  stream_calls tools [] s w = (s, w)
  stream_calls tools (call ∷ calls) s w =
      let (output, w') = dispatch tools call.name call.arguments w in
      stream_calls tools calls
        (say (result_of call output) (show_row (tool_row call.name output.text) s)) w'

  abbrev pub Rows : Type 0
  Rows = Exit (List Text) × World

  pub stream_respond :
      (Stream → World → Rows) → List (Tool World) → Result ProviderResponse → Stream → World → Rows
  stream_respond more tools (err e) s w = (returned (err e), w)
  stream_respond more tools (ok (final text usage)) s w = (
    returned (ok (shown_rows (show_row (answer_row text) (say (assistant_text text) s)).rows)),
    w,
  )
  stream_respond more tools (ok (tool_calls text calls usage)) s w =
      let (s', w') =
        stream_calls tools calls (say (assistant_calls text calls) (show_thinking (answer text) s))
          w in
      more s' w'

  -- `for _iteration in 0..cfg.max_iterations`, by the rounds left
  pub stream_rounds : Setup World → ℕ → Stream → World → Rows
  stream_rounds setup zero s w = (returned (ok (shown_rows s.rows)), w)
  stream_rounds setup (suc left) s w =
      if env.cancelled w
      then (interrupted, w)
      else let (resp, w') =
          env.complete setup.system_prompt s.history (map (λ (t : Tool World). t.spec) setup.tools)
            w in
        stream_respond (λ s' w''. stream_rounds setup left s' w'') setup.tools resp s w'

  pub stream_prepared : ℕ → Text → Result (Setup World) → World → Rows
  stream_prepared max question (err e) w = (returned (err e), w)
  stream_prepared max question (ok setup) w =
      stream_rounds setup max (record { history = user_text question ∷ []; rows = [] }) w

  -- The first argument is `cfg.max_iterations`.
  unfoldable pub run_stream_with_cfg : ℕ → Text → AgentMode → World → Rows
  unfolding stream_calls stream_respond stream_rounds stream_prepared dispatch truncate_tool_output
  run_stream_with_cfg max question mode w =
      let (setup, w') = env.prepare mode w in stream_prepared max question setup w'
