-- ===== src/Agent/Run.antt =====
-- `run_with_cfg` of src/agent/run.rs. The provider, the tools, the preparation of the call and the
-- clock are parameters over a state `World`, which stands for the database, the network and time.
pub mod Exchange
pub mod Conversation
pub mod Budget
use pg_ask.Prelude.{
  is_empty, ℕ, zero, suc, ◌+◌, ◌-◌, ◌%◌, ◌^◌, Bool, true, false, Option, none, some, List, [], ◌∷◌,
  ◌++◌, if◌then◌else◌, length, drop, map, Text, codes,
}
use pg_ask.Errors.{AskError, max_iterations, Result, ok, err}
use pg_ask.Json.{Value}
use pg_ask.Providers.{
  Role, system, user, assistant, tool, ToolCall, MessageContent, plain, assistant_with_tools,
  tool_result, Message, ToolSpec, TokenUsage, ProviderResponse, final, tool_calls,
}
use pg_ask.Telemetry.{ToolCallTrace, from_call}
use pg_ask.Tools.Output.{ToolOutput}
use pg_ask.Agent.Dispatch.{Tool, dispatch}

pub data AgentMode : Type 0 where
  execute generate_only : AgentMode

-- `tool_trace` is its `tool_calls`.
pub record AgentOutcome : Type 0 where
  pub text : Text
  pub iterations : ℕ
  pub tool_trace : List ToolCallTrace
  pub new_turns : List Message
  pub prompt_tokens : ℕ
  pub completion_tokens : ℕ

-- A call returns, or a pending cancel raises out of `check_for_interrupts!()`.
pub data Exit (A : Type 0) : Type 0 where
  returned : Result A → Exit A
  interrupted : Exit A

-- What stands before the loop: the system prompt and the tools, an empty list in
-- `AgentMode::GenerateOnly`.
pub record Setup (World : Type 0) : Type 0 where
  pub system_prompt : Text
  pub tools : List (Tool World)

pub record Env (World : Type 0) : Type 0 where
  pub prepare : AgentMode → World → Result (Setup World) × World
  pub complete : Text → List Message → List ToolSpec → World → Result ProviderResponse × World
  pub cancelled : World → Bool
  pub now_ms : World → ℕ

-- The mutable variables of the loop.
pub record Loop : Type 0 where
  pub history : List Message
  pub tool_trace : List ToolCallTrace
  pub total_prompt_tokens : ℕ
  pub total_completion_tokens : ℕ

-- Wrapping `+` of `i64`, on the bits.
abbrev pub add_i64 : ℕ → ℕ → ℕ
add_i64 a b = (a + b) % 2 ^ 64

abbrev pub add_usage : Option TokenUsage → Loop → Loop
add_usage none l = l
add_usage (some u) l = record l {
  total_prompt_tokens = add_i64 l.total_prompt_tokens u.prompt_tokens;
  total_completion_tokens = add_i64 l.total_completion_tokens u.completion_tokens;
}

abbrev pub push : Message → Loop → Loop
push m l = record l { history = l.history ++ m ∷ [] }

abbrev pub user_text : Text → Message
user_text t = record { role = user; content = plain t }

abbrev pub assistant_text : Text → Message
assistant_text t = record { role = assistant; content = plain t }

abbrev pub assistant_calls : Option Text → List ToolCall → Message
assistant_calls t calls = record { role = assistant; content = assistant_with_tools t calls }

abbrev pub result_of : ToolCall → ToolOutput → Message
result_of call output = record {
  role = tool;
  content = tool_result call.id output.text output.is_error;
}

abbrev pub nudge : Message
nudge =
    user_text
      (codes "You returned no tool calls and no answer. Please respond with your final answer now.")

abbrev pub step_limit : Message
step_limit = user_text (
    codes
      "You have reached the step limit. Do not call any more tools. Give your best final answer now using the information you have already gathered above. If it is incomplete, say so briefly and answer with what you know.")

-- The text of an answer, if there is one that is not empty.
abbrev pub answer : Option Text → Option Text
answer none = none
answer (some t) = if is_empty t then none else some t

-- `split_off(prior_len)` and the outcome around it
unfoldable pub outcome : ℕ → Text → ℕ → Loop → AgentOutcome
outcome prior_len text iterations l = record {
  text = text;
  iterations = iterations;
  tool_trace = l.tool_trace;
  new_turns = drop prior_len l.history;
  prompt_tokens = l.total_prompt_tokens;
  completion_tokens = l.total_completion_tokens;
}

module _ {World : Type 0} (env : Env World) where
  -- `for call in calls`
  unfoldable pub run_calls : List (Tool World) → List ToolCall → Loop → World → Loop × World
  run_calls tools [] l w = (l, w)
  run_calls tools (call ∷ calls) l w =
      let (output, w') = dispatch tools call.name call.arguments w in
      let elapsed_ms = (env.now_ms w' - env.now_ms w) % 2 ^ 64 in
      let trace = from_call call output.text output.is_error elapsed_ms in
      run_calls tools calls
        (push (result_of call output) (record l { tool_trace = l.tool_trace ++ trace ∷ [] })) w'

  -- The last turn's answer: a final text, or the text beside tool calls.
  abbrev pub last_answer : Result ProviderResponse → Option (Text × Option TokenUsage)
  last_answer (ok (final text usage)) = some (text, usage)
  last_answer (ok (tool_calls (some text) calls usage)) = some (text, usage)
  last_answer _ = none

  pub conclude : ℕ → ℕ → Loop → Option (Text × Option TokenUsage) → Result AgentOutcome
  conclude max prior_len l none = err (max_iterations max)
  conclude max prior_len l (some (text, usage)) =
      if is_empty text
      then err (max_iterations max)
      else ok (outcome prior_len text max (push (assistant_text text) (add_usage usage l)))

  -- The turn without tools after the iteration budget.
  pub last_turn : Setup World → ℕ → ℕ → Loop → World → Exit AgentOutcome × World
  last_turn setup max prior_len l w =
      let asked = push step_limit l in
      let (resp, w') = env.complete setup.system_prompt asked.history [] w in
      (returned (conclude max prior_len asked (last_answer resp)), w')

  abbrev pub Step : Type 0
  Step = Loop → World → Exit AgentOutcome × World

  -- What follows an answer with tool calls; `more` is the rest of the loop.
  unfoldable pub called : Step → ℕ → ℕ → List (Tool World) → Option Text → List ToolCall → Step
  called more iteration prior_len tools text [] l w = elim (answer text) [
    | some t ↦ (returned (ok (outcome prior_len t (iteration + 1) (push (assistant_text t) l))), w)
    | none ↦ more (push nudge l) w
  ]
  called more iteration prior_len tools text (call ∷ calls) l w =
      let (l', w') = run_calls tools (call ∷ calls) l w in more l' w'

  unfoldable pub respond : Step → ℕ → ℕ → List (Tool World) → Result ProviderResponse → Step
  respond more iteration prior_len tools (err e) l w = (returned (err e), w)
  respond more iteration prior_len tools (ok (final text usage)) l w = (
    returned (
        ok (
          outcome prior_len text (iteration + 1) (push (assistant_text text) (add_usage usage l)))),
    w,
  )
  respond more iteration prior_len tools (ok (tool_calls text calls usage)) l w =
      called more iteration prior_len tools text calls
        (push (assistant_calls text calls) (add_usage usage l)) w

  -- `for iteration in 0..cfg.max_iterations`, by the rounds left, and the turn behind it.
  unfoldable pub rounds : Setup World → ℕ → ℕ → ℕ → ℕ → Step
  rounds setup max prior_len zero iteration l w = last_turn setup max prior_len l w
  rounds setup max prior_len (suc left) iteration l w =
      if env.cancelled w
      then (interrupted, w)
      else let (resp, w') =
          env.complete setup.system_prompt l.history (map (λ (t : Tool World). t.spec) setup.tools)
            w in
        respond (λ l' w''. rounds setup max prior_len left (iteration + 1) l' w'') iteration
          prior_len setup.tools resp l w'

  abbrev pub seed : Text → List Message → Loop
  seed question prior_history = record {
    history = prior_history ++ user_text question ∷ [];
    tool_trace = [];
    total_prompt_tokens = 0;
    total_completion_tokens = 0;
  }

  unfoldable pub prepared :
      ℕ → Text → List Message → Result (Setup World) → World → Exit AgentOutcome × World
  prepared max question prior_history (err e) w = (returned (err e), w)
  prepared max question prior_history (ok setup) w =
      rounds setup max (length prior_history) max 0 (seed question prior_history) w

  -- The first argument is `cfg.max_iterations`.
  unfoldable pub run_with_cfg :
      ℕ → Text → List Message → AgentMode → World → Exit AgentOutcome × World
  unfolding outcome run_calls conclude last_turn called respond rounds prepared dispatch from_call
  run_with_cfg max question prior_history mode w =
      let (setup, w') = env.prepare mode w in prepared max question prior_history setup w'
