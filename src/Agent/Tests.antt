-- ===== src/Agent/Tests.antt =====
-- Runs of `run_with_cfg` of src/agent/run.rs with a provider that calls one tool and then answers.
use pg_ask.Prelude.{
  ℕ, zero, suc, ◌+◌, ◌≤◌, false, none, some, List, [], ◌∷◌, ◌≡◌, refl, arith, Text, codes, eq, All,
  subst, char_count, is_empty, Option, ◌++◌,
}
use pg_ask.Errors.{ok}
use pg_ask.Json.{Value, null, object, end}
use pg_ask.Providers.{ToolCall, Message, TokenUsage, ProviderResponse, final, tool_calls}
use pg_ask.Tools.Output.{shown}
use pg_ask.Agent.Dispatch.{Tool}
use pg_ask.Agent.Run.{
  AgentMode, execute, AgentOutcome, returned, Setup, Env, user_text, assistant_text,
  assistant_calls, result_of, run_with_cfg,
}
use pg_ask.Agent.Run.Exchange.{Exchange}
use pg_ask.Agent.Run.Conversation.{run_with_cfg-Exchange}
use pg_ask.Agent.Stream.{run_stream_with_cfg}
use pg_ask.Agent.Stream.Answers.{Agrees, run_stream_with_cfg-Agrees}
use pg_ask.Agent.Run.Budget.{run_with_cfg-asks}

abbrev count_rows : ToolCall
count_rows = record { id = codes "c1"; name = codes "count"; arguments = object end }

abbrev count : Tool ℕ
count = record {
  spec = record { name = codes "count"; description = []; input_schema = null };
  invoke = λ args w. (ok (shown (codes "7")), w);
}

-- The state counts the calls of the provider: the first is answered by a tool call.
abbrev respond_at : ℕ → ProviderResponse
respond_at zero =
    tool_calls none (count_rows ∷ []) (some (record { prompt_tokens = 10; completion_tokens = 2 }))
respond_at (suc n) = final (codes "There are 7.") none

abbrev the_setup : Setup ℕ
the_setup = record { system_prompt = codes "s"; tools = count ∷ [] }

abbrev env : Env ℕ
env = record {
  prepare = λ mode w. (ok the_setup, w);
  complete = λ s ms ts w. (ok (respond_at w), suc w);
  cancelled = λ w. false;
  now_ms = λ w. w;
}

abbrev earlier : List Message
earlier = user_text (codes "Hi") ∷ assistant_text (codes "Hello") ∷ []

abbrev asked_question : Text
asked_question = codes "How many?"

abbrev the_outcome : AgentOutcome
the_outcome = record {
  text = codes "There are 7.";
  iterations = 2;
  tool_trace =
      record {
        name = codes "count";
        arguments = object end;
        is_error = false;
        output_preview = codes "7";
        elapsed_ms = 0;
      }
      ∷ [];
  new_turns =
      user_text asked_question
      ∷ assistant_calls none (count_rows ∷ [])
      ∷ result_of count_rows (shown (codes "7"))
      ∷ assistant_text (codes "There are 7.")
      ∷ [];
  prompt_tokens = 10;
  completion_tokens = 2;
}

run_test : (run_with_cfg env 5 asked_question earlier execute 0).0 ≡ returned (ok the_outcome)
unfolding run_with_cfg eq char_count
run_test = refl

run_with_cfg-Exchange_example :
    (turns : List Message) × (the_outcome.new_turns ≡ user_text asked_question ∷ turns)
    × Exchange the_outcome.text turns the_outcome.tool_trace
run_with_cfg-Exchange_example =
    run_with_cfg-Exchange env 5 asked_question earlier execute 0 the_outcome run_test

tools_quiet :
    (mode : AgentMode) (w : ℕ) (setup : Setup ℕ)
    → (env.prepare mode w).0 ≡ ok setup
    → All (λ (t : Tool ℕ). (args : Value) (w : ℕ) → (t.invoke args w).1 ≤ w) setup.tools
tools_quiet mode w setup h =
    let same : the_setup ≡ setup = cc in
    subst
      (λ (p : Setup ℕ).
        All (λ (t : Tool ℕ). (args : Value) (w : ℕ) → (t.invoke args w).1 ≤ w) p.tools)
      same (λ args w. omega arith, tt)

run_with_cfg-asks_example : (run_with_cfg env 1 asked_question earlier execute 0).1 ≤ 0 + (1 + 1)
run_with_cfg-asks_example =
    run_with_cfg-asks env (λ w. w) (λ s ms ts w. omega arith) (λ mode w. omega arith) tools_quiet 1
      asked_question earlier execute 0

stream_test :
    (run_stream_with_cfg env 5 asked_question execute 0).0
    ≡ returned (
        ok (
          (codes "[tool] count " ++ 226 ∷ 134 ∷ 146 ∷ codes " 7")
          ∷ codes "[answer] There are 7."
          ∷ []))
unfolding run_stream_with_cfg eq char_count
stream_test = refl

-- With no round left the stream has nothing to show.
stream_silent_test :
    (run_stream_with_cfg env 0 asked_question execute 0).0
    ≡ returned (ok (codes "[error] no response from model" ∷ []))
unfolding run_stream_with_cfg
stream_silent_test = refl

respond_at_calls :
    (w : ℕ) (text : Option Text) (calls : List ToolCall) (usage : Option TokenUsage)
    → ok (respond_at w) ≡ ok (tool_calls text calls usage)
    → is_empty calls ≡ false
respond_at_calls zero text calls usage h =
    let same : count_rows ∷ [] ≡ calls = cc in subst (λ cs. is_empty cs ≡ false) same refl
respond_at_calls (suc w) text calls usage h = absurd (cc)

run_stream_with_cfg-Agrees_example :
    Agrees env 5
      (run_stream_with_cfg env 5 asked_question execute 0)
      (run_with_cfg env 5 asked_question [] execute 0)
run_stream_with_cfg-Agrees_example =
    run_stream_with_cfg-Agrees env 5
      (λ prompt ms specs w text calls usage h. respond_at_calls w text calls usage h) asked_question
      execute 0
