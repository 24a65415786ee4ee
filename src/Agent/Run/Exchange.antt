-- ===== src/Agent/Run/Exchange.antt =====
-- The shape of the turns that `run_with_cfg` of src/agent/run.rs adds to a conversation.
use pg_ask.Prelude.{
  ℕ, Option, some, List, [], ◌∷◌, ◌++◌, ◌≡◌, refl, sym, ap, ◌∙◌, drop, Text, subst,
}
use mathlib.Core.List.{append_assoc, append-nil}
use pg_ask.Providers.{ToolCall, Message}
use pg_ask.Telemetry.{ToolCallTrace, from_call}
use pg_ask.Tools.Output.{ToolOutput}
use pg_ask.Agent.Run.{
  AgentOutcome, Loop, assistant_text, assistant_calls, result_of, nudge, step_limit,
}

-- One result for each call, in the order of the calls, under the call's id; and the trace of each.
pub data Results : List ToolCall → List Message → List ToolCallTrace → Type 0 where
  no_results : Results [] [] []
  result :
      {calls : List ToolCall} {ms : List Message} {ts : List ToolCallTrace} (call : ToolCall)
      (output : ToolOutput) (elapsed_ms : ℕ)
      → Results calls ms ts
      → Results
          (call ∷ calls)
          (result_of call output ∷ ms)
          (from_call call output.text output.is_error elapsed_ms ∷ ts)

-- The turns between the question and the answer: an assistant turn with calls has the results of
-- all its calls right behind it, and one with neither calls nor text has the nudge.
pub data Rounds : List Message → List ToolCallTrace → Type 0 where
  no_rounds : Rounds [] []
  calls_round :
      {ms rs : List Message} {ts us : List ToolCallTrace} (text : Option Text) (call : ToolCall)
      (calls : List ToolCall)
      → Results (call ∷ calls) rs us
      → Rounds ms ts
      → Rounds (assistant_calls text (call ∷ calls) ∷ (rs ++ ms)) (us ++ ts)
  nudge_round :
      {ms : List Message} {ts : List ToolCallTrace} (text : Option Text)
      → Rounds ms ts
      → Rounds (assistant_calls text [] ∷ nudge ∷ ms) ts

-- The turns that end a call with the given text.
pub data Ending : Text → List Message → Type 0 where
  final_text : (t : Text) → Ending t (assistant_text t ∷ [])
  text_without_calls : (t : Text) → Ending t (assistant_calls (some t) [] ∷ assistant_text t ∷ [])
  at_step_limit : (t : Text) → Ending t (step_limit ∷ assistant_text t ∷ [])

-- Rounds and then an ending.
pub record Exchange (text : Text) (turns : List Message) (trace : List ToolCallTrace) : Type 0 where
  pub middle : List Message
  pub ending : List Message
  pub splits : turns ≡ middle ++ ending
  pub goes : Rounds middle trace
  pub ends : Ending text ending

-- The outcome adds an exchange to the given history and trace.
pub record Adds (history : List Message) (trace : List ToolCallTrace) (prior_len : ℕ)
    (o : AgentOutcome) : Type 0 where
  pub turns : List Message
  pub traces : List ToolCallTrace
  pub keeps_turns : o.new_turns ≡ drop prior_len (history ++ turns)
  pub keeps_trace : o.tool_trace ≡ trace ++ traces
  pub exchange : Exchange o.text turns traces

pub ended :
    (l : Loop) (prior_len : ℕ) (o : AgentOutcome) (turns : List Message)
    → o.new_turns ≡ drop prior_len (l.history ++ turns)
    → o.tool_trace ≡ l.tool_trace
    → Ending o.text turns
    → Adds l.history l.tool_trace prior_len o
ended l prior_len o turns h t e = record {
  turns = turns;
  traces = [];
  keeps_turns = h;
  keeps_trace = t ∙ sym (append-nil l.tool_trace);
  exchange = record { middle = []; ending = turns; splits = refl; goes = no_rounds; ends = e };
}

-- A round in front of an exchange.
pub after_round :
    {history : List Message} {trace : List ToolCallTrace} {prior_len : ℕ} {o : AgentOutcome}
    (front : List Message) (traced : List ToolCallTrace)
    → ((ms : List Message) (ts : List ToolCallTrace)
        → Rounds ms ts
        → Rounds (front ++ ms) (traced ++ ts))
    → Adds (history ++ front) (trace ++ traced) prior_len o
    → Adds history trace prior_len o
after_round {history} {trace} {prior_len} front traced add a = record {
  turns = front ++ a.turns;
  traces = traced ++ a.traces;
  keeps_turns = a.keeps_turns ∙ ap (drop prior_len) (append_assoc history front a.turns);
  keeps_trace = a.keeps_trace ∙ append_assoc trace traced a.traces;
  exchange =
      let e = a.exchange in
      record {
        middle = front ++ e.middle;
        ending = e.ending;
        splits = ap (◌++◌ front) e.splits ∙ sym (append_assoc front e.middle e.ending);
        goes = add e.middle a.traces e.goes;
        ends = e.ends;
      };
}

-- The same, from equal histories and traces.
pub from_equal :
    {h k : List Message} {t u : List ToolCallTrace} {prior_len : ℕ} {o : AgentOutcome}
    → h ≡ k
    → t ≡ u
    → Adds h t prior_len o
    → Adds k u prior_len o
from_equal {h} {k} {t} {u} {prior_len} {o} p q a =
    subst (λ t. Adds k t prior_len o) q (subst (λ h. Adds h t prior_len o) p a)
