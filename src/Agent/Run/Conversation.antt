-- ===== src/Agent/Run/Conversation.antt =====
-- Every branch of `run_with_cfg` of src/agent/run.rs adds an exchange to the conversation.
use pg_ask.Prelude.{
  ℕ, zero, suc, ◌+◌, ◌-◌, ◌%◌, ◌^◌, Option, none, some, List, [], ◌∷◌, ◌++◌, ◌≡◌, refl, sym, ap,
  ◌∙◌, inl, inr, length, drop, drop-length, map, Text, Bool-cases, subst,
}
use mathlib.Core.List.{append_assoc, append-nil}
use pg_ask.Errors.{Result, ok, err, Result-cases}
use pg_ask.Providers.{ToolCall, Message, TokenUsage, ProviderResponse, final, tool_calls}
use pg_ask.Telemetry.{ToolCallTrace, from_call}
use pg_ask.Agent.Dispatch.{Tool, dispatch}
use pg_ask.Agent.Run.{
  AgentOutcome, Exit, returned, Setup, Env, Loop, add_usage, push, user_text, assistant_text,
  assistant_calls, result_of, nudge, step_limit, outcome, run_calls, last_answer, conclude,
  last_turn, called, respond, rounds, seed, prepared, run_with_cfg, AgentMode,
}
use pg_ask.Agent.Run.Exchange.{
  Results, no_results, result, calls_round, nudge_round, Ending, final_text, text_without_calls,
  at_step_limit, Exchange, Adds, ended, after_round, from_equal,
}

same_history : (u : Option TokenUsage) (l : Loop) → (add_usage u l).history ≡ l.history
same_history none l = refl
same_history (some u) l = refl

same_trace : (u : Option TokenUsage) (l : Loop) → (add_usage u l).tool_trace ≡ l.tool_trace
same_trace none l = refl
same_trace (some u) l = refl

module _ {World : Type 0} (env : Env World) where
  -- `run_calls` adds one result and one trace for each call.
  record CallsAdd (calls : List ToolCall) (before after : Loop) : Type 0 where
    results : List Message
    traced : List ToolCallTrace
    each : Results calls results traced
    history : after.history ≡ before.history ++ results
    trace : after.tool_trace ≡ before.tool_trace ++ traced

  run_calls-Adds :
      (tools : List (Tool World)) (calls : List ToolCall) (l : Loop) (w : World)
      → CallsAdd calls l (run_calls env tools calls l w).0
  unfolding run_calls
  run_calls-Adds tools [] l w = record {
    results = [];
    traced = [];
    each = no_results;
    history = sym (append-nil l.history);
    trace = sym (append-nil l.tool_trace);
  }
  run_calls-Adds tools (call ∷ calls) l w =
      let (output, w') = dispatch tools call.name call.arguments w in
      let ms = (env.now_ms w' - env.now_ms w) % 2 ^ 64 in
      let t = from_call call output.text output.is_error ms in
      let next = push (result_of call output) (record l { tool_trace = l.tool_trace ++ t ∷ [] }) in
      let rest = run_calls-Adds tools calls next w' in
      record {
        results = result_of call output ∷ rest.results;
        traced = t ∷ rest.traced;
        each = result call output ms rest.each;
        history = rest.history ∙ append_assoc l.history (result_of call output ∷ []) rest.results;
        trace = rest.trace ∙ append_assoc l.tool_trace (t ∷ []) rest.traced;
      }

  module _ (prior_len : ℕ) (o : AgentOutcome) where
    abbrev Ends : Exit AgentOutcome × World → Type 0
    Ends r = r.0 ≡ returned (ok o)

    -- The rest of the loop adds an exchange to whatever it starts from.
    abbrev StepAdds : (Loop → World → Exit AgentOutcome × World) → Type 0
    StepAdds step =
        (l : Loop) (w : World) → Ends (step l w) → Adds l.history l.tool_trace prior_len o

    -- An outcome adds what its history and its trace add.
    ends_here :
        (text : Text) (i : ℕ) (l l' : Loop) (turns : List Message)
        → Ending text turns
        → l'.history ≡ l.history ++ turns
        → l'.tool_trace ≡ l.tool_trace
        → ok (outcome prior_len text i l') ≡ ok o
        → Adds l.history l.tool_trace prior_len o
    unfolding outcome
    ends_here text i l l' turns e h t k =
        let same : outcome prior_len text i l' ≡ o = cc in
        subst (Adds l.history l.tool_trace prior_len) same
          (ended l prior_len (outcome prior_len text i l') turns (ap (drop prior_len) h) t e)

    conclude-Adds :
        (max : ℕ) (l : Loop) (a : Option (Text × Option TokenUsage))
        → conclude env max prior_len (push step_limit l) a ≡ ok o
        → Adds l.history l.tool_trace prior_len o
    unfolding conclude
    conclude-Adds max l none h = absurd (cc)
    conclude-Adds max l (some ([], usage)) h = absurd (cc)
    conclude-Adds max l (some (c ∷ s, usage)) h =
        let asked = push step_limit l in
        let text = c ∷ s in
        let said = push (assistant_text text) (add_usage usage asked) in
        let k = same_history usage asked in
        ends_here text max l said (step_limit ∷ assistant_text text ∷ []) (at_step_limit text)
          (ap (λ h. h ++ assistant_text text ∷ []) k
            ∙ append_assoc l.history (step_limit ∷ []) (assistant_text text ∷ []))
          (same_trace usage asked) h

    nudged-Adds :
        (text : Option Text) (l asked : Loop)
        → asked.history ≡ l.history ++ assistant_calls text [] ∷ []
        → asked.tool_trace ≡ l.tool_trace
        → Adds (push nudge asked).history asked.tool_trace prior_len o
        → Adds l.history l.tool_trace prior_len o
    nudged-Adds text l asked h t a =
        after_round (assistant_calls text [] ∷ nudge ∷ []) [] (λ ms ts r. nudge_round text r)
          (from_equal
            (ap (λ h. h ++ nudge ∷ []) h
              ∙ append_assoc l.history (assistant_calls text [] ∷ []) (nudge ∷ []))
            (t ∙ sym (append-nil l.tool_trace)) a)

    ran-Adds :
        (tools : List (Tool World)) (text : Option Text) (call : ToolCall) (calls : List ToolCall)
        (l asked : Loop) (w : World)
        → asked.history ≡ l.history ++ assistant_calls text (call ∷ calls) ∷ []
        → asked.tool_trace ≡ l.tool_trace
        → Adds
            (run_calls env tools (call ∷ calls) asked w).0.history
            (run_calls env tools (call ∷ calls) asked w).0.tool_trace
            prior_len
            o
        → Adds l.history l.tool_trace prior_len o
    ran-Adds tools text call calls l asked w h t a =
        let c = run_calls-Adds tools (call ∷ calls) asked w in
        let said = assistant_calls text (call ∷ calls) in
        after_round (said ∷ c.results) c.traced (λ ms ts r. calls_round text call calls c.each r)
          (from_equal
            (c.history ∙ ap (λ h. h ++ c.results) h ∙ append_assoc l.history (said ∷ []) c.results)
            (c.trace ∙ ap (λ t. t ++ c.traced) t) a)

    answered-Adds :
        (more : Loop → World → Exit AgentOutcome × World) (i : ℕ) (tools : List (Tool World))
        (text : Option Text) (l asked : Loop) (w : World)
        → StepAdds more
        → asked.history ≡ l.history ++ assistant_calls text [] ∷ []
        → asked.tool_trace ≡ l.tool_trace
        → Ends (called env more i prior_len tools text [] asked w)
        → Adds l.history l.tool_trace prior_len o
    unfolding called
    answered-Adds more i tools none l asked w keep h t e =
        nudged-Adds none l asked h t (keep (push nudge asked) w e)
    answered-Adds more i tools (some []) l asked w keep h t e =
        nudged-Adds (some []) l asked h t (keep (push nudge asked) w e)
    answered-Adds more i tools (some (c ∷ s)) l asked w keep h t e =
        let text = c ∷ s in
        ends_here text (i + 1) l (push (assistant_text text) asked)
          (assistant_calls (some text) [] ∷ assistant_text text ∷ []) (text_without_calls text)
          (ap (λ h. h ++ assistant_text text ∷ []) h
            ∙ append_assoc l.history (assistant_calls (some text) [] ∷ [])
                (assistant_text text ∷ []))
          t (cc)

    called-Adds :
        (more : Loop → World → Exit AgentOutcome × World) (i : ℕ) (tools : List (Tool World))
        (text : Option Text) (calls : List ToolCall) (l asked : Loop) (w : World)
        → StepAdds more
        → asked.history ≡ l.history ++ assistant_calls text calls ∷ []
        → asked.tool_trace ≡ l.tool_trace
        → Ends (called env more i prior_len tools text calls asked w)
        → Adds l.history l.tool_trace prior_len o
    unfolding called
    called-Adds more i tools text [] l asked w keep h t e =
        answered-Adds more i tools text l asked w keep h t e
    called-Adds more i tools text (call ∷ calls) l asked w keep h t e =
        let (l', w') = run_calls env tools (call ∷ calls) asked w in
        ran-Adds tools text call calls l asked w h t (keep l' w' e)

    respond-Adds :
        (more : Loop → World → Exit AgentOutcome × World) (i : ℕ) (tools : List (Tool World))
        (resp : Result ProviderResponse) (l : Loop) (w : World)
        → StepAdds more
        → Ends (respond env more i prior_len tools resp l w)
        → Adds l.history l.tool_trace prior_len o
    unfolding respond
    respond-Adds more i tools (err e) l w keep h = absurd (cc)
    respond-Adds more i tools (ok (final text usage)) l w keep h =
        ends_here text (i + 1) l (push (assistant_text text) (add_usage usage l))
          (assistant_text text ∷ []) (final_text text)
          (ap (λ h. h ++ assistant_text text ∷ []) (same_history usage l)) (same_trace usage l) (cc)
    respond-Adds more i tools (ok (tool_calls text calls usage)) l w keep h =
        called-Adds more i tools text calls l
          (push (assistant_calls text calls) (add_usage usage l)) w keep
          (ap (λ h. h ++ assistant_calls text calls ∷ []) (same_history usage l))
          (same_trace usage l) h

    rounds-Adds :
        (setup : Setup World) (max left i : ℕ) → StepAdds (rounds env setup max prior_len left i)
    unfolding rounds last_turn
    rounds-Adds setup max zero i l w h =
        let (resp, w') = env.complete setup.system_prompt (push step_limit l).history [] w in
        conclude-Adds max l (last_answer env resp) (cc)
    rounds-Adds setup max (suc left) i l w h = elim (Bool-cases (env.cancelled w)) [
      | inl e ↦ absurd (let k = rw e at h in cc)
      | inr e ↦
          let (resp, w') =
            env.complete setup.system_prompt l.history
              (map (λ (t : Tool World). t.spec) setup.tools) w in
          respond-Adds (λ l' w''. rounds env setup max prior_len left (i + 1) l' w'') i setup.tools
            resp l w' (λ l' w''. rounds-Adds setup max left (i + 1) l' w'') (rw e at h)
    ]

  -- If the call returns an outcome, its new turns are the question and then an exchange: rounds, and
  -- the turns that end with the outcome's text. A round is an assistant turn with calls and, right
  -- behind it, one result for each call, in order and under the call's id, or it is an assistant
  -- turn without calls and the nudge. The outcome's trace is that of these results, in order.
  pub run_with_cfg-Exchange :
      (max : ℕ) (question : Text) (prior : List Message) (mode : AgentMode) (w : World)
      (o : AgentOutcome)
      → (run_with_cfg env max question prior mode w).0 ≡ returned (ok o)
      → (turns : List Message) × (o.new_turns ≡ user_text question ∷ turns)
        × Exchange o.text turns o.tool_trace
  unfolding run_with_cfg prepared
  run_with_cfg-Exchange max question prior mode w o h =
      let (setup, w') = env.prepare mode w in
      elim (Result-cases setup) [
        | inl (s, e) ↦
            let a =
              rounds-Adds (length prior) o s max max 0 (seed env question prior) w' (rw e at h) in
            let asked = user_text question in
            (
              a.turns,
              a.keeps_turns
                  ∙ ap (drop (length prior)) (append_assoc prior (asked ∷ []) a.turns)
                  ∙ drop-length prior (asked ∷ a.turns),
              subst (Exchange o.text a.turns) (sym a.keeps_trace) a.exchange,
            )
        | inr (x, e) ↦ absurd (let k = rw e at h in cc)
      ]
