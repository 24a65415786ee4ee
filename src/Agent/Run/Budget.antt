-- ===== src/Agent/Run/Budget.antt =====
-- The budget of `run_with_cfg` of src/agent/run.rs: its rounds and its calls of the provider.
use pg_ask.Prelude.{
  ℕ, zero, suc, ◌+◌, ◌≤◌, ◌-◌, ◌%◌, ◌^◌, Option, none, some, List, [], ◌∷◌, ◌++◌, ◌≡◌, arith, inl,
  inr, length, map, Text, Bool-cases, All,
}
use pg_ask.Errors.{Result, ok, err, Result-cases}
use pg_ask.Json.{Value}
use pg_ask.Providers.{ToolCall, Message, ToolSpec, TokenUsage, ProviderResponse, final, tool_calls}
use pg_ask.Telemetry.{from_call}
use pg_ask.Agent.Dispatch.{Tool, dispatch}
use pg_ask.Agent.Dispatch.Found.{dispatch-Keeps}
use pg_ask.Agent.Run.{
  AgentMode, AgentOutcome, Exit, returned, Setup, Env, Loop, add_usage, push, assistant_calls,
  result_of, step_limit, outcome, run_calls, last_answer, conclude, last_turn, called, respond,
  rounds, seed, prepared, run_with_cfg,
}

module _ {World : Type 0} (env : Env World) (prior_len : ℕ) (o : AgentOutcome) where
  abbrev Ends : Exit AgentOutcome × World → Type 0
  Ends r = r.0 ≡ returned (ok o)

  conclude-iterations :
      (max : ℕ) (l : Loop) (a : Option (Text × Option TokenUsage))
      → conclude env max prior_len l a ≡ ok o
      → o.iterations ≡ max
  unfolding conclude outcome
  conclude-iterations max l none h = absurd (cc)
  conclude-iterations max l (some ([], usage)) h = absurd (cc)
  conclude-iterations max l (some (c ∷ s, usage)) h = cc

  respond-iterations :
      (more : Loop → World → Exit AgentOutcome × World) (i max : ℕ) (tools : List (Tool World))
      (resp : Result ProviderResponse) (l : Loop) (w : World)
      → i + 1 ≤ max
      → ((l : Loop) (w : World) → Ends (more l w) → o.iterations ≤ max)
      → Ends (respond env more i prior_len tools resp l w)
      → o.iterations ≤ max
  unfolding respond called outcome
  respond-iterations more i max tools (err e) l w b keep h = absurd (cc)
  respond-iterations more i max tools (ok (final text usage)) l w b keep h =
      let k : i + 1 ≡ o.iterations = cc in omega (arith, b, k)
  respond-iterations more i max tools (ok (tool_calls none [] usage)) l w b keep h = keep _ _ h
  respond-iterations more i max tools (ok (tool_calls (some []) [] usage)) l w b keep h = keep _ _ h
  respond-iterations more i max tools (ok (tool_calls (some (c ∷ s)) [] usage)) l w b keep h =
      let k : i + 1 ≡ o.iterations = cc in omega (arith, b, k)
  respond-iterations more i max tools (ok (tool_calls text (call ∷ calls) usage)) l w b keep h =
      keep _ _ h

  rounds-iterations :
      (setup : Setup World) (max left i : ℕ) (l : Loop) (w : World)
      → left + i ≡ max
      → Ends (rounds env setup max prior_len left i l w)
      → o.iterations ≤ max
  unfolding rounds last_turn
  rounds-iterations setup max zero i l w b h =
      let (resp, w') = env.complete setup.system_prompt (push step_limit l).history [] w in
      let k = conclude-iterations max (push step_limit l) (last_answer env resp) (cc) in
      omega (arith, k)
  rounds-iterations setup max (suc left) i l w b h = elim (Bool-cases (env.cancelled w)) [
    | inl e ↦ absurd (let k = rw e at h in cc)
    | inr e ↦
        let (resp, w') =
          env.complete setup.system_prompt l.history (map (λ (t : Tool World). t.spec) setup.tools)
            w in
        respond-iterations (λ l' w''. rounds env setup max prior_len left (i + 1) l' w'') i max
          setup.tools resp l w' (omega (arith, b))
          (λ l' w'' e. rounds-iterations setup max left (i + 1) l' w'' (omega (arith, b)) e)
          (rw e at h)
  ]

module _ {World : Type 0} (env : Env World) where
  -- A call that returns an outcome reports at most `max` iterations.
  pub run_with_cfg-iterations :
      (max : ℕ) (question : Text) (prior : List Message) (mode : AgentMode) (w : World)
      (o : AgentOutcome)
      → (run_with_cfg env max question prior mode w).0 ≡ returned (ok o)
      → o.iterations ≤ max
  unfolding run_with_cfg prepared
  run_with_cfg-iterations max question prior mode w o h =
      let (setup, w') = env.prepare mode w in
      elim (Result-cases setup) [
        | inl (s, e) ↦
            rounds-iterations env (length prior) o s max max 0 (seed env question prior) w'
              (omega arith) (rw e at h)
        | inr (x, e) ↦ absurd (let k = rw e at h in cc)
      ]

  module _ (asked : World → ℕ) where
    -- A tool that does not call the provider.
    abbrev pub IsQuiet : Tool World → Type 0
    IsQuiet t = (args : Value) (w : World) → asked (t.invoke args w).1 ≤ asked w

    module _
        (complete_once : (s : Text) (ms : List Message) (ts : List ToolSpec) (w : World)
          → asked (env.complete s ms ts w).1 ≤ asked w + 1)
        (max prior_len : ℕ) where
      run_calls-quiet :
          (tools : List (Tool World)) (calls : List ToolCall) (l : Loop) (w : World)
          → All IsQuiet tools
          → asked (run_calls env tools calls l w).1 ≤ asked w
      unfolding run_calls
      run_calls-quiet tools [] l w q = omega arith
      run_calls-quiet tools (call ∷ calls) l w q =
          let out = dispatch tools call.name call.arguments w in
          let d =
            dispatch-Keeps (λ v w. asked w ≤ asked v) tools call.name call.arguments w
              (λ w. omega arith) q in
          let k =
            run_calls-quiet tools calls
              (push (result_of call out.0) (record l {
                tool_trace =
                    l.tool_trace
                    ++ from_call call out.0.text out.0.is_error
                        ((env.now_ms out.1 - env.now_ms w) % 2 ^ 64)
                      ∷ [];
              }))
              out.1 q in
          omega (arith, d, k)

      respond-asks :
          (more : Loop → World → Exit AgentOutcome × World) (n i : ℕ) (tools : List (Tool World))
          (resp : Result ProviderResponse) (l : Loop) (w : World)
          → All IsQuiet tools
          → ((l : Loop) (w : World) → asked (more l w).1 ≤ asked w + n)
          → asked (respond env more i prior_len tools resp l w).1 ≤ asked w + n
      unfolding respond called
      respond-asks more n i tools (err e) l w q keep = omega arith
      respond-asks more n i tools (ok (final text usage)) l w q keep = omega arith
      respond-asks more n i tools (ok (tool_calls none [] usage)) l w q keep = keep _ _
      respond-asks more n i tools (ok (tool_calls (some []) [] usage)) l w q keep = keep _ _
      respond-asks more n i tools (ok (tool_calls (some (c ∷ s)) [] usage)) l w q keep = omega arith
      respond-asks more n i tools (ok (tool_calls text (call ∷ calls) usage)) l w q keep =
          let said = push (assistant_calls text (call ∷ calls)) (add_usage usage l) in
          let r = run_calls env tools (call ∷ calls) said w in
          let k = run_calls-quiet tools (call ∷ calls) said w q in
          let m = keep r.0 r.1 in omega (arith, k, m)

      rounds-asks :
          (setup : Setup World) (left i : ℕ) (l : Loop) (w : World)
          → All IsQuiet setup.tools
          → asked (rounds env setup max prior_len left i l w).1 ≤ asked w + (left + 1)
      unfolding rounds last_turn
      rounds-asks setup zero i l w q =
          complete_once setup.system_prompt (push step_limit l).history [] w
      rounds-asks setup (suc left) i l w q = elim (Bool-cases (env.cancelled w)) [
        | inl e ↦ rw e (omega arith)
        | inr e ↦
            let specs = map (λ (t : Tool World). t.spec) setup.tools in
            let (resp, w') = env.complete setup.system_prompt l.history specs w in
            let k =
              respond-asks (λ l' w''. rounds env setup max prior_len left (i + 1) l' w'') (left + 1)
                i setup.tools resp l w' q (λ l' w''. rounds-asks setup left (i + 1) l' w'' q) in
            let c = complete_once setup.system_prompt l.history specs w in
            rw e (omega (arith, k, c))
      ]

    -- A call asks the provider at most `max + 1` times, whatever it returns, where `asked` counts
    -- the calls of the provider: `complete` adds at most one to it, and neither the preparation
    -- nor a prepared tool adds to it.
    pub run_with_cfg-asks :
        (complete_once : (s : Text) (ms : List Message) (ts : List ToolSpec) (w : World)
          → asked (env.complete s ms ts w).1 ≤ asked w + 1)
        (prepare_quiet : (mode : AgentMode) (w : World) → asked (env.prepare mode w).1 ≤ asked w)
        (tools_quiet : (mode : AgentMode) (w : World) (setup : Setup World)
          → (env.prepare mode w).0 ≡ ok setup
          → All IsQuiet setup.tools)
        (max : ℕ) (question : Text) (prior : List Message) (mode : AgentMode) (w : World)
        → asked (run_with_cfg env max question prior mode w).1 ≤ asked w + (max + 1)
    unfolding run_with_cfg prepared
    run_with_cfg-asks complete_once prepare_quiet tools_quiet max question prior mode w =
        elim (Result-cases (env.prepare mode w).0) [
          | inl (s, e) ↦
              let q = prepare_quiet mode w in
              let k =
                rounds-asks complete_once max (length prior) s max 0 (seed env question prior)
                  (env.prepare mode w).1 (tools_quiet mode w s e) in
              rw e (omega (arith, q, k))
          | inr (x, e) ↦ rw e (let q = prepare_quiet mode w in omega (arith, q))
        ]
