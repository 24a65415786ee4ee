-- ===== src/Agent/Stream/Answers.antt =====
-- The streaming loop against `run_with_cfg`, which starts from no history.
use pg_ask.Prelude.{
  ℕ, zero, suc, ◌+◌, false, Option, none, some, List, [], ◌∷◌, ◌++◌, map, ◌≡◌, refl, sym, ap, ◌∙◌,
  subst, inl, inr, All, Bool-cases, Text, codes, is_empty, starts_with,
}
use pg_ask.Errors.{AskError, Result, ok, err, Result-cases}
use pg_ask.Providers.{ToolCall, Message, ToolSpec, TokenUsage, ProviderResponse, final, tool_calls}
use pg_ask.Agent.Dispatch.{Tool, dispatch}
use pg_ask.Agent.Run.{
  AgentMode, AgentOutcome, Exit, returned, interrupted, Setup, Env, Loop, answer, add_usage, push,
  assistant_calls, result_of, outcome, run_calls, last_turn, called, respond, rounds, seed,
  prepared, run_with_cfg,
}
use pg_ask.Agent.Stream.{
  Stream, say, answer_row, show_thinking, tool_row, shown_rows, stream_calls, stream_respond,
  stream_rounds, stream_prepared, run_stream_with_cfg,
}

-- A row that is not an answer.
abbrev pub NoAnswer : Text → Type 0
NoAnswer row = starts_with row (codes "[answer] ") ≡ false

module _ {World : Type 0} (env : Env World) where
  -- What the stream gives against what the run gives from the same world, and the world they leave:
  -- the answer of the run as the last row and as the only answer, the same failure, the same
  -- interruption, or, at the end of the rounds, rows without an answer, where the run goes on to
  -- ask once more.
  pub data Agrees (max : ℕ) : Exit (List Text) × World → Exit AgentOutcome × World → Type 0 where
    answered :
        (before : List Text) (o : AgentOutcome) (w : World)
        → All NoAnswer before
        → Agrees max (returned (ok (before ++ answer_row o.text ∷ [])), w) (returned (ok o), w)
    unanswered :
        (rows : List Text) (setup : Setup World) (l : Loop) (w : World)
        → All NoAnswer rows
        → is_empty rows ≡ false
        → Agrees max (returned (ok rows), w) (last_turn env setup max 0 l w)
    failed : (e : AskError) (w : World) → Agrees max (returned (err e), w) (returned (err e), w)
    stopped : (w : World) → Agrees max (interrupted, w) (interrupted, w)

NoAnswer-then :
    (rows : List Text) (row : Text)
    → All NoAnswer rows
    → NoAnswer row
    → All NoAnswer (rows ++ row ∷ [])
NoAnswer-then [] row h p = (p, tt)
NoAnswer-then (r ∷ rows) row h p = (h.0, NoAnswer-then rows row h.1 p)

shown_rows_last : (rows : List Text) (row : Text) → shown_rows (rows ++ row ∷ []) ≡ rows ++ row ∷ []
shown_rows_last [] row = refl
shown_rows_last (r ∷ rows) row = refl

show_thinking-NoAnswer :
    (text : Option Text) (s : Stream)
    → All NoAnswer s.rows
    → All NoAnswer (show_thinking text s).rows
unfolding starts_with
show_thinking-NoAnswer none s h = h
show_thinking-NoAnswer (some t) s h = NoAnswer-then s.rows _ h refl

history-show_thinking :
    (text : Option Text) (s : Stream) → (show_thinking text s).history ≡ s.history
history-show_thinking none s = refl
history-show_thinking (some t) s = refl

history-add_usage : (usage : Option TokenUsage) (l : Loop) → (add_usage usage l).history ≡ l.history
history-add_usage none l = refl
history-add_usage (some u) l = refl

shown_rows-NoAnswer : (rows : List Text) → All NoAnswer rows → All NoAnswer (shown_rows rows)
unfolding starts_with
shown_rows-NoAnswer [] h = (refl, tt)
shown_rows-NoAnswer (r ∷ rows) h = h

shown_rows_full : (rows : List Text) → is_empty (shown_rows rows) ≡ false
shown_rows_full [] = refl
shown_rows_full (r ∷ rows) = refl

module _ {World : Type 0} (env : Env World) where
  -- The stream's state beside the run's.
  pub record Same (s : Stream) (l : Loop) : Type 0 where
    pub history : s.history ≡ l.history
    pub no_answer : All NoAnswer s.rows

  said-Same :
      (text : Option Text) (calls : List ToolCall) (usage : Option TokenUsage) (s : Stream)
      (l : Loop)
      → Same s l
      → Same
          (say (assistant_calls text calls) (show_thinking (answer text) s))
          (push (assistant_calls text calls) (add_usage usage l))
  said-Same text calls usage s l same = record {
    history =
        ap (λ h. h ++ assistant_calls text calls ∷ [])
          (history-show_thinking (answer text) s ∙ same.history ∙ sym (history-add_usage usage l));
    no_answer = show_thinking-NoAnswer (answer text) s same.no_answer;
  }

  run_calls-Same :
      (tools : List (Tool World)) (calls : List ToolCall) (s : Stream) (l : Loop) (w : World)
      → Same s l
      → Same (stream_calls env tools calls s w).0 (run_calls env tools calls l w).0
        × ((stream_calls env tools calls s w).1 ≡ (run_calls env tools calls l w).1)
  unfolding stream_calls run_calls starts_with
  run_calls-Same tools [] s l w same = (same, refl)
  run_calls-Same tools (call ∷ calls) s l w same =
      let (output, w') = dispatch tools call.name call.arguments w in
      run_calls-Same tools calls _ _ w' (record {
        history = ap (λ h. h ++ result_of call output ∷ []) same.history;
        no_answer = NoAnswer-then s.rows (tool_row call.name output.text) same.no_answer refl;
      })

  module _ (max : ℕ) where
    abbrev Step : Type 0
    Step = Stream → World → Exit (List Text) × World

    abbrev Next : Type 0
    Next = Loop → World → Exit AgentOutcome × World

    respond-Agrees :
        (more : Step) (next : Next) (i : ℕ) (tools : List (Tool World))
        (resp : Result ProviderResponse) (s : Stream) (l : Loop) (w : World)
        → Same s l
        → ((text : Option Text) (calls : List ToolCall) (usage : Option TokenUsage)
            → resp ≡ ok (tool_calls text calls usage)
            → is_empty calls ≡ false)
        → ((s : Stream) (l : Loop) (w : World) → Same s l → Agrees env max (more s w) (next l w))
        → Agrees env max
            (stream_respond env more tools resp s w)
            (respond env next i 0 tools resp l w)
    unfolding stream_respond respond called outcome
    respond-Agrees more next i tools (err e) s l w same calls_some ih = failed e w
    respond-Agrees more next i tools (ok (final text usage)) s l w same calls_some ih =
        rw (shown_rows_last s.rows (answer_row text)) (answered s.rows _ w same.no_answer)
    respond-Agrees more next i tools (ok (tool_calls text [] usage)) s l w same calls_some ih =
        absurd (let k = calls_some text [] usage refl in cc)
    respond-Agrees more next i tools (ok (tool_calls text (call ∷ calls) usage)) s l w same
          some_calls ih =
        let said = say (assistant_calls text (call ∷ calls)) (show_thinking (answer text) s) in
        let asked = push (assistant_calls text (call ∷ calls)) (add_usage usage l) in
        let (same', left) =
          run_calls-Same tools (call ∷ calls) said asked w
            (said-Same text (call ∷ calls) usage s l same) in
        let streamed = stream_calls env tools (call ∷ calls) said w in
        let ran = run_calls env tools (call ∷ calls) asked w in
        subst (λ v. Agrees env max (more streamed.0 streamed.1) (next ran.0 v)) left
          (ih streamed.0 ran.0 streamed.1 same')

    module _
        (calls_some : (prompt : Text) (ms : List Message) (specs : List ToolSpec) (w : World)
            (text : Option Text) (calls : List ToolCall) (usage : Option TokenUsage)
          → (env.complete prompt ms specs w).0 ≡ ok (tool_calls text calls usage)
          → is_empty calls ≡ false) where
      rounds-Agrees :
          (setup : Setup World) (left i : ℕ) (s : Stream) (l : Loop) (w : World)
          → Same s l
          → Agrees env max (stream_rounds env setup left s w) (rounds env setup max 0 left i l w)
      unfolding stream_rounds rounds
      rounds-Agrees setup zero i s l w same =
          unanswered (shown_rows s.rows) setup l w (shown_rows-NoAnswer s.rows same.no_answer)
            (shown_rows_full s.rows)
      rounds-Agrees setup (suc left) i s l w same = elim (Bool-cases (env.cancelled w)) [
        | inl e ↦ rw e (stopped w)
        | inr e ↦
            let specs = map (λ (t : Tool World). t.spec) setup.tools in
            let (resp, w') = env.complete setup.system_prompt l.history specs w in
            let more : Step = λ s' w''. stream_rounds env setup left s' w'' in
            let next : Next = λ l' w''. rounds env setup max 0 left (i + 1) l' w'' in
            rw e (
              subst
                (λ h.
                  Agrees env max
                    (stream_respond env more setup.tools
                      (env.complete setup.system_prompt h specs w).0 s
                      (env.complete setup.system_prompt h specs w).1)
                    (respond env next i 0 setup.tools resp l w'))
                (sym same.history)
                (respond-Agrees more next i setup.tools resp s l w' same
                  (calls_some setup.system_prompt l.history specs w)
                  (λ s' l' w'' k. rounds-Agrees setup left (i + 1) s' l' w'' k)))
      ]

      -- Where every answer with tool calls has one, the streaming loop gives what `run_with_cfg`
      -- gives for the same question and no history: it answers where the other answers within its
      -- rounds, with the same text as its last row, fails and is interrupted where the other is, and
      -- leaves the same world. Where the rounds end without an answer its rows hold none, and only
      -- the other asks once more.
      pub run_stream_with_cfg-Agrees :
          (question : Text) (mode : AgentMode) (w : World)
          → Agrees env max
              (run_stream_with_cfg env max question mode w)
              (run_with_cfg env max question [] mode w)
      unfolding run_stream_with_cfg run_with_cfg stream_prepared prepared
      run_stream_with_cfg-Agrees question mode w =
          let (setup, w') = env.prepare mode w in
          elim (Result-cases setup) [
            | inl (s, e) ↦ rw e (
                rounds-Agrees s max 0 _ (seed env question []) w'
                  (record { history = refl; no_answer = tt }))
            | inr (x, e) ↦ rw e (failed x w')
          ]
