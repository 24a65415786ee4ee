-- ===== src/Jobs/Queue.antt =====
-- src/jobs/mod.rs but for `drain`: claiming a job, running it under its owner's role, and recording
-- the outcome. A statement may fail with an error value or raise out of the function.
pub mod Recorded
use pg_ask.Prelude.{
  ℕ, ◌^◌, ◌&&◌, ◌||◌, Bool, true, false, Option, none, some, List, [], ◌∷◌, ltb, if◌then◌else◌,
  Text, codes, eq,
}
use pg_ask.Errors.{AskError, sql, Result, ok, err, display}
use pg_ask.Agent.Run.{
  AgentMode, execute, generate_only, AgentOutcome, Exit, returned, interrupted, Env, run_with_cfg,
}
use pg_ask.Config.Load.{RuntimeConfig}
use pg_ask.Telemetry.Trace.{TraceKind, TraceRecord, start_trace, write_trace}
use pg_ask.Jobs.Table.{
  Status, Job, Session, job_claim, job_complete, job_fail, job_release, job_recover_orphans,
}

pub record ClaimedJob : Type 0 where
  pub id : ℕ
  pub kind : AgentMode
  pub question : Text
  pub owner : Text

pub data Statement : Type 0 where
  claim set_role reset_role write_trace_row complete fail release recover : Statement

pub data Spi : Type 0 where
  works raises : Spi
  refuses : AskError → Spi

-- The connection: the table, the role that `set_config` has set, the rows of ask._traces, and what
-- else the database, the network and the clock hold.
pub record Conn (World : Type 0) : Type 0 where
  pub jobs : List Job
  pub role : Option Text
  pub traces : List TraceRecord
  pub world : World

-- What the functions read of the backend and of the settings. A statement's fate is known from the
-- state in which it is sent.
pub record Backend (World : Type 0) : Type 0 where
  pub session : Conn World → Session
  pub locked : Conn World → ℕ → Bool
  pub spi : Statement → Conn World → Spi
  pub agent : Env (Conn World)
  pub jobs_max_attempts : ℕ
  pub jobs_orphan_timeout_ms : ℕ

-- `kind_txt.as_deref()`
abbrev pub mode_of_kind : Text → AgentMode
mode_of_kind kind = if eq kind (codes "sql") then generate_only else execute

-- The columns of a claimed row are not NULL.
abbrev pub claimed_job : Option Job → Option ClaimedJob
claimed_job none = none
claimed_job (some j) =
    some (record { id = j.id; kind = mode_of_kind j.kind; question = j.question; owner = j.owner })

abbrev pub trace_kind : AgentMode → TraceKind
trace_kind execute = TraceKind.ask
trace_kind generate_only = TraceKind.sql

-- `> 0` of an `i64`, on its bits
abbrev pub positive_i64 : ℕ → Bool
positive_i64 n = ltb 0 n && ltb n (2 ^ 63)

abbrev pub tokens : AgentOutcome → TraceRecord → TraceRecord
tokens o rec =
    if positive_i64 o.prompt_tokens || positive_i64 o.completion_tokens
    then record rec {
      prompt_tokens = some o.prompt_tokens;
      completion_tokens = some o.completion_tokens;
    }
    else rec

abbrev pub trace_of_outcome : AgentOutcome → TraceRecord → TraceRecord
trace_of_outcome o rec =
    tokens o (record rec {
      iterations = o.iterations;
      tool_trace = o.tool_trace;
      final_text = some o.text;
    })

abbrev pub is_works : Spi → Bool
is_works works = true
is_works _ = false

module _ {World : Type 0} (db : Backend World) where
  abbrev pub Action : Type 0 → Type 0
  Action T = Conn World → Exit T × Conn World

  -- A statement that works does its part on the connection.
  pub run_spi : {T : Type 0} → Statement → (Conn World → T × Conn World) → Action T
  run_spi st body c = elim (db.spi st c) [
    | works ↦ let (t, c') = body c in (returned (ok t), c')
    | raises ↦ (interrupted, c)
    | refuses e ↦ (returned (err e), c)
  ]

  -- The operator `?` behind a call.
  pub and_then : {T U : Type 0} → Exit T × Conn World → (T → Action U) → Exit U × Conn World
  and_then (returned (ok t), c) next = next t c
  and_then (returned (err e), c) next = (returned (err e), c)
  and_then (interrupted, c) next = (interrupted, c)

  -- A part that reads and writes the table alone.
  abbrev pub on_jobs :
      {T : Type 0} → (Session → List Job → T × List Job) → Conn World → T × Conn World
  on_jobs f c = let (t, jobs) = f (db.session c) c.jobs in (t, record c { jobs = jobs })

  unfoldable pub claim_one : Action (Option ClaimedJob)
  unfolding run_spi eq
  claim_one = run_spi claim λ c.
      let (row, jobs) = job_claim (db.session c) (db.locked c) c.jobs in
      (claimed_job row, record c { jobs = jobs })

  unfoldable pub set_local_role : Text → Action (Unit {0})
  unfolding run_spi
  set_local_role owner = run_spi set_role λ c. (tt, record c { role = some owner })

  -- `let _ = Spi::run("RESET role")`: an error value is dropped.
  unfoldable pub reset_role_quietly : Action (Unit {0})
  reset_role_quietly c = elim (db.spi reset_role c) [
    | works ↦ (returned (ok tt), record c { role = none })
    | raises ↦ (interrupted, c)
    | refuses e ↦ (returned (ok tt), c)
  ]

  -- `ask._job_complete` and `ask._job_fail`; what they give is not used by their caller.
  unfoldable pub complete_job : ℕ → Text → ℕ → ℕ → Action Bool
  unfolding run_spi
  complete_job id answer prompt completion =
      run_spi complete (on_jobs λ s jobs. job_complete s id answer prompt completion jobs)

  unfoldable pub fail_job : ℕ → Text → Action (Option Status)
  unfolding run_spi
  fail_job id error = run_spi fail (on_jobs λ s jobs. job_fail s id error db.jobs_max_attempts jobs)

  unfoldable pub release_job : ℕ → Action Bool
  unfolding run_spi
  release_job id = run_spi release (on_jobs λ s jobs. job_release s id jobs)

  unfoldable pub recover_orphans : Action ℕ
  unfolding run_spi
  recover_orphans =
      run_spi recover (on_jobs λ s jobs. job_recover_orphans s db.jobs_orphan_timeout_ms jobs)

  -- `telemetry::write`
  unfoldable pub write : TraceRecord → Conn World → Conn World
  unfolding write_trace
  write rec c = record c { traces = write_trace rec (is_works (db.spi write_trace_row c)) c.traces }

  -- The outcome of the agent's run, behind `reset_role`.
  pub record_run : ClaimedJob → TraceRecord → Result AgentOutcome → Action (Unit {0})
  record_run job rec (ok o) c =
      and_then
        (complete_job job.id o.text o.prompt_tokens o.completion_tokens
          (write (trace_of_outcome o rec) c))
        (λ _ c'. (returned (ok tt), c'))
  record_run job rec (err e) c =
      and_then (fail_job job.id (display e) (write (record rec { error = some (display e) }) c))
        (λ _ c'. (returned (ok tt), c'))

  -- Behind `run_with_cfg`, which may raise.
  pub after_run :
      ClaimedJob → TraceRecord → Exit AgentOutcome × Conn World → Exit (Unit {0}) × Conn World
  after_run job rec (interrupted, c) = (interrupted, c)
  after_run job rec (returned run, c) =
      and_then (reset_role_quietly c) (λ _. record_run job rec run)

  pub run_job : RuntimeConfig → ClaimedJob → Action (Unit {0})
  run_job cfg job c =
      after_run job (start_trace (trace_kind job.kind) cfg job.question (db.agent.now_ms c))
        (run_with_cfg db.agent cfg.max_iterations job.question [] job.kind c)

  unfoldable pub execute_claimed : RuntimeConfig → ClaimedJob → Action (Unit {0})
  unfolding and_then set_local_role reset_role_quietly complete_job fail_job write record_run
      after_run run_job start_trace display
  execute_claimed cfg job c = and_then (set_local_role job.owner c) (λ _. run_job cfg job)
