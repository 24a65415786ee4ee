-- ===== src/Jobs/Queue/Recorded.antt =====
-- What `execute_claimed` of src/jobs/mod.rs leaves behind.
use pg_ask.Prelude.{
  ℕ, ◌&&◌, Bool, false, none, some, List, [], ◌∷◌, ◌≡◌, refl, subst, ◌⊎◌, inl, inr, All, Bool-cases,
  Option-cases, arith, ◌==◌, leb,
}
use pg_ask.Errors.{Result, ok, err, display}
use pg_ask.Agent.Run.{AgentOutcome, Exit, returned, interrupted, run_with_cfg}
use pg_ask.Config.Load.{RuntimeConfig}
use pg_ask.Telemetry.Trace.{TraceRecord, start_trace}
use pg_ask.Jobs.Table.{
  Job, Session, update, own_claim, pid_is, is_running, cur_attempts, job_complete, job_fail,
  completed, give_up, retry,
}
use pg_ask.Jobs.Table.Ids.{Distinct, update_own}
use pg_ask.Jobs.Queue.{
  ClaimedJob, Statement, complete, fail, set_role, reset_role, works, Conn, Backend, trace_kind,
  run_spi, and_then, set_local_role, reset_role_quietly, complete_job, fail_job, write,
  trace_of_outcome, record_run, after_run, run_job, execute_claimed,
}

-- No row is the claim of the process on the job.
abbrev pub NoClaim : ℕ → ℕ → List Job → Type 0
NoClaim pid id =
    All (λ (k : Job). k.id == id && is_running k.status && pid_is pid k.worker_pid ≡ false)

update_clears :
    (p : Job → Bool) (set : Job → Job)
    → ((j : Job) → p (set j) ≡ false)
    → (js : List Job) → All (λ k. p k ≡ false) (update p set js)
unfolding update
update_clears p set clear [] = tt
update_clears p set clear (j ∷ js) = elim (Bool-cases (p j)) [
  | inl e ↦ rw e (clear j, update_clears p set clear js)
  | inr e ↦ rw e (e, update_clears p set clear js)
]

not_running : (a b : Bool) → a && false && b ≡ false
not_running a b = ground arith

complete_clears :
    (s : Session) (id : ℕ) (answer : _) (prompt completion : ℕ) (js : List Job)
    → NoClaim s.pid id (job_complete s id answer prompt completion js).1
unfolding job_complete
complete_clears s id answer prompt completion js =
    update_clears (own_claim s id) (completed s answer prompt completion)
      (λ j. not_running (j.id == id) (pid_is s.pid j.worker_pid)) js

none_own :
    (s : Session) (id : ℕ) (js : List Job) → cur_attempts s id js ≡ none → NoClaim s.pid id js
unfolding cur_attempts
none_own s id [] h = tt
none_own s id (j ∷ js) h = elim (Bool-cases (own_claim s id j)) [
  | inl e ↦ absurd (cc (rw e at h))
  | inr e ↦ (e, none_own s id js (rw e at h))
]

fail_clears :
    (s : Session) (id : ℕ) (error : _) (max : ℕ) (js : List Job)
    → Distinct js
    → NoClaim s.pid id (job_fail s id error max js).1
unfolding job_fail
fail_clears s id error max js d = elim (Option-cases (cur_attempts s id js)) [
  | inr e ↦ rw e (none_own s id js e)
  | inl (n, e) ↦ elim (Bool-cases (leb max n)) [
    | inl g ↦
        rw (e, g, update_own s id (give_up s error) js d e)
          (update_clears (own_claim s id) (give_up s error)
            (λ j. not_running (j.id == id) (pid_is s.pid j.worker_pid)) js)
    | inr g ↦
        rw (e, g, update_own s id (retry error) js d e)
          (update_clears (own_claim s id) (retry error) (λ j. not_running (j.id == id) false) js)
  ]
]

-- The call has returned, the role is the worker's again, and the claim is settled.
pub record Settled {World : Type 0} (pid : ℕ) (job : ClaimedJob) (r : Exit (Unit {0}) × Conn World)
    : Type 0 where
  pub returns : r.0 ≡ returned (ok tt)
  pub role : r.1.role ≡ none
  pub claim_settled : NoClaim pid job.id r.1.jobs

-- The agent's run of a claimed job: with the settings' budget, no history, and the role of the
-- job's owner.
abbrev pub agent_run :
    {World : Type 0}
    → Backend World
    → RuntimeConfig
    → ClaimedJob
    → Conn World
    → Exit AgentOutcome × Conn World
agent_run db cfg job c =
    run_with_cfg db.agent cfg.max_iterations job.question [] job.kind
      (record c { role = some job.owner })

module _ {World : Type 0} (db : Backend World) (pid : ℕ)
    (every_statement_works : (st : Statement) (c : Conn World) → db.spi st c ≡ works)
    (one_process : (c : Conn World) → (db.session c).pid ≡ pid) where
  sent :
      {T : Type 0} (st : Statement) (body : Conn World → T × Conn World) (c : Conn World)
      → run_spi db st body c ≡ (returned (ok (body c).0), (body c).1)
  unfolding run_spi
  sent st body c = rw (every_statement_works st c, run_spi)

  of_pid :
      (id : ℕ) (c : Conn World) (js : List Job)
      → NoClaim (db.session c).pid id js
      → NoClaim pid id js
  of_pid id c js clear = subst (λ p. NoClaim p id js) (one_process c) clear

  record_settles :
      (job : ClaimedJob) (rec : TraceRecord) (run : Result AgentOutcome) (c : Conn World)
      → c.role ≡ none
      → Distinct c.jobs
      → Settled pid job (record_run db job rec run c)
  unfolding record_run complete_job fail_job and_then write
  record_settles job rec (ok o) c role d =
      let c1 = write db (trace_of_outcome o rec) c in
      rw (sent complete _ c1) (record {
        returns = refl;
        role = role;
        claim_settled = of_pid job.id c1 _ (
            complete_clears (db.session c1) job.id o.text o.prompt_tokens o.completion_tokens
              c1.jobs);
      })
  record_settles job rec (err e) c role d =
      let c1 = write db (record rec { error = some (display e) }) c in
      rw (sent fail _ c1) (record {
        returns = refl;
        role = role;
        claim_settled =
            of_pid job.id c1 _
              (fail_clears (db.session c1) job.id (display e) db.jobs_max_attempts c1.jobs d);
      })

  reset_works :
      (c : Conn World) → reset_role_quietly db c ≡ (returned (ok tt), record c { role = none })
  unfolding reset_role_quietly
  reset_works c = rw (every_statement_works reset_role c, reset_role_quietly)

  after_settles :
      (job : ClaimedJob) (rec : TraceRecord) (r : Exit AgentOutcome × Conn World)
      → Distinct r.1.jobs
      → (r.0 ≡ interrupted) ⊎ Settled pid job (after_run db job rec r)
  unfolding after_run and_then
  after_settles job rec (interrupted, c) d = inl refl
  after_settles job rec (returned run, c) d =
      inr (rw (reset_works c) (record_settles job rec run (record c { role = none }) refl d))

  -- Where every statement works, the backend is one process and the agent's run leaves a table of
  -- distinct ids: the agent is run under the role of the job's owner, and where that run is not
  -- interrupted, `execute_claimed` returns without an error, whether the agent has answered or
  -- failed; the role is the worker's again, and the job is no more a running claim of the process.
  pub execute_claimed-Settled :
      (cfg : RuntimeConfig) (job : ClaimedJob) (c : Conn World)
      → Distinct (agent_run db cfg job c).1.jobs
      → ((agent_run db cfg job c).0 ≡ interrupted) ⊎ Settled pid job (execute_claimed db cfg job c)
  unfolding execute_claimed set_local_role and_then run_job
  execute_claimed-Settled cfg job c d = rw (sent set_role _ c) (
      after_settles job
        (start_trace (trace_kind job.kind) cfg job.question
          (db.agent.now_ms (record c { role = some job.owner })))
        (agent_run db cfg job c) d)
