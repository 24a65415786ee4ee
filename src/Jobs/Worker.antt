-- ===== src/Jobs/Worker.antt =====
-- The drivers of the queue: `run_pending_jobs` of src/api/jobs.rs, and of src/bgworker.rs `drain_once`
-- and a round of the launcher. Every transaction of the worker commits, as each is left by a return.
pub mod Launcher
use pg_ask.Prelude.{
  ℕ, zero, suc, Bool, true, false, Option, none, some, List, [], ◌∷◌, not, if◌then◌else◌,
}
use pg_ask.Errors.{Result, ok, err}
use pg_ask.Agent.Run.{Exit, returned, interrupted}
use pg_ask.Config.Load.{ℤ, pos, negsuc, at_least, RuntimeConfig}
use pg_ask.Jobs.Queue.{ClaimedJob, Conn, Backend, recover_orphans, claim_one, execute_claimed}
use pg_ask.Jobs.Drain.{Runner, jobs_runner, drain}

-- `jobs_enabled`, `jobs_batch` and `jobs_poll_interval_ms`; `load` is `RuntimeConfig::load`.
pub record Settings (World : Type 0) : Type 0 where
  pub jobs_enabled : Bool
  pub jobs_batch : ℤ
  pub jobs_poll_interval_ms : ℤ
  pub load : Conn World → Result RuntimeConfig

abbrev pub poll_interval_ms : ℤ → ℕ
poll_interval_ms (pos zero) = 5000
poll_interval_ms (pos (suc n)) = suc n
poll_interval_ms (negsuc n) = 5000

module _ {World : Type 0} (db : Backend World) (gucs : Settings World) where
  pub loaded_drain : RuntimeConfig → Exit ℕ × Conn World → Exit ℕ × Conn World
  loaded_drain cfg (returned (ok recovered), c) =
      drain (jobs_runner db cfg) (at_least 1 gucs.jobs_batch) c
  loaded_drain cfg (returned (err e), c) = (returned (err e), c)
  loaded_drain cfg (interrupted, c) = (interrupted, c)

  -- The configuration is loaded before the orphans are recovered. An error value is raised.
  unfoldable pub run_pending_jobs : Conn World → Exit ℕ × Conn World
  unfolding loaded_drain recover_orphans
  run_pending_jobs c = if not gucs.jobs_enabled then (returned (ok 0), c) else elim (gucs.load c) [
    | ok cfg ↦ loaded_drain cfg (recover_orphans db c)
    | err e ↦ (returned (err e), c)
  ]

  module _ (sigterm_received : Conn World → Bool) where
    abbrev pub Pass : Type 0
    Pass = Conn World → Exit (Unit {0}) × Conn World

    pub after_executed : Pass → Exit (Unit {0}) × Conn World → Exit (Unit {0}) × Conn World
    after_executed more (returned (ok u), c) = more c
    after_executed more (returned (err e), c) = (returned (err e), c)
    after_executed more (interrupted, c) = (interrupted, c)

    pub after_claimed :
        RuntimeConfig → Pass → Exit (Option ClaimedJob) × Conn World → Exit (Unit {0}) × Conn World
    after_claimed cfg more (returned (ok none), c) = (returned (ok tt), c)
    after_claimed cfg more (returned (ok (some job)), c) =
        after_executed more (execute_claimed db cfg job c)
    after_claimed cfg more (returned (err e), c) = (returned (err e), c)
    after_claimed cfg more (interrupted, c) = (interrupted, c)

    -- `for _ in 0..max`: a claim and its run, each in a transaction of its own
    pub job_rounds : ℕ → RuntimeConfig → Pass
    job_rounds zero cfg c = (returned (ok tt), c)
    job_rounds (suc left) cfg c =
        if sigterm_received c
        then (returned (ok tt), c)
        else after_claimed cfg (λ c'. job_rounds left cfg c') (claim_one db c)

    pub preamble : Exit ℕ × Conn World → Exit (Unit {0}) × Conn World
    preamble (returned (ok recovered), c) = elim (gucs.load c) [
      | ok cfg ↦ job_rounds (at_least 1 gucs.jobs_batch) cfg c
      | err e ↦ (returned (err e), c)
    ]
    preamble (returned (err e), c) = (returned (err e), c)
    preamble (interrupted, c) = (interrupted, c)

    -- Here the orphans are recovered first.
    unfoldable pub drain_once : Pass
    unfolding preamble job_rounds after_claimed after_executed recover_orphans claim_one
        execute_claimed
    drain_once c =
        if gucs.jobs_enabled then preamble (recover_orphans db c) else (returned (ok tt), c)
