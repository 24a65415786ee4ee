-- ===== src/Jobs/Drain.antt =====
-- `drain` of src/jobs/mod.rs and `run_pending_jobs` of src/api/jobs.rs, over an interface of the
-- three functions that they call, and the instance of it that src/jobs/mod.rs is.
pub mod Once
use pg_ask.Prelude.{
  ℕ, zero, suc, ◌+◌, ◌%◌, ◌^◌, ◌==◌, Bool, true, false, Option, none, some, List, [], ◌∷◌, any,
  if◌then◌else◌,
}
use pg_ask.Errors.{Result, ok, err}
use pg_ask.Agent.Run.{Exit, returned, interrupted}
use pg_ask.Config.Load.{RuntimeConfig}
use pg_ask.Jobs.Queue.{
  ClaimedJob, Conn, Backend, claim_one, execute_claimed, release_job, recover_orphans,
}

pub record Runner (S : Type 0) : Type 0 where
  pub claim_one : S → Exit (Option ClaimedJob) × S
  pub execute_claimed : ClaimedJob → S → Exit (Unit {0}) × S
  pub release : ℕ → S → Exit Bool × S

-- The functions of src/jobs/mod.rs.
abbrev pub jobs_runner : {World : Type 0} → Backend World → RuntimeConfig → Runner (Conn World)
jobs_runner db cfg = record {
  claim_one = claim_one db;
  execute_claimed = execute_claimed db cfg;
  release = release_job db;
}

-- `HashSet::contains`
abbrev pub has_id : ℕ → List ℕ → Bool
has_id id ids = any (λ i. i == id) ids

-- `processed += 1` of a `u32`
abbrev pub next_count : ℕ → ℕ
next_count n = (n + 1) % 2 ^ 32

module _ {S : Type 0} (runner : Runner S) where
  abbrev pub Rest : Type 0
  Rest = List ℕ → ℕ → S → Exit ℕ × S

  pub after_release : ℕ → Exit Bool × S → Exit ℕ × S
  after_release processed (returned (ok b), s) = (returned (ok processed), s)
  after_release processed (returned (err e), s) = (returned (err e), s)
  after_release processed (interrupted, s) = (interrupted, s)

  pub after_execute : Rest → List ℕ → ℕ → Exit (Unit {0}) × S → Exit ℕ × S
  after_execute rest attempted processed (returned (ok u), s) =
      rest attempted (next_count processed) s
  after_execute rest attempted processed (returned (err e), s) = (returned (err e), s)
  after_execute rest attempted processed (interrupted, s) = (interrupted, s)

  pub after_claim : Rest → List ℕ → ℕ → Exit (Option ClaimedJob) × S → Exit ℕ × S
  after_claim rest attempted processed (returned (ok none), s) = (returned (ok processed), s)
  after_claim rest attempted processed (returned (ok (some job)), s) =
      if has_id job.id attempted
      then after_release processed (runner.release job.id s)
      else after_execute rest (job.id ∷ attempted) processed (runner.execute_claimed job s)
  after_claim rest attempted processed (returned (err e), s) = (returned (err e), s)
  after_claim rest attempted processed (interrupted, s) = (interrupted, s)

  -- `for _ in 0..max`, by the rounds left
  pub drain_rounds : ℕ → Rest
  drain_rounds zero attempted processed s = (returned (ok processed), s)
  drain_rounds (suc left) attempted processed s =
      after_claim (λ a p s'. drain_rounds left a p s') attempted processed (runner.claim_one s)

  unfoldable pub drain : ℕ → S → Exit ℕ × S
  unfolding any after_release after_execute after_claim drain_rounds
  drain max s = drain_rounds max [] 0 s
