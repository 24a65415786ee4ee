-- ===== src/Jobs/Table/Calls.antt =====
-- Any sequence of calls of the functions of ask._jobs, by any backends, as a step relation.
use pg_ask.Prelude.{ℕ, Bool, List, [], Text}
use pg_ask.Jobs.Table.{
  Job, Session, job_submit, job_claim, job_complete, job_fail, job_recover_orphans, job_cancel,
  job_release, prunable, delete,
}

-- A pruning is the one that it comes to, by `jobs_prune_lem`.
pub data Call : Type 0 where
  submit : Bool → ℕ → Text → Text → Call
  claim : (ℕ → Bool) → Call
  complete : ℕ → Text → ℕ → ℕ → Call
  fail : ℕ → Text → ℕ → Call
  recover_orphans : ℕ → Call
  cancel : ℕ → Call
  release : ℕ → Call
  prune : ℕ → Call

unfoldable pub perform : Session → Call → List Job → List Job
unfolding job_submit job_claim job_complete job_fail job_recover_orphans job_cancel job_release
    delete
perform s (submit enabled id kind question) jobs = (job_submit s enabled id kind question jobs).1
perform s (claim locked) jobs = (job_claim s locked jobs).1
perform s (complete id answer prompt completion) jobs =
    (job_complete s id answer prompt completion jobs).1
perform s (fail id error max_attempts) jobs = (job_fail s id error max_attempts jobs).1
perform s (recover_orphans timeout_ms) jobs = (job_recover_orphans s timeout_ms jobs).1
perform s (cancel id) jobs = (job_cancel s id jobs).1
perform s (release id) jobs = (job_release s id jobs).1
perform s (prune older_than) jobs = delete (prunable s older_than) jobs

pub data Reach : List Job → Type 0 where
  start : Reach []
  call : {jobs : List Job} (s : Session) (c : Call) → Reach jobs → Reach (perform s c jobs)
