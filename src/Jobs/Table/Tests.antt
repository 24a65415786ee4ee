-- ===== src/Jobs/Table/Tests.antt =====
-- Runs of the functions of ask._jobs.
use pg_ask.Prelude.{true, some, [], ◌∷◌, ◌≡◌, refl, arith, codes, All}
use pg_ask.Jobs.Table.{
  Job, Session, done, new_job, claimed, job_claim, job_submit, prunable, row_count, delete,
}
use pg_ask.Jobs.Table.Calls.{submit, claim, complete, perform, start, call}
use pg_ask.Jobs.Table.Ids.{Distinct}
use pg_ask.Jobs.Table.Shape.{IsWellFormed, Reach-IsWellFormed}
use pg_ask.Jobs.Table.Lifecycle.{Evolves}
use pg_ask.Jobs.Table.Lifecycle.Refines.{perform-Evolves}
use pg_ask.Jobs.Table.Prune.{jobs_prune, jobs_prune_lem}
use pg_ask.Jobs.Table.Retries.{Waits, Ended, free, around, failing_runs, failing_runs-Ended}

abbrev session : Session
session = record {
  now = 1000;
  pid = 7;
  current_database = codes "shop";
  session_user = codes "ann";
}

abbrev job : Job
job = new_job session 1 (codes "ask") (codes "How many?")

abbrev second_job : Job
second_job = record job { id = 2; ts = 900 }

-- A job that has ended long ago.
abbrev old_job : Job
old_job = record job { id = 3; status = done; finished_at = some 10; answer = some (codes "7") }

claim_test : (job_claim session free (job ∷ second_job ∷ [])).0 ≡ some (claimed session second_job)
unfolding job_claim
claim_test = refl

submit_test :
    (job_submit session true 1 (codes "sql") (codes "  q ") []).1
    ≡ new_job session 1 (codes "sql") (codes "q") ∷ []
unfolding job_submit
submit_test = refl

Reach-IsWellFormed_example :
    Distinct
      (perform session (claim free) (perform session (submit true 1 (codes "ask") (codes "q")) []))
    × All IsWellFormed (
        perform session (claim free) (perform session (submit true 1 (codes "ask") (codes "q")) []))
Reach-IsWellFormed_example =
    Reach-IsWellFormed
      (call session (claim free) (call session (submit true 1 (codes "ask") (codes "q")) start))

perform-Evolves_example :
    Evolves session
      (complete 1 (codes "7") 10 2)
      (claimed session job ∷ old_job ∷ [])
      (perform session (complete 1 (codes "7") 10 2) (claimed session job ∷ old_job ∷ []))
perform-Evolves_example =
    perform-Evolves session (complete 1 (codes "7") 10 2) (claimed session job ∷ old_job ∷ [])
      (((λ e. absurd (omega arith)), tt), (tt, tt))

jobs_prune_lem_example :
    jobs_prune session 100 (some 1) (old_job ∷ job ∷ [])
    ≡ some (
      row_count (prunable session 100) (old_job ∷ job ∷ []),
      delete (prunable session 100) (old_job ∷ job ∷ []),
    )
jobs_prune_lem_example = jobs_prune_lem session 100 (some 1) (old_job ∷ job ∷ [])

prune_test : jobs_prune session 100 (some 1) (old_job ∷ job ∷ []) ≡ some (1, job ∷ [])
unfolding jobs_prune
prune_test = refl

waiting : Waits session (old_job ∷ []) [] job
waiting = record {
  status = refl;
  here = refl;
  front_others = (record { id_differs = refl; not_pending = refl }, tt);
  back_others = tt;
}

failing_runs-Ended_example :
    (k : Job) × Ended 3 (codes "timeout") job k
    × (failing_runs 3 session 1 (codes "timeout") 3 (around (old_job ∷ []) job [])
        ≡ around (old_job ∷ []) k [])
failing_runs-Ended_example =
    failing_runs-Ended 2 session (old_job ∷ []) [] job (codes "timeout") 3 waiting (omega arith)
