-- ===== src/Jobs/Table.antt =====
-- The table ask._jobs of sql/bootstrap.sql and its functions. A transaction sees the table that the
-- transactions before it left, and gives the table that it leaves. Times are in microseconds.
pub mod Calls
pub mod Ids
pub mod Shape
pub mod Lifecycle
pub mod Fifo
pub mod Retries
pub mod Prune
pub mod Tests
use pg_ask.Prelude.{
  ℕ, zero, suc, ◌+◌, ◌*◌, Bool, true, false, not, ◌&&◌, ◌||◌, Option, none, some, List, [], ◌∷◌,
  ◌++◌, map, ◌==◌, ltb, leb, if◌then◌else◌, any, length, Text, codes, eq,
}

pub data Status : Type 0 where
  pending running done failed cancelled : Status

pub record Job : Type 0 where
  pub id : ℕ
  pub ts : ℕ
  pub owner : Text
  pub db : Text
  pub kind : Text
  pub question : Text
  pub status : Status
  pub attempts : ℕ
  pub started_at : Option ℕ
  pub finished_at : Option ℕ
  pub answer : Option Text
  pub error : Option Text
  pub prompt_tokens : Option ℕ
  pub completion_tokens : Option ℕ
  pub worker_pid : Option ℕ

-- What a transaction reads of its backend: `now()`, `pg_backend_pid()`, `current_database()` and
-- `session_user`.
pub record Session : Type 0 where
  pub now : ℕ
  pub pid : ℕ
  pub current_database : Text
  pub session_user : Text

abbrev pub is_pending : Status → Bool
is_pending pending = true
is_pending _ = false

abbrev pub is_running : Status → Bool
is_running running = true
is_running _ = false

-- `status IN ('pending','running')`
abbrev pub is_open : Status → Bool
is_open pending = true
is_open running = true
is_open _ = false

-- `status IN ('done','failed','cancelled')`
abbrev pub is_terminal : Status → Bool
is_terminal s = not (is_open s)

abbrev pub pid_is : ℕ → Option ℕ → Bool
pid_is pid none = false
pid_is pid (some p) = p == pid

-- A comparison with NULL is not true.
abbrev pub earlier_than : ℕ → ℕ → Option ℕ → Bool
earlier_than now age none = false
earlier_than now age (some t) = ltb (t + age) now

-- `UPDATE ask._jobs SET … WHERE p`
unfoldable pub update : (Job → Bool) → (Job → Job) → List Job → List Job
update p set [] = []
update p set (j ∷ js) = (if p j then set j else j) ∷ update p set js

-- `DELETE FROM ask._jobs WHERE p`
unfoldable pub delete : (Job → Bool) → List Job → List Job
delete p [] = []
delete p (j ∷ js) = if p j then delete p js else j ∷ delete p js

-- How many rows a statement with the condition `p` meets.
unfoldable pub row_count : (Job → Bool) → List Job → ℕ
row_count p [] = 0
row_count p (j ∷ js) = if p j then suc (row_count p js) else row_count p js

-- `ORDER BY j.ts, j.id`
abbrev pub before : Job → Job → Bool
before a b = ltb a.ts b.ts || (a.ts == b.ts && ltb a.id b.id)

abbrev pub older : Job → Option Job → Job
older j none = j
older j (some k) = if before k j then k else j

-- `… WHERE p ORDER BY j.ts, j.id LIMIT 1`
unfoldable pub oldest : (Job → Bool) → List Job → Option Job
oldest p [] = none
oldest p (j ∷ js) = if p j then some (older j (oldest p js)) else oldest p js

-- `ask._job_submit`, where it is enabled and its checks have passed; `id` is the generated one.
-- The other outcomes are a NULL, two exceptions and a violation of the primary key.
pub data Submitted : Type 0 where
  disabled bad_kind empty_question duplicate_id : Submitted
  submitted : ℕ → Submitted

abbrev trim_left : Text → Text
trim_left [] = []
trim_left (c ∷ s) = if c == 32 then trim_left s else c ∷ s

abbrev trim_right : Text → Text
trim_right [] = []
trim_right (c ∷ s) =
    let rest = trim_right s in elim rest [ [] ↦ if c == 32 then [] else c ∷ [] | d ∷ t ↦ c ∷ d ∷ t ]

-- `btrim(question)` takes off blanks.
unfoldable pub btrim : Text → Text
btrim s = trim_right (trim_left s)

abbrev pub new_job : Session → ℕ → Text → Text → Job
new_job s id kind question = record {
  id = id;
  ts = s.now;
  owner = s.session_user;
  db = s.current_database;
  kind = kind;
  question = question;
  status = pending;
  attempts = 0;
  started_at = none;
  finished_at = none;
  answer = none;
  error = none;
  prompt_tokens = none;
  completion_tokens = none;
  worker_pid = none;
}

unfoldable pub job_submit : Session → Bool → ℕ → Text → Text → List Job → Submitted × List Job
unfolding btrim eq any
job_submit s enabled id kind question jobs =
    if not enabled
    then (disabled, jobs)
    else if not (eq kind (codes "ask") || eq kind (codes "sql"))
    then (bad_kind, jobs)
    else if eq (btrim question) []
    then (empty_question, jobs)
    else if any (λ j. j.id == id) jobs
    then (duplicate_id, jobs)
    else (submitted id, jobs ++ new_job s id kind (btrim question) ∷ [])

-- Rows that another transaction has locked are skipped.
abbrev pub claimable : Session → (ℕ → Bool) → Job → Bool
claimable s locked j = is_pending j.status && eq j.db s.current_database && not (locked j.id)

abbrev pub claimed : Session → Job → Job
claimed s j = record j {
  status = running;
  started_at = some s.now;
  finished_at = none;
  worker_pid = some s.pid;
  attempts = j.attempts + 1;
}

abbrev pub claim_row : Session → Option Job → List Job → Option Job × List Job
claim_row s none jobs = (none, jobs)
claim_row s (some next) jobs =
    (some (claimed s next), update (λ j. j.id == next.id) (claimed s) jobs)

unfoldable pub job_claim : Session → (ℕ → Bool) → List Job → Option Job × List Job
unfolding oldest update eq
job_claim s locked jobs = claim_row s (oldest (claimable s locked) jobs) jobs

-- `id = job_id AND status = 'running' AND worker_pid = pg_backend_pid()`
abbrev pub own_claim : Session → ℕ → Job → Bool
own_claim s id j = j.id == id && is_running j.status && pid_is s.pid j.worker_pid

abbrev pub completed : Session → Text → ℕ → ℕ → Job → Job
completed s answer prompt completion j = record j {
  status = done;
  answer = some answer;
  error = none;
  prompt_tokens = some prompt;
  completion_tokens = some completion;
  finished_at = some s.now;
}

unfoldable pub job_complete : Session → ℕ → Text → ℕ → ℕ → List Job → Bool × List Job
unfolding update any
job_complete s id answer prompt completion jobs =
    (any (own_claim s id) jobs, update (own_claim s id) (completed s answer prompt completion) jobs)

-- `SELECT attempts INTO cur_attempts …`, NULL without a row
unfoldable pub cur_attempts : Session → ℕ → List Job → Option ℕ
cur_attempts s id [] = none
cur_attempts s id (j ∷ js) = if own_claim s id j then some j.attempts else cur_attempts s id js

abbrev pub give_up : Session → Text → Job → Job
give_up s error j = record j { status = failed; error = some error; finished_at = some s.now }

abbrev pub requeue : Job → Job
requeue j = record j { status = pending; started_at = none; worker_pid = none }

abbrev pub retry : Text → Job → Job
retry error j = record (requeue j) { error = some error }

abbrev pub fail_row : Session → ℕ → Text → ℕ → Option ℕ → List Job → Option Status × List Job
fail_row s id error max_attempts none jobs = (none, jobs)
fail_row s id error max_attempts (some attempts) jobs =
    if leb max_attempts attempts
    then (some failed, update (λ j. j.id == id) (give_up s error) jobs)
    else (some pending, update (λ j. j.id == id) (retry error) jobs)

unfoldable pub job_fail : Session → ℕ → Text → ℕ → List Job → Option Status × List Job
unfolding cur_attempts update
job_fail s id error max_attempts jobs =
    fail_row s id error max_attempts (cur_attempts s id jobs) jobs

abbrev pub is_orphan : Session → ℕ → Job → Bool
is_orphan s timeout_ms j =
    is_running j.status
    && eq j.db s.current_database
    && earlier_than s.now (timeout_ms * 1000) j.started_at

unfoldable pub job_recover_orphans : Session → ℕ → List Job → ℕ × List Job
unfolding row_count update eq
job_recover_orphans s timeout_ms jobs =
    (row_count (is_orphan s timeout_ms) jobs, update (is_orphan s timeout_ms) requeue jobs)

abbrev pub cancellable : Session → ℕ → Job → Bool
cancellable s id j = j.id == id && eq j.owner s.session_user && is_open j.status

abbrev pub withdrawn : Session → Job → Job
withdrawn s j = record j { status = cancelled; finished_at = some s.now }

unfoldable pub job_cancel : Session → ℕ → List Job → Bool × List Job
unfolding any update eq
job_cancel s id jobs = (any (cancellable s id) jobs, update (cancellable s id) (withdrawn s) jobs)

unfoldable pub job_release : Session → ℕ → List Job → Bool × List Job
unfolding any update
job_release s id jobs = (any (own_claim s id) jobs, update (own_claim s id) requeue jobs)

abbrev pub prunable : Session → ℕ → Job → Bool
prunable s older_than j = is_terminal j.status && earlier_than s.now older_than j.finished_at
