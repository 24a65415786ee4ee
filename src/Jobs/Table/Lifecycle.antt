-- ===== src/Jobs/Table/Lifecycle.antt =====
-- ask._jobs as an implementation of one small machine for each job.
pub mod Refines
use pg_ask.Prelude.{
  ℕ, suc, ◌+◌, ◌≤◌, ◌<◌, Bool, true, false, ◌&&◌, ◌||◌, Option, none, some, List, [], ◌∷◌, ◌++◌,
  ◌≡◌, refl, sym, ap, ◌∙◌, subst, ◌⊎◌, inl, inr, All, All_imp, Bool-cases, Option-cases,
  if◌then◌else◌, arith, ◌==◌, not, eq, any, leb, Text, codes,
}
use pg_ask.Jobs.Table.{
  Status, pending, running, done, failed, cancelled, Job, Session, update, delete, oldest,
  is_pending, is_running, is_open, is_terminal, own_claim, pid_is, cur_attempts, claimable, claimed,
  give_up, requeue, retry, completed, withdrawn, is_orphan, cancellable, prunable, job_submit,
  job_claim, job_complete, job_fail, job_recover_orphans, job_cancel, job_release, new_job, btrim,
  claim_row, fail_row,
}
use pg_ask.Jobs.Table.Ids.{Distinct, update_own}
use pg_ask.Jobs.Table.Fifo.{IsOldest, oldest-IsOldest, unique_row}
use pg_ask.Jobs.Table.Calls.{
  Call, submit, claim, complete, fail, recover_orphans, cancel, release, prune, perform,
}

-- A job waits, is held by a process or has come to an end; the number counts its attempts.
pub data Phase : Type 0 where
  queued : ℕ → Phase
  held : Option ℕ → ℕ → Phase
  ended : Status → Phase

abbrev pub phase_of : Status → Job → Phase
phase_of pending j = queued j.attempts
phase_of running j = held j.worker_pid j.attempts
phase_of done j = ended done
phase_of failed j = ended failed
phase_of cancelled j = ended cancelled

abbrev pub phase : Job → Phase
phase j = phase_of j.status j

-- What a call of a session may do to the job with the given id.
pub data Move (s : Session) (job : ℕ) : Call → Phase → Phase → Type 0 where
  stays : {c : Call} {p : Phase} → Move s job c p p
  claims :
      {locked : ℕ → Bool} (n : ℕ) → Move s job (claim locked) (queued n) (held (some s.pid) (n + 1))
  completes :
      {id prompt completion : ℕ} {answer : Text} (n : ℕ)
      → job ≡ id
      → Move s job (complete id answer prompt completion) (held (some s.pid) n) (ended done)
  gives_up :
      {id max n : ℕ} {error : Text}
      → job ≡ id
      → max ≤ n
      → Move s job (fail id error max) (held (some s.pid) n) (ended failed)
  retries :
      {id max n : ℕ} {error : Text}
      → job ≡ id
      → n < max
      → Move s job (fail id error max) (held (some s.pid) n) (queued n)
  expires :
      {timeout_ms : ℕ} (holder : Option ℕ) (n : ℕ)
      → Move s job (recover_orphans timeout_ms) (held holder n) (queued n)
  releases : {id : ℕ} (n : ℕ) → job ≡ id → Move s job (release id) (held (some s.pid) n) (queued n)
  withdraws : {id : ℕ} (n : ℕ) → job ≡ id → Move s job (cancel id) (queued n) (ended cancelled)
  stops :
      {id : ℕ} (holder : Option ℕ) (n : ℕ)
      → job ≡ id
      → Move s job (cancel id) (held holder n) (ended cancelled)

-- What no call changes.
pub record SameJob (j k : Job) : Type 0 where
  pub id : j.id ≡ k.id
  pub ts : j.ts ≡ k.ts
  pub owner : j.owner ≡ k.owner
  pub db : j.db ≡ k.db
  pub kind : j.kind ≡ k.kind
  pub question : j.question ≡ k.question

pub record Row (s : Session) (c : Call) (j k : Job) : Type 0 where
  pub same : SameJob j k
  pub moves : Move s j.id c (phase j) (phase k)

-- The rows that a call leaves: each row moves, pruning drops ended ones, and `submit` adds at the
-- end one that waits.
pub data Evolves (s : Session) (c : Call) : List Job → List Job → Type 0 where
  finish : Evolves s c [] []
  adds :
      {enabled : Bool} {id : ℕ} {kind question : Text} {j : Job}
      → c ≡ submit enabled id kind question
      → phase j ≡ queued 0
      → Evolves s c [] (j ∷ [])
  row :
      {j k : Job} {js ks : List Job}
      → Row s c j k
      → Evolves s c js ks
      → Evolves s c (j ∷ js) (k ∷ ks)
  drops :
      {older_than : ℕ} {j : Job} {js ks : List Job} (status : Status)
      → c ≡ prune older_than
      → phase j ≡ ended status
      → Evolves s c js ks
      → Evolves s c (j ∷ js) ks

abbrev pub same_job : (j : Job) → SameJob j j
same_job j = record { id = refl; ts = refl; owner = refl; db = refl; kind = refl; question = refl }

pub unmoved : (s : Session) (c : Call) (js : List Job) → Evolves s c js js
unmoved s c [] = finish
unmoved s c (j ∷ js) = row (record { same = same_job j; moves = stays }) (unmoved s c js)

-- A statement moves the rows that it meets, as far as a fact about each row says how.
pub update-Evolves {κ} :
    (s : Session) (c : Call) (Q : Job → Type κ) (p : Job → Bool) (set : Job → Job)
    → ((j : Job) → Q j → p j ≡ true → Row s c j (set j))
    → (js : List Job) → All Q js
    → Evolves s c js (update p set js)
unfolding update
update-Evolves s c Q p set moved [] q = finish
update-Evolves s c Q p set moved (j ∷ js) q = elim (Bool-cases (p j)) [
  | inl e ↦ rw e (row (moved j q.0 e) (update-Evolves s c Q p set moved js q.1))
  | inr e ↦
      rw e (
        row (record { same = same_job j; moves = stays }) (update-Evolves s c Q p set moved js q.1))
]

pub anything : (js : List Job) → All (λ (j : Job). Unit {0}) js
anything [] = tt
anything (j ∷ js) = (tt, anything js)

pub pending_phase :
    (st : Status) (j : Job) → is_pending st ≡ true → phase_of st j ≡ queued j.attempts
pending_phase pending j h = refl
pending_phase running j h = cc
pending_phase done j h = cc
pending_phase failed j h = cc
pending_phase cancelled j h = cc

pub running_phase :
    (st : Status) (j : Job) → is_running st ≡ true → phase_of st j ≡ held j.worker_pid j.attempts
running_phase pending j h = cc
running_phase running j h = refl
running_phase done j h = cc
running_phase failed j h = cc
running_phase cancelled j h = cc

pub terminal_phase : (st : Status) (j : Job) → is_terminal st ≡ true → phase_of st j ≡ ended st
terminal_phase pending j h = cc
terminal_phase running j h = cc
terminal_phase done j h = refl
terminal_phase failed j h = refl
terminal_phase cancelled j h = refl

pid_found : (pid : ℕ) (o : Option ℕ) → pid_is pid o ≡ true → o ≡ some pid
pid_found pid none h = cc
pid_found pid (some p) h = ground arith

pub own_parts :
    (s : Session) (id : ℕ) (j : Job)
    → own_claim s id j ≡ true
    → (j.id ≡ id) × (is_running j.status ≡ true) × (pid_is s.pid j.worker_pid ≡ true)
own_parts s id j h = (ground arith, ground arith, ground arith)

pub own_phase :
    (s : Session) (id : ℕ) (j : Job)
    → own_claim s id j ≡ true
    → phase j ≡ held (some s.pid) j.attempts
own_phase s id j h =
    let (i, r, w) = own_parts s id j h in
    running_phase j.status j r ∙ ap (λ o. held o j.attempts) (pid_found s.pid j.worker_pid w)

-- A move along the phase that a row is known to have.
pub from_phase :
    (s : Session) (job : ℕ) (c : Call) {p p' q : Phase}
    → p ≡ p'
    → Move s job c p' q
    → Move s job c p q
from_phase s job c {q = q} e m = subst (λ x. Move s job c x q) (sym e) m
