-- ===== src/Jobs/Table/Lifecycle/Refines.antt =====
-- Each function of ask._jobs keeps to the machine of its jobs.
use pg_ask.Prelude.{
  ℕ, Bool, true, false, ◌||◌, some, List, [], ◌∷◌, ◌++◌, ◌≡◌, refl, sym, ◌∙◌, subst, inl, inr, All,
  All_imp, Bool-cases, Option-cases, arith, ◌==◌, eq, any, leb, Text, codes,
}
use pg_ask.Jobs.Table.{
  Status, Job, Session, delete, oldest, is_pending, is_open, own_claim, cur_attempts, claimable,
  claimed, give_up, requeue, retry, completed, withdrawn, is_orphan, cancellable, prunable,
  job_submit, job_claim, job_complete, job_fail, job_recover_orphans, job_cancel, job_release,
  btrim, pending, running, done, failed, cancelled,
}
use pg_ask.Jobs.Table.Ids.{Distinct, update_own}
use pg_ask.Jobs.Table.Fifo.{oldest-IsOldest, unique_row}
use pg_ask.Jobs.Table.Calls.{
  Call, submit, claim, complete, fail, recover_orphans, cancel, release, prune, perform,
}
use pg_ask.Jobs.Table.Lifecycle.{
  queued, ended, phase_of, phase, Move, stays, claims, completes, gives_up, retries, expires,
  releases, withdraws, stops, same_job, Row, Evolves, finish, adds, row, drops, unmoved,
  update-Evolves, anything, pending_phase, running_phase, terminal_phase, own_parts, own_phase,
  from_phase,
}

appended :
    (s : Session) (enabled : Bool) (id : ℕ) (kind question : Text) (j : Job) (js : List Job)
    → phase j ≡ queued 0
    → Evolves s (submit enabled id kind question) js (js ++ j ∷ [])
appended s enabled id kind question j [] h = adds refl h
appended s enabled id kind question j (k ∷ js) h =
    row (record { same = same_job k; moves = stays }) (appended s enabled id kind question j js h)

submit-Evolves :
    (s : Session) (enabled : Bool) (id : ℕ) (kind question : Text) (js : List Job)
    → Evolves s (submit enabled id kind question) js (job_submit s enabled id kind question js).1
unfolding job_submit
submit-Evolves s false id kind question js = unmoved s _ js
submit-Evolves s true id kind question js =
    elim (Bool-cases (eq kind (codes "ask") || eq kind (codes "sql"))) [
      | inr e ↦ rw e (unmoved s _ js)
      | inl e ↦ elim (Bool-cases (eq (btrim question) [])) [
        | inl g ↦ rw (e, g) (unmoved s _ js)
        | inr g ↦ elim (Bool-cases (any (λ j. j.id == id) js)) [
          | inl k ↦ rw (e, g, k) (unmoved s _ js)
          | inr k ↦ rw (e, g, k) (appended s true id kind question _ js refl)
        ]
      ]
    ]

claimable_pending :
    (s : Session) (locked : ℕ → Bool) (j : Job)
    → claimable s locked j ≡ true
    → is_pending j.status ≡ true
claimable_pending s locked j h = ground arith

id_of_test : (a b : ℕ) → a == b ≡ true → a ≡ b
id_of_test a b h = ground arith

claimed-Row :
    (s : Session) (locked : ℕ → Bool) (j : Job)
    → is_pending j.status ≡ true
    → Row s (claim locked) j (claimed s j)
claimed-Row s locked j h = record {
  same = record { id = refl; ts = refl; owner = refl; db = refl; kind = refl; question = refl };
  moves = from_phase s j.id _ (pending_phase j.status j h) (claims j.attempts);
}

claim-Evolves :
    (s : Session) (locked : ℕ → Bool) (js : List Job)
    → Distinct js
    → Evolves s (claim locked) js (job_claim s locked js).1
unfolding job_claim
claim-Evolves s locked js d = elim (Option-cases (oldest (claimable s locked) js)) [
  | inr e ↦ rw e (unmoved s _ js)
  | inl (next, e) ↦
      let found = oldest-IsOldest _ js next e in
      rw e (
        update-Evolves s _ (λ k. k.id ≡ next.id → k ≡ next) _ _
          (λ k same met. claimed-Row s locked k (
            subst (λ (x : Job). is_pending x.status ≡ true)
              (sym (same (id_of_test k.id next.id met)))
              (claimable_pending s locked next found.meets)))
          js (unique_row next js d found.present))
]

found_attempts :
    (s : Session) (id : ℕ) (js : List Job) {n : ℕ}
    → Distinct js
    → cur_attempts s id js ≡ some n
    → All (λ j. own_claim s id j ≡ true → j.attempts ≡ n) js
unfolding cur_attempts
found_attempts s id [] d h = tt
found_attempts s id (j ∷ js) d h = elim (Bool-cases (own_claim s id j)) [
  | inl e ↦
      let q = rw e at h in
      (
        (λ _. cc q),
        All_imp js (λ k away o. absurd (away ((own_parts s id k o).0 ∙ sym (own_parts s id j e).0)))
            d.0,
      )
  | inr e ↦ ((λ o. absurd (cc)), found_attempts s id js d.1 (rw e at h))
]

give_up-Row :
    (s : Session) (id max n : ℕ) (error : Text) (j : Job)
    → leb max n ≡ true
    → j.attempts ≡ n
    → own_claim s id j ≡ true
    → Row s (fail id error max) j (give_up s error j)
give_up-Row s id max n error j g same o = record {
  same = record { id = refl; ts = refl; owner = refl; db = refl; kind = refl; question = refl };
  moves =
      from_phase s j.id (fail id error max) (own_phase s id j o)
        (gives_up (own_parts s id j o).0 (ground arith));
}

retry-Row :
    (s : Session) (id max n : ℕ) (error : Text) (j : Job)
    → leb max n ≡ false
    → j.attempts ≡ n
    → own_claim s id j ≡ true
    → Row s (fail id error max) j (retry error j)
retry-Row s id max n error j g same o = record {
  same = record { id = refl; ts = refl; owner = refl; db = refl; kind = refl; question = refl };
  moves =
      from_phase s j.id (fail id error max) (own_phase s id j o)
        (retries (own_parts s id j o).0 (ground arith));
}

fail-Evolves :
    (s : Session) (id : ℕ) (error : Text) (max : ℕ) (js : List Job)
    → Distinct js
    → Evolves s (fail id error max) js (job_fail s id error max js).1
unfolding job_fail
fail-Evolves s id error max js d = elim (Option-cases (cur_attempts s id js)) [
  | inr e ↦ rw e (unmoved s _ js)
  | inl (n, e) ↦
      let known = found_attempts s id js d e in
      elim (Bool-cases (leb max n)) [
        | inl g ↦
            rw (e, g, update_own s id (give_up s error) js d e)
              (update-Evolves s _ (λ j. own_claim s id j ≡ true → j.attempts ≡ n) (own_claim s id)
                (give_up s error) (λ j same o. give_up-Row s id max n error j g (same o) o) js
                known)
        | inr g ↦
            rw (e, g, update_own s id (retry error) js d e)
              (update-Evolves s _ (λ j. own_claim s id j ≡ true → j.attempts ≡ n) (own_claim s id)
                (retry error) (λ j same o. retry-Row s id max n error j g (same o) o) js known)
      ]
]

complete-Row :
    (s : Session) (id : ℕ) (answer : Text) (prompt completion : ℕ) (j : Job)
    → own_claim s id j ≡ true
    → Row s (complete id answer prompt completion) j (completed s answer prompt completion j)
complete-Row s id answer prompt completion j o = record {
  same = record { id = refl; ts = refl; owner = refl; db = refl; kind = refl; question = refl };
  moves =
      from_phase s j.id (complete id answer prompt completion) (own_phase s id j o)
        (completes j.attempts (own_parts s id j o).0);
}

release-Row :
    (s : Session) (id : ℕ) (j : Job) → own_claim s id j ≡ true → Row s (release id) j (requeue j)
release-Row s id j o = record {
  same = record { id = refl; ts = refl; owner = refl; db = refl; kind = refl; question = refl };
  moves =
      from_phase s j.id (release id) (own_phase s id j o)
        (releases j.attempts (own_parts s id j o).0);
}

orphan-Row :
    (s : Session) (timeout : ℕ) (j : Job)
    → is_orphan s timeout j ≡ true
    → Row s (recover_orphans timeout) j (requeue j)
orphan-Row s timeout j o = record {
  same = record { id = refl; ts = refl; owner = refl; db = refl; kind = refl; question = refl };
  moves =
      from_phase s j.id (recover_orphans timeout) (running_phase j.status j (ground arith))
        (expires j.worker_pid j.attempts);
}

open-Move :
    (s : Session) (id : ℕ) (st : Status) (j : Job)
    → is_open st ≡ true
    → j.id ≡ id
    → Move s j.id (cancel id) (phase_of st j) (ended cancelled)
open-Move s id pending j h i = withdraws j.attempts i
open-Move s id running j h i = stops j.worker_pid j.attempts i
open-Move s id done j h i = cc
open-Move s id failed j h i = cc
open-Move s id cancelled j h i = cc

cancel-Row :
    (s : Session) (id : ℕ) (j : Job)
    → cancellable s id j ≡ true
    → Row s (cancel id) j (withdrawn s j)
cancel-Row s id j o = record {
  same = record { id = refl; ts = refl; owner = refl; db = refl; kind = refl; question = refl };
  moves = open-Move s id j.status j (ground arith) (ground arith);
}

prune-Evolves :
    (s : Session) (older_than : ℕ) (js : List Job)
    → Evolves s (prune older_than) js (delete (prunable s older_than) js)
unfolding delete
prune-Evolves s older_than [] = finish
prune-Evolves s older_than (j ∷ js) = elim (Bool-cases (prunable s older_than j)) [
  | inl e ↦ rw e (
      drops j.status refl (terminal_phase j.status j (ground arith))
        (prune-Evolves s older_than js))
  | inr e ↦ rw e (row (record { same = same_job j; moves = stays }) (prune-Evolves s older_than js))
]

-- Each call, of any backend on any table of distinct ids, moves each job as the machine of its
-- phases allows, and keeps what names the job. A waiting job is claimed with one attempt more; only
-- the process that holds a job completes, fails or releases it; a failed run ends its job only when
-- the attempts have reached the limit, and queues it again only below; a job that has ended never
-- moves again; and only pruning drops rows, ended ones.
pub perform-Evolves :
    (s : Session) (c : Call) (js : List Job) → Distinct js → Evolves s c js (perform s c js)
unfolding perform job_complete job_recover_orphans job_cancel job_release
perform-Evolves s (submit enabled id kind question) js d =
    submit-Evolves s enabled id kind question js
perform-Evolves s (claim locked) js d = claim-Evolves s locked js d
perform-Evolves s (complete id answer prompt completion) js d =
    update-Evolves s _ (λ j. Unit {0}) _ _ (λ j _ o. complete-Row s id answer prompt completion j o)
      js (anything js)
perform-Evolves s (fail id error max) js d = fail-Evolves s id error max js d
perform-Evolves s (recover_orphans timeout) js d =
    update-Evolves s _ (λ j. Unit {0}) _ _ (λ j _ o. orphan-Row s timeout j o) js (anything js)
perform-Evolves s (cancel id) js d =
    update-Evolves s _ (λ j. Unit {0}) _ _ (λ j _ o. cancel-Row s id j o) js (anything js)
perform-Evolves s (release id) js d =
    update-Evolves s _ (λ j. Unit {0}) _ _ (λ j _ o. release-Row s id j o) js (anything js)
perform-Evolves s (prune older_than) js d = prune-Evolves s older_than js
