-- ===== src/Jobs/Table/Shape.antt =====
-- What holds of every row of ask._jobs at all times.
use pg_ask.Prelude.{
  ℕ, ◌≤◌, Bool, true, false, Option, none, some, List, [], ◌∷◌, ◌≡◌, refl, inl, inr, All,
  Bool-cases, Option-cases, arith, ◌==◌, eq, Text, codes, any, leb, ◌||◌,
}
use pg_ask.Jobs.Table.{
  Status, pending, running, done, failed, cancelled, Job, Session, update, oldest, is_running,
  own_claim, cur_attempts, claimable, claimed, give_up, requeue, retry, completed, withdrawn,
  is_orphan, cancellable, job_submit, job_claim, job_complete, job_fail, job_recover_orphans,
  job_cancel, job_release, btrim, claim_row,
}
use pg_ask.Jobs.Table.Ids.{Distinct, append-All, delete-All, update_own, perform-Distinct}
use pg_ask.Jobs.Table.Calls.{
  Call, submit, claim, complete, fail, recover_orphans, cancel, release, prune, perform, Reach,
  start, call,
}

abbrev pub is_some {ℓ} : {A : Type ℓ} → Option A → Bool
is_some none = false
is_some (some a) = true

-- What each status says of the other columns.
abbrev pub Columns : Status → Job → Type 0
Columns pending j = (j.started_at ≡ none) × (j.finished_at ≡ none) × (j.worker_pid ≡ none)
Columns running j =
    (is_some j.started_at ≡ true)
    × (is_some j.worker_pid ≡ true)
    × (j.finished_at ≡ none)
    × (1 ≤ j.attempts)
Columns done j =
    (is_some j.answer ≡ true) × (j.error ≡ none) × (is_some j.finished_at ≡ true) × (1 ≤ j.attempts)
Columns failed j = (is_some j.error ≡ true) × (is_some j.finished_at ≡ true) × (1 ≤ j.attempts)
Columns cancelled j = is_some j.finished_at ≡ true

pub record IsWellFormed (j : Job) : Type 0 where
  pub columns : Columns j.status j

-- A statement that keeps a predicate on the rows that its condition meets keeps it on all.
pub update-All {κ} :
    (P : Job → Type κ) (p : Job → Bool) (set : Job → Job)
    → ((j : Job) → P j → p j ≡ true → P (set j))
    → (js : List Job) → All P js
    → All P (update p set js)
unfolding update
update-All P p set keep [] h = tt
update-All P p set keep (j ∷ js) h = elim (Bool-cases (p j)) [
  | inl e ↦ rw e (keep j h.0 e, update-All P p set keep js h.1)
  | inr e ↦ rw e (h.0, update-All P p set keep js h.1)
]

running_attempts :
    (status : Status) (j : Job) → Columns status j → is_running status ≡ true → 1 ≤ j.attempts
running_attempts pending j w h = cc
running_attempts running j w h = w.3
running_attempts done j w h = cc
running_attempts failed j w h = cc
running_attempts cancelled j w h = cc

running_unfinished :
    (status : Status) (j : Job) → Columns status j → is_running status ≡ true → j.finished_at ≡ none
running_unfinished pending j w h = cc
running_unfinished running j w h = w.2
running_unfinished done j w h = cc
running_unfinished failed j w h = cc
running_unfinished cancelled j w h = cc

own_running :
    (s : Session) (id : ℕ) (j : Job) → own_claim s id j ≡ true → is_running j.status ≡ true
own_running s id j h = ground arith

orphan_running :
    (s : Session) (timeout : ℕ) (j : Job)
    → is_orphan s timeout j ≡ true
    → is_running j.status ≡ true
orphan_running s timeout j h = ground arith

requeue-IsWellFormed :
    (j : Job) → IsWellFormed j → is_running j.status ≡ true → IsWellFormed (requeue j)
requeue-IsWellFormed j w r = record {
  columns = (refl, running_unfinished j.status j w.columns r, refl);
}

retry-IsWellFormed :
    (error : Text) (j : Job)
    → IsWellFormed j
    → is_running j.status ≡ true
    → IsWellFormed (retry error j)
retry-IsWellFormed error j w r = record {
  columns = (refl, running_unfinished j.status j w.columns r, refl);
}

claimed-IsWellFormed : (s : Session) (j : Job) → IsWellFormed (claimed s j)
claimed-IsWellFormed s j = record { columns = (refl, refl, refl, omega arith) }

give_up-IsWellFormed :
    (s : Session) (error : Text) (j : Job)
    → IsWellFormed j
    → is_running j.status ≡ true
    → IsWellFormed (give_up s error j)
give_up-IsWellFormed s error j w r = record {
  columns = (refl, refl, running_attempts j.status j w.columns r);
}

submit-All :
    (s : Session) (enabled : Bool) (id : ℕ) (kind question : Text) (js : List Job)
    → All IsWellFormed js
    → All IsWellFormed (job_submit s enabled id kind question js).1
unfolding job_submit
submit-All s false id kind question js h = h
submit-All s true id kind question js h =
    elim (Bool-cases (eq kind (codes "ask") || eq kind (codes "sql"))) [
      | inr e ↦ rw e h
      | inl e ↦ elim (Bool-cases (eq (btrim question) [])) [
        | inl g ↦ rw (e, g) h
        | inr g ↦ elim (Bool-cases (any (λ j. j.id == id) js)) [
          | inl k ↦ rw (e, g, k) h
          | inr k ↦ rw (e, g, k) (append-All _ js _ h (record { columns = (refl, refl, refl) }))
        ]
      ]
    ]

claim-All :
    (s : Session) (next : Option Job) (js : List Job)
    → All IsWellFormed js
    → All IsWellFormed (claim_row s next js).1
claim-All s none js h = h
claim-All s (some next) js h = update-All _ _ _ (λ j w e. claimed-IsWellFormed s j) js h

fail-All :
    (s : Session) (id : ℕ) (error : Text) (max : ℕ) (js : List Job)
    → Distinct js
    → All IsWellFormed js
    → All IsWellFormed (job_fail s id error max js).1
unfolding job_fail
fail-All s id error max js d h = elim (Option-cases (cur_attempts s id js)) [
  | inr e ↦ rw e h
  | inl (n, e) ↦ elim (Bool-cases (leb max n)) [
    | inl g ↦
        rw (e, g)
          (rw (update_own s id (give_up s error) js d e) (
            update-All _ _ _ (λ j w o. give_up-IsWellFormed s error j w (own_running s id j o)) js
              h))
    | inr g ↦
        rw (e, g)
          (rw (update_own s id (retry error) js d e)
            (update-All _ _ _ (λ j w o. retry-IsWellFormed error j w (own_running s id j o)) js h))
  ]
]

perform-All :
    (s : Session) (c : Call) (js : List Job)
    → Distinct js
    → All IsWellFormed js
    → All IsWellFormed (perform s c js)
unfolding perform job_complete job_recover_orphans job_cancel job_release job_claim
perform-All s (submit enabled id kind question) js d h = submit-All s enabled id kind question js h
perform-All s (claim locked) js d h = claim-All s (oldest (claimable s locked) js) js h
perform-All s (complete id answer prompt completion) js d h =
    update-All _ (own_claim s id) (completed s answer prompt completion)
      (λ j w e. record {
        columns = (refl, refl, refl, running_attempts j.status j w.columns (own_running s id j e));
      })
      js h
perform-All s (fail id error max) js d h = fail-All s id error max js d h
perform-All s (recover_orphans timeout) js d h =
    update-All _ _ _ (λ j w e. requeue-IsWellFormed j w (orphan_running s timeout j e)) js h
perform-All s (cancel id) js d h =
    update-All _ (cancellable s id) (withdrawn s) (λ j w e. record { columns = refl }) js h
perform-All s (release id) js d h =
    update-All _ _ _ (λ j w e. requeue-IsWellFormed j w (own_running s id j e)) js h
perform-All s (prune older_than) js d h = delete-All _ _ js h

-- In every table that calls of any backends, in any order, make of the empty one, the ids are
-- distinct and every row fits its status: a pending job has no claim and no end, a running one has
-- a start, a worker and an attempt, a done one an answer and no error, a failed one an error, and
-- every ended one its time.
pub Reach-IsWellFormed : {js : List Job} → Reach js → Distinct js × All IsWellFormed js
Reach-IsWellFormed start = (tt, tt)
Reach-IsWellFormed (call {jobs} s c r) =
    let (d, w) = Reach-IsWellFormed r in (perform-Distinct s c jobs d, perform-All s c jobs d w)
