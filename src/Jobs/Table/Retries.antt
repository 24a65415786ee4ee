-- ===== src/Jobs/Table/Retries.antt =====
-- A job that is alone in the queue of its database: its claims, its failures, and its releases.
use pg_ask.Prelude.{
  ℕ, zero, suc, ◌+◌, Bool, true, false, none, some, List, [], ◌∷◌, ◌++◌, ◌≡◌, refl, ap, ◌∙◌, inl,
  inr, All, Bool-cases, if◌then◌else◌, arith, ◌==◌, ==_iff, eq_iff, leb, Text,
}
use pg_ask.Jobs.Table.{
  pending, failed, Job, Session, update, oldest, is_pending, own_claim, cur_attempts, claimable,
  claimed, give_up, retry, job_claim, job_fail,
}

-- Another row: of another id, and not pending.
pub record IsOther (id : ℕ) (k : Job) : Type 0 where
  pub id_differs : k.id == id ≡ false
  pub not_pending : is_pending k.status ≡ false

abbrev pub free : ℕ → Bool
free id = false

-- The job waits in the session's database, and the rows around it are others.
pub record Waits (s : Session) (front back : List Job) (j : Job) : Type 0 where
  pub status : j.status ≡ pending
  pub here : j.db ≡ s.current_database
  pub front_others : All (IsOther j.id) front
  pub back_others : All (IsOther j.id) back

abbrev pub around : List Job → Job → List Job → List Job
around front j back = front ++ j ∷ back

update_others :
    (p : Job → Bool) (set : Job → Job) (js : List Job)
    → All (λ k. p k ≡ false) js
    → update p set js ≡ js
unfolding update
update_others p set [] h = refl
update_others p set (k ∷ js) h = rw (h.0) (ap (◌∷◌ k) (update_others p set js h.1))

-- A statement that meets the one row only.
update_one :
    (p : Job → Bool) (set : Job → Job) (front : List Job) (j : Job) (back : List Job)
    → All (λ k. p k ≡ false) front
    → p j ≡ true
    → All (λ k. p k ≡ false) back
    → update p set (around front j back) ≡ around front (set j) back
unfolding update
update_one p set [] j back f e b = rw e (ap (◌∷◌ (set j)) (update_others p set back b))
update_one p set (k ∷ front) j back f e b =
    rw (f.0) (ap (◌∷◌ k) (update_one p set front j back f.1 e b))

oldest_others : (p : Job → Bool) (js : List Job) → All (λ k. p k ≡ false) js → oldest p js ≡ none
unfolding oldest
oldest_others p [] h = refl
oldest_others p (k ∷ js) h = rw (h.0) (oldest_others p js h.1)

oldest_one :
    (p : Job → Bool) (front : List Job) (j : Job) (back : List Job)
    → All (λ k. p k ≡ false) front
    → p j ≡ true
    → All (λ k. p k ≡ false) back
    → oldest p (around front j back) ≡ some j
unfolding oldest
oldest_one p [] j back f e b = rw (e, oldest_others p back b)
oldest_one p (k ∷ front) j back f e b = rw (f.0) (oldest_one p front j back f.1 e b)

attempts_one :
    (s : Session) (id : ℕ) (front : List Job) (j : Job) (back : List Job)
    → All (λ k. own_claim s id k ≡ false) front
    → own_claim s id j ≡ true
    → cur_attempts s id (around front j back) ≡ some j.attempts
unfolding cur_attempts
attempts_one s id [] j back f e = rw e
attempts_one s id (k ∷ front) j back f e = rw (f.0) (attempts_one s id front j back f.1 e)

module _ (s : Session) (id : ℕ) where
  others_id : (js : List Job) → All (IsOther id) js → All (λ (k : Job). k.id == id ≡ false) js
  others_id [] h = tt
  others_id (k ∷ js) h = (h.0.id_differs, others_id js h.1)

  others_claimable :
      (js : List Job) → All (IsOther id) js → All (λ k. claimable s free k ≡ false) js
  others_claimable [] h = tt
  others_claimable (k ∷ js) h = (ground (arith, h.0.not_pending), others_claimable js h.1)

  others_own : (js : List Job) → All (IsOther id) js → All (λ k. own_claim s id k ≡ false) js
  others_own [] h = tt
  others_own (k ∷ js) h = (ground (arith, h.0.id_differs), others_own js h.1)

test_refl : (n : ℕ) → n == n ≡ true
test_refl n = (==_iff n n).1 refl

module _ (s : Session) (front back : List Job) (j : Job) (w : Waits s front back j) where
  waiting_claimable : claimable s free j ≡ true
  waiting_claimable = rw (w.status, (eq_iff j.db s.current_database).1 w.here)

  -- The job is claimed.
  claim_one : (job_claim s free (around front j back)).1 ≡ around front (claimed s j) back
  unfolding job_claim
  claim_one =
      rw
        (oldest_one (claimable s free) front j back (others_claimable s j.id front w.front_others)
          waiting_claimable (others_claimable s j.id back w.back_others))
        (update_one (λ k. k.id == j.id) (claimed s) front j back
          (others_id s j.id front w.front_others) (test_refl j.id)
          (others_id s j.id back w.back_others))

  own_claimed : own_claim s j.id (claimed s j) ≡ true
  own_claimed = rw (test_refl j.id, test_refl s.pid)

  fail_one :
      (error : Text) (max : ℕ)
      → (job_fail s j.id error max (around front (claimed s j) back)).1 ≡ (
          if leb max (j.attempts + 1)
          then around front (give_up s error (claimed s j)) back
          else around front (retry error (claimed s j)) back)
  unfolding job_fail
  fail_one error max =
      rw
        (attempts_one s j.id front (claimed s j) back (others_own s j.id front w.front_others)
          own_claimed)
        (elim (Bool-cases (leb max (j.attempts + 1))) [
          | inl e ↦ rw e (
              update_one (λ k. k.id == j.id) (give_up s error) front (claimed s j) back
                (others_id s j.id front w.front_others) (test_refl j.id)
                (others_id s j.id back w.back_others))
          | inr e ↦ rw e (
              update_one (λ k. k.id == j.id) (retry error) front (claimed s j) back
                (others_id s j.id front w.front_others) (test_refl j.id)
                (others_id s j.id back w.back_others))
        ])

-- A run that fails: the job is claimed, and the failure is recorded.
unfoldable pub failing_run : Session → ℕ → Text → ℕ → List Job → List Job
unfolding job_claim job_fail
failing_run s id error max js = (job_fail s id error max (job_claim s free js).1).1

unfoldable pub failing_runs : ℕ → Session → ℕ → Text → ℕ → List Job → List Job
unfolding failing_run
failing_runs zero s id error max js = js
failing_runs (suc n) s id error max js =
    failing_runs n s id error max (failing_run s id error max js)

run_fails :
    (s : Session) (front back : List Job) (j : Job) (error : Text) (max : ℕ)
    → Waits s front back j
    → failing_run s j.id error max (around front j back) ≡ (
        if leb max (j.attempts + 1)
        then around front (give_up s error (claimed s j)) back
        else around front (retry error (claimed s j)) back)
unfolding failing_run
run_fails s front back j error max w =
    ap (λ js. (job_fail s j.id error max js).1) (claim_one s front back j w)
    ∙ fail_one s front back j w error max

Waits-again :
    (s : Session) (front back : List Job) (j : Job) (error : Text)
    → Waits s front back j
    → Waits s front back (retry error (claimed s j))
Waits-again s front back j error w = record {
  status = refl;
  here = w.here;
  front_others = w.front_others;
  back_others = w.back_others;
}

-- The job has failed with as many attempts as it may have.
pub record Ended (max : ℕ) (error : Text) (j k : Job) : Type 0 where
  pub id : k.id ≡ j.id
  pub status : k.status ≡ failed
  pub attempts : k.attempts ≡ max
  pub message : k.error ≡ some error

-- A job whose every run fails comes to an end: from a pending job with `n` attempts left, and no
-- other job pending, `n` runs that fail leave the job failed, with all its attempts and the last
-- error, and the rows around it as they were.
pub failing_runs-Ended :
    (n : ℕ) (s : Session) (front back : List Job) (j : Job) (error : Text) (max : ℕ)
    → Waits s front back j
    → j.attempts + suc n ≡ max
    → (k : Job) × Ended max error j k
      × (failing_runs (suc n) s j.id error max (around front j back) ≡ around front k back)
unfolding failing_runs
failing_runs-Ended zero s front back j error max w h =
    let last : leb max (j.attempts + 1) ≡ true = ground arith in
    (
      give_up s error (claimed s j),
      record { id = refl; status = refl; attempts = omega arith; message = refl },
      rw (run_fails s front back j error max w, last),
    )
failing_runs-Ended (suc n) s front back j error max w h =
    let more : leb max (j.attempts + 1) ≡ false = ground arith in
    let (k, e, q) =
      failing_runs-Ended n s front back (retry error (claimed s j)) error max
        (Waits-again s front back j error w) (omega arith) in
    (
      k,
      record { id = e.id; status = e.status; attempts = e.attempts; message = e.message },
      rw (run_fails s front back j error max w, more) q,
    )
