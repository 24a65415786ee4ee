-- ===== src/Jobs/Drain/Once.antt =====
-- `drain` of src/jobs/mod.rs runs each job at most once in a pass.
use pg_ask.Prelude.{
  ℕ, zero, suc, ◌+◌, ◌≤◌, ◌<◌, ◌^◌, Bool, false, Option, none, some, List, [], ◌∷◌, ◌≡◌, refl,
  subst, inl, inr, Bool-cases, arith, length,
}
use pg_ask.Errors.{ok, err}
use pg_ask.Agent.Run.{Exit, returned, interrupted}
use pg_ask.Jobs.Queue.{ClaimedJob}
use pg_ask.Jobs.Drain.{
  Runner, has_id, next_count, after_release, after_execute, after_claim, drain_rounds, drain,
}

-- The same functions over a state that also lists the jobs that were run, the last one first.
abbrev pub logged : {S : Type 0} → Runner S → Runner (S × List ℕ)
logged runner = record {
  claim_one = λ (s, ran). let (r, s') = runner.claim_one s in (r, (s', ran));
  execute_claimed =
      λ job (s, ran). let (r, s') = runner.execute_claimed job s in (r, (s', job.id ∷ ran));
  release = λ id (s, ran). let (r, s') = runner.release id s in (r, (s', ran));
}

-- No job stands twice in the list.
abbrev pub NoRepeats : List ℕ → Type 0
NoRepeats [] = Unit
NoRepeats (id ∷ ids) = (has_id id ids ≡ false) × NoRepeats ids

pub record Pass {S : Type 0} (max : ℕ) (r : Exit ℕ × (S × List ℕ)) : Type 0 where
  pub once : NoRepeats r.1.1
  pub bounded : length r.1.1 ≤ max
  pub counted : (n : ℕ) → r.0 ≡ returned (ok n) → n ≡ length r.1.1

ok_inj : {m n : ℕ} → ◌≡◌ {A = Exit ℕ} (returned (ok m)) (returned (ok n)) → n ≡ m
ok_inj h = cc

not_err : {A : Type 0} {n : ℕ} → (e : _) → ◌≡◌ {A = Exit ℕ} (returned (err e)) (returned (ok n)) → A
not_err e h = cc

not_raise : {A : Type 0} {n : ℕ} → ◌≡◌ {A = Exit ℕ} interrupted (returned (ok n)) → A
not_raise h = cc

counts : (n max : ℕ) → suc n ≤ max → max < 2 ^ 32 → suc n ≡ next_count n
counts n max h k = omega arith

module _ {S : Type 0} (runner : Runner S) (max : ℕ) (in_u32 : max < 2 ^ 32) where
  stop-Pass :
      (attempted : List ℕ) (s : S)
      → NoRepeats attempted
      → length attempted ≤ max
      → Pass max (returned (ok (length attempted)), (s, attempted))
  stop-Pass attempted s once h = record { once = once; bounded = h; counted = λ n e. ok_inj e }

  fail-Pass :
      (e : _) (attempted : List ℕ) (s : S)
      → NoRepeats attempted
      → length attempted ≤ max
      → Pass max (returned (err e), (s, attempted))
  fail-Pass e attempted s once h = record { once = once; bounded = h; counted = λ n q. not_err e q }

  leave-Pass :
      (attempted : List ℕ) (s : S)
      → NoRepeats attempted
      → length attempted ≤ max
      → Pass max (interrupted, (s, attempted))
  leave-Pass attempted s once h = record { once = once; bounded = h; counted = λ n q. not_raise q }

  release-Pass :
      (attempted : List ℕ) (r : Exit Bool) (s : S)
      → NoRepeats attempted
      → length attempted ≤ max
      → Pass max (after_release (logged runner) (length attempted) (r, (s, attempted)))
  unfolding after_release
  release-Pass attempted (returned (ok b)) s once h = stop-Pass attempted s once h
  release-Pass attempted (returned (err e)) s once h = fail-Pass e attempted s once h
  release-Pass attempted interrupted s once h = leave-Pass attempted s once h

  -- What the rest of the loop is to show.
  abbrev Rests : ℕ → (List ℕ → ℕ → S × List ℕ → Exit ℕ × (S × List ℕ)) → Type 0
  Rests left rest =
      (ran : List ℕ) (s : S)
      → NoRepeats ran
      → length ran + left ≤ max
      → Pass max (rest ran (length ran) (s, ran))

  execute-Pass :
      (left : ℕ) (rest : _) (attempted : List ℕ) (id : ℕ) (r : Exit (Unit {0})) (s : S)
      → Rests left rest
      → NoRepeats (id ∷ attempted)
      → length attempted + suc left ≤ max
      → Pass max (
          after_execute
            (logged runner)
            rest
            (id ∷ attempted)
            (length attempted)
            (r, (s, id ∷ attempted)))
  unfolding after_execute
  execute-Pass left rest attempted id (returned (ok u)) s ih once h =
      subst (λ n. Pass max (rest (id ∷ attempted) n (s, id ∷ attempted)))
        (counts (length attempted) max (omega arith) in_u32)
        (ih (id ∷ attempted) s once (omega arith))
  execute-Pass left rest attempted id (returned (err e)) s ih once h =
      fail-Pass e (id ∷ attempted) s once (omega arith)
  execute-Pass left rest attempted id interrupted s ih once h =
      leave-Pass (id ∷ attempted) s once (omega arith)

  claim-Pass :
      (left : ℕ) (rest : _) (attempted : List ℕ) (r : Exit (Option ClaimedJob)) (s : S)
      → Rests left rest
      → NoRepeats attempted
      → length attempted + suc left ≤ max
      → Pass max (after_claim (logged runner) rest attempted (length attempted) (r, (s, attempted)))
  unfolding after_claim
  claim-Pass left rest attempted (returned (ok none)) s ih once h =
      stop-Pass attempted s once (omega arith)
  claim-Pass left rest attempted (returned (ok (some job))) s ih once h =
      elim (Bool-cases (has_id job.id attempted)) [
        | inl e ↦
            let (r, s') = runner.release job.id s in
            rw e (release-Pass attempted r s' once (omega arith))
        | inr e ↦
            let (r, s') = runner.execute_claimed job s in
            rw e (execute-Pass left rest attempted job.id r s' ih (e, once) h)
      ]
  claim-Pass left rest attempted (returned (err e)) s ih once h =
      fail-Pass e attempted s once (omega arith)
  claim-Pass left rest attempted interrupted s ih once h = leave-Pass attempted s once (omega arith)

  rounds-Pass : (left : ℕ) → Rests left (drain_rounds (logged runner) left)
  unfolding drain_rounds
  rounds-Pass zero ran s once h = stop-Pass ran s once (omega arith)
  rounds-Pass (suc left) ran s once h =
      let (r, s') = runner.claim_one s in
      claim-Pass left (λ a p s''. drain_rounds (logged runner) left a p s'') ran r s'
        (rounds-Pass left) once h

-- The list of the runs changes nothing else.
module _ {S : Type 0} (runner : Runner S) where
  abbrev Forgets : Exit ℕ × (S × List ℕ) → Exit ℕ × S → Type 0
  Forgets r q = (r.0 ≡ q.0) × (r.1.0 ≡ q.1)

  abbrev Follows :
      (List ℕ → ℕ → S × List ℕ → Exit ℕ × (S × List ℕ)) → (List ℕ → ℕ → S → Exit ℕ × S) → Type 0
  Follows rest rest' =
      (a : List ℕ) (p : ℕ) (s : S) (ran : List ℕ) → Forgets (rest a p (s, ran)) (rest' a p s)

  release-Forgets :
      (processed : ℕ) (r : Exit Bool) (s : S) (ran : List ℕ)
      → Forgets
          (after_release (logged runner) processed (r, (s, ran)))
          (after_release runner processed (r, s))
  unfolding after_release
  release-Forgets processed (returned (ok b)) s ran = (refl, refl)
  release-Forgets processed (returned (err e)) s ran = (refl, refl)
  release-Forgets processed interrupted s ran = (refl, refl)

  execute-Forgets :
      (rest : _) (rest' : _) (a : List ℕ) (p : ℕ) (r : Exit (Unit {0})) (s : S) (ran : List ℕ)
      → Follows rest rest'
      → Forgets
          (after_execute (logged runner) rest a p (r, (s, ran)))
          (after_execute runner rest' a p (r, s))
  unfolding after_execute
  execute-Forgets rest rest' a p (returned (ok u)) s ran f = f a (next_count p) s ran
  execute-Forgets rest rest' a p (returned (err e)) s ran f = (refl, refl)
  execute-Forgets rest rest' a p interrupted s ran f = (refl, refl)

  claim-Forgets :
      (rest : _) (rest' : _) (a : List ℕ) (p : ℕ) (r : Exit (Option ClaimedJob)) (s : S)
      (ran : List ℕ)
      → Follows rest rest'
      → Forgets
          (after_claim (logged runner) rest a p (r, (s, ran)))
          (after_claim runner rest' a p (r, s))
  unfolding after_claim
  claim-Forgets rest rest' a p (returned (ok none)) s ran f = (refl, refl)
  claim-Forgets rest rest' a p (returned (ok (some job))) s ran f =
      elim (Bool-cases (has_id job.id a)) [
        | inl e ↦ let (r, s') = runner.release job.id s in rw e (release-Forgets p r s' ran)
        | inr e ↦
            let (r, s') = runner.execute_claimed job s in
            rw e (execute-Forgets rest rest' (job.id ∷ a) p r s' (job.id ∷ ran) f)
      ]
  claim-Forgets rest rest' a p (returned (err e)) s ran f = (refl, refl)
  claim-Forgets rest rest' a p interrupted s ran f = (refl, refl)

  rounds-Forgets :
      (left : ℕ) → Follows (drain_rounds (logged runner) left) (drain_rounds runner left)
  unfolding drain_rounds
  rounds-Forgets zero a p s ran = (refl, refl)
  rounds-Forgets (suc left) a p s ran =
      let (r, s') = runner.claim_one s in
      claim-Forgets (λ a' p' q. drain_rounds (logged runner) left a' p' q)
        (λ a' p' q. drain_rounds runner left a' p' q) a p r s' ran (rounds-Forgets left)

-- In one pass of `drain` no job is run twice, whatever the claims give and however the runs end, and
-- at most `max` jobs are run; where the pass returns a number, this many were run. The list of the
-- runs, by which this is said, changes neither the answer nor the state of the pass.
pub drain-Pass :
    {S : Type 0} (runner : Runner S) (max : ℕ) (s : S)
    → max < 2 ^ 32
    → Pass max (drain (logged runner) max (s, []))
      × ((drain (logged runner) max (s, [])).0 ≡ (drain runner max s).0)
      × ((drain (logged runner) max (s, [])).1.0 ≡ (drain runner max s).1)
unfolding drain
drain-Pass runner max s in_u32 =
    let (answer, state) = rounds-Forgets runner max [] 0 s [] in
    (rounds-Pass runner max in_u32 max [] s tt (omega arith), answer, state)
