-- ===== src/Jobs/Table/Fifo.antt =====
-- Which job `ask._job_claim` takes.
use pg_ask.Prelude.{
  ℕ, Bool, true, false, Option, none, some, List, [], ◌∷◌, ◌≡◌, ◌≢◌, refl, sym, ap, ◌∙◌, subst, inl,
  inr, All, All_imp, Any, here, there, Bool-cases, arith, ◌==◌,
}
use pg_ask.Jobs.Table.{Job, Session, update, oldest, older, before, claimable, claimed}
use pg_ask.Jobs.Table.Ids.{Distinct}

-- `b` stands behind `a` in no order.
abbrev pub NotBefore : Job → Job → Type 0
NotBefore j k = before k j ≡ false

before_asym : (a b : Job) → before a b ≡ true → before b a ≡ false
before_asym a b h = ground arith

before_irrefl : (a : Job) → before a a ≡ false
before_irrefl a = ground arith

not_before_trans : (j k l : Job) → before k j ≡ false → before l k ≡ false → before l j ≡ false
not_before_trans j k l h q = ground arith

-- A first row by the order among those that meet the condition.
pub record IsOldest (p : Job → Bool) (js : List Job) (j : Job) : Type 0 where
  pub meets : p j ≡ true
  pub present : Any (λ (k : Job). k ≡ j) js
  pub first : All (λ k. p k ≡ true → NotBefore j k) js

module _ (p : Job → Bool) where
  pub oldest-none : (js : List Job) → oldest p js ≡ none → All (λ k. p k ≡ false) js
  unfolding oldest
  oldest-none [] h = tt
  oldest-none (j ∷ js) h = elim (Bool-cases (p j)) [
    | inl e ↦ absurd (cc (rw e at h))
    | inr e ↦ (e, oldest-none js (rw e at h))
  ]

  step_oldest :
      (j : Job) (js : List Job) (best : Option Job)
      → p j ≡ true
      → oldest p js ≡ best
      → ((k : Job) → oldest p js ≡ some k → IsOldest p js k)
      → IsOldest p (j ∷ js) (older j best)
  step_oldest j js none e o ih = record {
    meets = e;
    present = here refl;
    first = ((λ _. before_irrefl j), All_imp js (λ k none_met met. absurd (cc)) (oldest-none js o));
  }
  step_oldest j js (some k) e o ih =
      let tail = ih k o in
      elim (Bool-cases (before k j)) [
        | inl b ↦ rw b (record {
          meets = tail.meets;
          present = there tail.present;
          first = ((λ _. before_asym k j b), tail.first);
        })
        | inr b ↦ rw b (record {
          meets = e;
          present = here refl;
          first = (
            (λ _. before_irrefl j),
            All_imp js (λ l f met. not_before_trans j k l b (f met)) tail.first,
          );
        })
      ]

  pub oldest-IsOldest : (js : List Job) (j : Job) → oldest p js ≡ some j → IsOldest p js j
  unfolding oldest
  oldest-IsOldest [] j h = cc
  oldest-IsOldest (i ∷ js) j h = elim (Bool-cases (p i)) [
    | inl e ↦
        let q : some (older i (oldest p js)) ≡ some j = rw e at h in
        subst (IsOldest p (i ∷ js)) (cc q)
          (step_oldest i js (oldest p js) e refl (oldest-IsOldest js))
    | inr e ↦
        let tail = oldest-IsOldest js j (rw e at h) in
        record {
          meets = tail.meets;
          present = there tail.present;
          first = ((λ met. absurd (cc)), tail.first);
        }
  ]

-- In a table of distinct ids a row is known by its id.
away_id :
    (j : Job) (js : List Job)
    → All (λ (k : Job). k.id ≢ j.id) js
    → All (λ (k : Job). k.id ≡ j.id → k ≡ j) js
away_id j js h = All_imp js (λ k away same. absurd (away same)) h

head_absent :
    (i j : Job) (js : List Job)
    → All (λ (k : Job). k.id ≢ i.id) js
    → Any (λ (k : Job). k ≡ j) js
    → i.id ≡ j.id
    → ⊥
head_absent i j [] h m same = elim m [ ]
head_absent i j (k ∷ js) h (here e) same = h.0 (ap (λ (x : Job). x.id) e ∙ sym same)
head_absent i j (k ∷ js) h (there m) same = head_absent i j js h.1 m same

pub unique_row :
    (j : Job) (js : List Job)
    → Distinct js
    → Any (λ (k : Job). k ≡ j) js
    → All (λ (k : Job). k.id ≡ j.id → k ≡ j) js
unique_row j [] d m = elim m [ ]
unique_row j (i ∷ js) d (here e) =
    ((λ same. e), away_id j js (subst (λ (x : Job). All (λ (k : Job). k.id ≢ x.id) js) e d.0))
unique_row j (i ∷ js) d (there m) =
    ((λ same. absurd (head_absent i j js d.0 m same)), unique_row j js d.1 m)

-- What a claim gives and does.
pub data Claims (s : Session) (locked : ℕ → Bool) (js : List Job)
    : Option Job × List Job → Type 0 where
  idle : All (λ k. claimable s locked k ≡ false) js → Claims s locked js (none, js)
  takes :
      (next : Job)
      → IsOldest (claimable s locked) js next
      → Claims s locked js (some (claimed s next), update (λ j. j.id == next.id) (claimed s) js)
