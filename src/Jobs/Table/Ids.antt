-- ===== src/Jobs/Table/Ids.antt =====
-- The primary key of ask._jobs: no call makes two rows with one id.
use pg_ask.Prelude.{
  ℕ, Bool, true, false, Option, none, some, List, [], ◌∷◌, ◌++◌, ◌≡◌, ◌≢◌, refl, ap, sym, ◌∙◌,
  subst, inl, inr, All, Bool-cases, arith, ◌==◌, eq, any, leb, Text, codes, ◌||◌,
}
use pg_ask.Jobs.Table.{
  Job, Session, update, delete, own_claim, cur_attempts, job_submit, btrim, claim_row, fail_row,
}
use pg_ask.Jobs.Table.Calls.{
  Call, submit, claim, complete, fail, recover_orphans, cancel, release, prune, perform,
}

abbrev pub Distinct : List Job → Type 0
Distinct [] = Unit
Distinct (j ∷ js) = All (λ (k : Job). k.id ≢ j.id) js × Distinct js

-- A statement that keeps the id of each row.
abbrev pub KeepsId : (Job → Job) → Type 0
KeepsId set = (j : Job) → (set j).id ≡ j.id

module _ (p : Job → Bool) where
  update_ids :
      (set : Job → Job)
      → KeepsId set
      → (i : ℕ) (js : List Job) → All (λ (k : Job). k.id ≢ i) js
      → All (λ (k : Job). k.id ≢ i) (update p set js)
  unfolding update
  update_ids set keep i [] h = tt
  update_ids set keep i (j ∷ js) h = elim (Bool-cases (p j)) [
    | inl e ↦ rw e ((λ q. h.0 (rw (← keep j) q)), update_ids set keep i js h.1)
    | inr e ↦ rw e (h.0, update_ids set keep i js h.1)
  ]

  pub update-Distinct :
      (set : Job → Job) → KeepsId set → (js : List Job) → Distinct js → Distinct (update p set js)
  unfolding update
  update-Distinct set keep [] d = tt
  update-Distinct set keep (j ∷ js) d = elim (Bool-cases (p j)) [
    | inl e ↦ rw e (rw (keep j) (update_ids set keep j.id js d.0), update-Distinct set keep js d.1)
    | inr e ↦ rw e (update_ids set keep j.id js d.0, update-Distinct set keep js d.1)
  ]

  pub delete-All {κ} : (P : Job → Type κ) (js : List Job) → All P js → All P (delete p js)
  unfolding delete
  delete-All P [] h = tt
  delete-All P (j ∷ js) h = elim (Bool-cases (p j)) [
    | inl e ↦ rw e (delete-All P js h.1)
    | inr e ↦ rw e (h.0, delete-All P js h.1)
  ]

  pub delete-Distinct : (js : List Job) → Distinct js → Distinct (delete p js)
  unfolding delete
  delete-Distinct [] d = tt
  delete-Distinct (j ∷ js) d = elim (Bool-cases (p j)) [
    | inl e ↦ rw e (delete-Distinct js d.1)
    | inr e ↦ rw e (delete-All _ js d.0, delete-Distinct js d.1)
  ]

pub append-All {κ} :
    (P : Job → Type κ) (js : List Job) (k : Job) → All P js → P k → All P (js ++ k ∷ [])
append-All P [] k h q = (q, tt)
append-All P (j ∷ js) k h q = (h.0, append-All P js k h.1 q)

append-Distinct :
    (js : List Job) (k : Job)
    → any (λ j. j.id == k.id) js ≡ false
    → Distinct js
    → Distinct (js ++ k ∷ [])
unfolding any
append-Distinct [] k h d = (tt, tt)
append-Distinct (j ∷ js) k h d =
    (append-All _ js k d.0 (ground arith), append-Distinct js k (ground arith) d.1)

-- `_job_fail` names its row by the id alone, and this is the row of the claim that it has read.
absent_update :
    (id : ℕ) (p : Job → Bool) (set : Job → Job) (js : List Job)
    → All (λ (k : Job). k.id ≢ id) js
    → ((k : Job) → p k ≡ true → k.id ≡ id)
    → update p set js ≡ js
unfolding update
absent_update id p set [] h q = refl
absent_update id p set (j ∷ js) h q = elim (Bool-cases (p j)) [
  | inl e ↦ absurd (h.0 (q j e))
  | inr e ↦ rw e (ap (◌∷◌ j) (absent_update id p set js h.1 q))
]

own_id : (s : Session) (id : ℕ) (k : Job) → own_claim s id k ≡ true → k.id ≡ id
own_id s id k h = ground arith

absent_attempts :
    (s : Session) (id : ℕ) (js : List Job)
    → All (λ (k : Job). k.id ≢ id) js
    → cur_attempts s id js ≡ none
unfolding cur_attempts
absent_attempts s id [] h = refl
absent_attempts s id (j ∷ js) h = elim (Bool-cases (own_claim s id j)) [
  | inl e ↦ absurd (h.0 (own_id s id j e))
  | inr e ↦ rw e (absent_attempts s id js h.1)
]

id_of_test : (a b : ℕ) → a == b ≡ true → a ≡ b
id_of_test a b h = ground arith

test_of_id : (a b : ℕ) → a ≡ b → a == b ≡ true
test_of_id a b h = ground arith

none_absurd : {A : Type 0} {a : A} → none ≡ some a → ⊥
none_absurd h = cc

-- In a table of distinct ids `WHERE id = job_id` meets just the claim that `cur_attempts` found.
pub update_own :
    (s : Session) (id : ℕ) (set : Job → Job) (js : List Job) {n : ℕ}
    → Distinct js
    → cur_attempts s id js ≡ some n
    → update (λ j. j.id == id) set js ≡ update (own_claim s id) set js
unfolding update cur_attempts
update_own s id set [] d h = refl
update_own s id set (j ∷ js) d h = elim (Bool-cases (own_claim s id j)) [
  | inl e ↦
      let i = own_id s id j e in
      let away = subst (λ a. All (λ (k : Job). k.id ≢ a) js) i d.0 in
      rw (e, test_of_id j.id id i)
        (ap (◌∷◌ (set j)) (
          absent_update id (λ k. k.id == id) set js away (λ k q. id_of_test k.id id q)
          ∙ sym (absent_update id (own_claim s id) set js away (own_id s id))))
  | inr e ↦
      let later = rw e at h in
      elim (Bool-cases (j.id == id)) [
        | inl i ↦
            let away = subst (λ a. All (λ (k : Job). k.id ≢ a) js) (id_of_test j.id id i) d.0 in
            absurd (none_absurd (sym (absent_attempts s id js away) ∙ later))
        | inr i ↦ rw (e, i) (ap (◌∷◌ j) (update_own s id set js d.1 later))
      ]
]

submit-Distinct :
    (s : Session) (enabled : Bool) (id : ℕ) (kind question : Text) (js : List Job)
    → Distinct js
    → Distinct (job_submit s enabled id kind question js).1
unfolding job_submit
submit-Distinct s false id kind question js d = d
submit-Distinct s true id kind question js d =
    elim (Bool-cases (eq kind (codes "ask") || eq kind (codes "sql"))) [
      | inr e ↦ rw e d
      | inl e ↦ elim (Bool-cases (eq (btrim question) [])) [
        | inl g ↦ rw (e, g) d
        | inr g ↦ elim (Bool-cases (any (λ j. j.id == id) js)) [
          | inl k ↦ rw (e, g, k) d
          | inr k ↦ rw (e, g, k) (append-Distinct js _ k d)
        ]
      ]
    ]

claim-Distinct :
    (s : Session) (next : Option Job) (js : List Job)
    → Distinct js
    → Distinct (claim_row s next js).1
claim-Distinct s none js d = d
claim-Distinct s (some next) js d = update-Distinct _ _ (λ j. refl) js d

fail-Distinct :
    (s : Session) (id : ℕ) (error : Text) (max : ℕ) (n : Option ℕ) (js : List Job)
    → Distinct js
    → Distinct (fail_row s id error max n js).1
fail-Distinct s id error max none js d = d
fail-Distinct s id error max (some n) js d = elim (Bool-cases (leb max n)) [
  | inl e ↦ rw e (update-Distinct _ _ (λ j. refl) js d)
  | inr e ↦ rw e (update-Distinct _ _ (λ j. refl) js d)
]

pub perform-Distinct :
    (s : Session) (c : Call) (js : List Job) → Distinct js → Distinct (perform s c js)
unfolding perform
perform-Distinct s (submit enabled id kind question) js d =
    submit-Distinct s enabled id kind question js d
perform-Distinct s (claim locked) js d = claim-Distinct s _ js d
perform-Distinct s (complete id answer prompt completion) js d =
    update-Distinct _ _ (λ j. refl) js d
perform-Distinct s (fail id error max) js d =
    fail-Distinct s id error max (cur_attempts s id js) js d
perform-Distinct s (recover_orphans timeout) js d = update-Distinct _ _ (λ j. refl) js d
perform-Distinct s (cancel id) js d = update-Distinct _ _ (λ j. refl) js d
perform-Distinct s (release id) js d = update-Distinct _ _ (λ j. refl) js d
perform-Distinct s (prune older_than) js d = delete-Distinct _ js d
