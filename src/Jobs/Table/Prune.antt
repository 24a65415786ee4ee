-- ===== src/Jobs/Table/Prune.antt =====
-- `ask._jobs_prune` of sql/bootstrap.sql: its loop in batches comes to one deletion.
use pg_ask.Prelude.{
  ℕ, zero, suc, ◌+◌, ◌≤◌, ◌<◌, Bool, true, false, Option, none, some, List, [], ◌∷◌, ◌≡◌, refl, sym,
  ap, ◌∙◌, inl, inr, Bool-cases, if◌then◌else◌, arith, ◌==◌, length,
}
use pg_ask.Jobs.Table.{Job, Session, delete, row_count, prunable}

-- `DELETE … USING cand`, with up to `n` candidates in the order of the table
unfoldable pub delete_some : (Job → Bool) → ℕ → List Job → List Job
delete_some p zero js = js
delete_some p (suc n) [] = []
delete_some p (suc n) (j ∷ js) = elim (p j) [
  | true ↦ delete_some p n js
  | false ↦ j ∷ delete_some p (suc n) js
]

-- How many rows that deletes.
unfoldable pub some_count : (Job → Bool) → ℕ → List Job → ℕ
some_count p zero js = 0
some_count p (suc n) [] = 0
some_count p (suc n) (j ∷ js) = elim (p j) [
  | true ↦ suc (some_count p n js)
  | false ↦ some_count p (suc n) js
]

-- The loop of `ask._jobs_prune`, which ends after a batch that removes nothing.
unfoldable pub prune_batches : (Job → Bool) → ℕ → ℕ → ℕ → List Job → Option (ℕ × List Job)
unfolding delete_some some_count
prune_batches p batch zero total jobs = none
prune_batches p batch (suc fuel) total jobs =
    let removed = some_count p batch jobs in
    let rest = prune_batches p batch fuel (total + removed) (delete_some p batch jobs) in
    if removed == 0 then some (total, delete_some p batch jobs) else rest

-- `ask._jobs_prune`; a batch size that is NULL is `none`, and a negative one is 0.
unfoldable pub jobs_prune : Session → ℕ → Option ℕ → List Job → Option (ℕ × List Job)
unfolding prune_batches row_count delete
jobs_prune s older_than none jobs =
    some (row_count (prunable s older_than) jobs, delete (prunable s older_than) jobs)
jobs_prune s older_than (some zero) jobs =
    some (row_count (prunable s older_than) jobs, delete (prunable s older_than) jobs)
jobs_prune s older_than (some (suc k)) jobs =
    prune_batches (prunable s older_than) (suc k) (length jobs + 1) 0 jobs

answer_eq :
    {m n : ℕ} {js ks : List Job}
    → m ≡ n
    → js ≡ ks
    → ◌≡◌ {A = Option (ℕ × List Job)} (some (m, js)) (some (n, ks))
answer_eq e f = λ i. some (e i, f i)

module _ (p : Job → Bool) where
  -- A batch takes some of the rows that are to go, and the others stay for the next.
  delete-delete_some : (n : ℕ) (js : List Job) → delete p (delete_some p n js) ≡ delete p js
  unfolding delete delete_some
  delete-delete_some zero js = refl
  delete-delete_some (suc n) [] = refl
  delete-delete_some (suc n) (j ∷ js) =
      ground (arith, delete-delete_some n js, delete-delete_some (suc n) js)

  row_count-delete_some :
      (n : ℕ) (js : List Job)
      → some_count p n js + row_count p (delete_some p n js) ≡ row_count p js
  unfolding row_count delete_some some_count
  row_count-delete_some zero js = omega arith
  row_count-delete_some (suc n) [] = omega arith
  row_count-delete_some (suc n) (j ∷ js) =
      ground (arith, row_count-delete_some n js, row_count-delete_some (suc n) js)

  -- A batch that takes nothing is the last: there was nothing left.
  empty_batch : (n : ℕ) (js : List Job) → some_count p (suc n) js ≡ 0 → row_count p js ≡ 0
  unfolding row_count some_count
  empty_batch n [] h = refl
  empty_batch n (j ∷ js) h = ground (arith, empty_batch n js)

  delete_nothing : (js : List Job) → row_count p js ≡ 0 → delete p js ≡ js
  unfolding row_count delete
  delete_nothing [] h = refl
  delete_nothing (j ∷ js) h = elim (Bool-cases (p j)) [
    | inl e ↦ absurd (let q = rw e at h in omega arith)
    | inr e ↦ rw e (ap (◌∷◌ j) (delete_nothing js (rw e at h)))
  ]

  row_count-le : (js : List Job) → row_count p js ≤ length js
  unfolding row_count
  row_count-le [] = omega arith
  row_count-le (j ∷ js) = ground (arith, row_count-le js)

  -- With fuel for a batch for each row and one more, the loop ends with all matching rows gone.
  batches :
      (k fuel total : ℕ) (js : List Job)
      → row_count p js < fuel
      → prune_batches p (suc k) fuel total js ≡ some (total + row_count p js, delete p js)
  unfolding prune_batches
  batches k zero total js h = absurd (omega arith)
  batches k (suc fuel) total js h = elim (Bool-cases (some_count p (suc k) js == 0)) [
    | inl e ↦
        let left = empty_batch k js (ground arith) in
        let counted = row_count-delete_some (suc k) js in
        rw e (
          answer_eq (omega arith) (
            sym (delete_nothing (delete_some p (suc k) js) (omega arith))
            ∙ delete-delete_some (suc k) js))
    | inr e ↦
        let counted = row_count-delete_some (suc k) js in
        rw e (
          batches k fuel (total + some_count p (suc k) js) (delete_some p (suc k) js) (ground arith)
          ∙ answer_eq (omega arith) (delete-delete_some (suc k) js))
  ]

-- However the batch size is chosen, pruning ends, removes all ended jobs whose end lies further
-- back than the given time and keeps every other job, and gives the number of the removed ones.
pub jobs_prune_lem :
    (s : Session) (older_than : ℕ) (batch : Option ℕ) (js : List Job)
    → jobs_prune s older_than batch js
      ≡ some (row_count (prunable s older_than) js, delete (prunable s older_than) js)
unfolding jobs_prune
jobs_prune_lem s older_than none js = refl
jobs_prune_lem s older_than (some zero) js = refl
jobs_prune_lem s older_than (some (suc k)) js =
    batches (prunable s older_than) k (length js + 1) 0 js
      (omega (arith, row_count-le (prunable s older_than) js))
    ∙ answer_eq (omega arith) refl
