-- ===== src/Schema/Render/Tally.antt =====
-- The groups of `render_compact` of src/schema/render.rs.
use pg_ask.Prelude.{
  ℕ, ◌+◌, Bool, true, false, ◌||◌, List, [], ◌∷◌, ◌≡◌, refl, sym, ap, ◌∙◌, inl, inr, Bool-cases,
  not_true, if◌then◌else◌, arith, eq_iff,
}
use pg_ask.Schema.Render.{ColumnRow, TableKey, key_eq, key_of, bump, tally}

-- How many of the rows are columns of the table.
abbrev pub columns_of : TableKey → List ColumnRow → ℕ
columns_of k [] = 0
columns_of k (r ∷ rows) = (if key_eq (key_of r) k then 1 else 0) + columns_of k rows

-- The count of the group, 0 where there is none.
abbrev pub count_of : TableKey → List (TableKey × ℕ) → ℕ
count_of k [] = 0
count_of k ((j, n) ∷ acc) = if key_eq j k then n else count_of k acc

abbrev pub has_group : TableKey → List (TableKey × ℕ) → Bool
has_group k [] = false
has_group k ((j, n) ∷ acc) = key_eq j k || has_group k acc

-- No table has two groups.
abbrev pub OneGroup : List (TableKey × ℕ) → Type 0
OneGroup [] = Unit
OneGroup ((j, n) ∷ acc) = (has_group j acc ≡ false) × OneGroup acc

key_eq→eq : (a b : TableKey) → key_eq a b ≡ true → a ≡ b
key_eq→eq a b h = ground (arith, eq_iff a.schema b.schema, eq_iff a.table b.table)

key_eq_refl : (a : TableKey) → key_eq a a ≡ true
key_eq_refl a = ground (arith, eq_iff a.schema a.schema, eq_iff a.table a.table)

other_key : (i j k : TableKey) → key_eq j i ≡ false → key_eq j k ≡ true → key_eq i k ≡ false
other_key i j k e g = not_true (key_eq i k) (λ h.
    let same : j ≡ i = key_eq→eq j k g ∙ sym (key_eq→eq i k h) in
    cc (sym e ∙ ap (λ x. key_eq x i) same ∙ key_eq_refl i))

count-bump :
    (k i : TableKey) (acc : List (TableKey × ℕ))
    → count_of k (bump i acc) ≡ (if key_eq i k then 1 else 0) + count_of k acc
unfolding bump
count-bump k i [] = ground arith
count-bump k i ((j, n) ∷ acc) = elim (Bool-cases (key_eq j i)) [
  | inl e ↦
      let same : j ≡ i = key_eq→eq j i e in
      rw e (
        rw same (elim (Bool-cases (key_eq i k)) [
          | inl g ↦ rw g (omega arith)
          | inr g ↦ rw g (omega arith)
        ]))
  | inr e ↦ rw e (elim (Bool-cases (key_eq j k)) [
    | inl g ↦ rw (g, other_key i j k e g) (omega arith)
    | inr g ↦ rw g (count-bump k i acc)
  ])
]

has_group-bump :
    (k i : TableKey) (acc : List (TableKey × ℕ))
    → has_group k (bump i acc) ≡ (key_eq i k || has_group k acc)
unfolding bump
has_group-bump k i [] = refl
has_group-bump k i ((j, n) ∷ acc) = elim (Bool-cases (key_eq j i)) [
  | inl e ↦ let same : j ≡ i = key_eq→eq j i e in rw e (rw same (ground arith))
  | inr e ↦ rw (e, has_group-bump k i acc) (ground arith)
]

bump-OneGroup : (i : TableKey) (acc : List (TableKey × ℕ)) → OneGroup acc → OneGroup (bump i acc)
unfolding bump
bump-OneGroup i [] d = (refl, tt)
bump-OneGroup i ((j, n) ∷ acc) d = elim (Bool-cases (key_eq j i)) [
  | inl e ↦ rw e d
  | inr e ↦
      let away : key_eq i j ≡ false =
        not_true (key_eq i j)
          (λ h. cc (sym e ∙ ap (λ x. key_eq x i) (sym (key_eq→eq i j h)) ∙ key_eq_refl i)) in
      rw e (rw (has_group-bump j i acc, away) d.0, bump-OneGroup i acc d.1)
]

tally_counts :
    (k : TableKey) (rows : List ColumnRow) (acc : List (TableKey × ℕ))
    → count_of k (tally rows acc) ≡ columns_of k rows + count_of k acc
unfolding tally
tally_counts k [] acc = omega arith
tally_counts k (r ∷ rows) acc =
    omega (arith, tally_counts k rows (bump (key_of r) acc), count-bump k (key_of r) acc)

tally-OneGroup :
    (rows : List ColumnRow) (acc : List (TableKey × ℕ)) → OneGroup acc → OneGroup (tally rows acc)
unfolding tally
tally-OneGroup [] acc d = d
tally-OneGroup (r ∷ rows) acc d =
    tally-OneGroup rows (bump (key_of r) acc) (bump-OneGroup (key_of r) acc d)

-- The compact listing has one line for each table, whatever the order of the rows, with the number
-- of its columns among them.
pub tally_lem :
    (rows : List ColumnRow)
    → OneGroup (tally rows []) × ((k : TableKey) → count_of k (tally rows []) ≡ columns_of k rows)
tally_lem rows = (tally-OneGroup rows [] tt, λ k. omega (arith, tally_counts k rows []))
