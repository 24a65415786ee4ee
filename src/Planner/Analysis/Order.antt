-- ===== src/Planner/Analysis/Order.antt =====
-- `BTreeSet::insert` keeps the order and adds one element.
use pg_ask.Prelude.{
  true, false, List, [], ◌∷◌, ◌≡◌, refl, sym, ◌⊎◌, inl, inr, Any, here, there, Bool-cases, Text, eq,
  eq_iff, arith,
}
use pg_ask.Planner.Analysis.{text_ltb, insert}

abbrev pub Has : Text → List Text → Type 0
Has t tables = Any (λ (u : Text). u ≡ t) tables

-- In the order of their bytes, and so each once.
abbrev pub IsSorted : List Text → Type 0
IsSorted [] = Unit {0}
IsSorted (t ∷ []) = Unit {0}
IsSorted (t ∷ u ∷ us) = (text_ltb t u ≡ true) × IsSorted (u ∷ us)

Has-cases : (t u : Text) (us : List Text) → Has t (u ∷ us) → (u ≡ t) ⊎ Has t us
Has-cases t u us (here p) = inl p
Has-cases t u us (there h) = inr h

Has-behind :
    (t u v : Text) (us rest : List Text)
    → (Has t rest → (u ≡ t) ⊎ Has t us)
    → Has t (v ∷ rest)
    → (u ≡ t) ⊎ Has t (v ∷ us)
Has-behind t u v us rest ih (here p) = inr (here p)
Has-behind t u v us rest ih (there h) = elim (ih h) [ inl p ↦ inl p | inr k ↦ inr (there k) ]

pub insert-Has : (t u : Text) (us : List Text) → Has t (insert u us) → (u ≡ t) ⊎ Has t us
unfolding insert
insert-Has t u [] h = Has-cases t u [] h
insert-Has t u (v ∷ us) h = elim (Bool-cases (eq u v)) [
  | inl e ↦ inr (rw e at h)
  | inr e ↦ elim (Bool-cases (text_ltb u v)) [
    | inl l ↦ Has-cases t u (v ∷ us) (rw (e, l) at h)
    | inr l ↦ Has-behind t u v us (insert u us) (insert-Has t u us) (rw (e, l) at h)
  ]
]

pub Has-insert : (t u : Text) (us : List Text) → Has t us → Has t (insert u us)
unfolding insert
Has-insert t u [] h = there h
Has-insert t u (v ∷ us) h = elim (Bool-cases (eq u v)) [
  | inl e ↦ rw e h
  | inr e ↦ elim (Bool-cases (text_ltb u v)) [
    | inl l ↦ rw (e, l) (there h)
    | inr l ↦
        rw (e, l)
          (elim (Has-cases t v us h) [ inl p ↦ here p | inr k ↦ there (Has-insert t u us k) ])
  ]
]

pub inserted : (u : Text) (us : List Text) → Has u (insert u us)
unfolding insert
inserted u [] = here refl
inserted u (v ∷ us) = elim (Bool-cases (eq u v)) [
  | inl e ↦ rw e (here (sym ((eq_iff u v).0 e)))
  | inr e ↦ elim (Bool-cases (text_ltb u v)) [
    | inl l ↦ rw (e, l) (here refl)
    | inr l ↦ rw (e, l) (there (inserted u us))
  ]
]

-- Of two texts that differ one is before the other.
text_ltb_total : (t u : Text) → eq t u ≡ false → text_ltb t u ≡ false → text_ltb u t ≡ true
unfolding text_ltb eq
text_ltb_total [] [] e l = absurd (cc)
text_ltb_total [] (d ∷ u) e l = absurd (cc)
text_ltb_total (c ∷ t) [] e l = refl
text_ltb_total (c ∷ t) (d ∷ u) e l = ground (arith, text_ltb_total t u)

-- The elements behind `v` stay behind it when `u` joins them, if `v` is before `u`.
insert_behind :
    (u v : Text) (us : List Text)
    → text_ltb v u ≡ true
    → IsSorted (v ∷ us)
    → IsSorted (insert u us)
    → IsSorted (v ∷ insert u us)
unfolding insert
insert_behind u v [] b h k = (b, k)
insert_behind u v (x ∷ us) b h k = elim (Bool-cases (eq u x)) [
  | inl e ↦ rw e h
  | inr e ↦ elim (Bool-cases (text_ltb u x)) [
    | inl l ↦ rw (e, l) (b, (l, h.1))
    | inr l ↦ rw (e, l) (h.0, rw (e, l) at k)
  ]
]

tail-IsSorted : (v : Text) (us : List Text) → IsSorted (v ∷ us) → IsSorted us
tail-IsSorted v [] h = tt
tail-IsSorted v (u ∷ us) h = h.1

pub insert-IsSorted : (u : Text) (us : List Text) → IsSorted us → IsSorted (insert u us)
unfolding insert
insert-IsSorted u [] h = tt
insert-IsSorted u (v ∷ us) h = elim (Bool-cases (eq u v)) [
  | inl e ↦ rw e h
  | inr e ↦ elim (Bool-cases (text_ltb u v)) [
    | inl l ↦ rw (e, l) (l, h)
    | inr l ↦
        rw (e, l)
          (insert_behind u v us (text_ltb_total u v e l) h
            (insert-IsSorted u us (tail-IsSorted v us h)))
  ]
]
