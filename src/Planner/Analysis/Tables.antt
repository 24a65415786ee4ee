-- ===== src/Planner/Analysis/Tables.antt =====
-- The tables of a plan's summary.
use pg_ask.Prelude.{
  Option, none, some, List, [], ◌≡◌, refl, ap, ◌⊎◌, inl, inr, ◌↔◌, Bool-cases, Text, codes, eq,
  subst,
}
use pg_ask.Json.{
  Value, null, bool, string, array, object, number, Items, nil, cons, Fields, end, field, get,
  lookup,
}
use pg_ask.Planner.Analysis.{
  PlanSummary, Found, insert_some, table_of, note, walk, walk_plans, walk_array, walk_items,
  summarize,
}
use pg_ask.Planner.Analysis.Order.{Has, IsSorted, insert-Has, Has-insert, inserted, insert-IsSorted}

pub data InItems (v : Value) : Items → Type 0 where
  first : (items : Items) → InItems v (cons v items)
  later : (u : Value) (items : Items) → InItems v items → InItems v (cons u items)

-- The nodes of a plan: its root, and those of the plans in its list of children.
pub data IsNode (node : Value) : Value → Type 0 where
  root : IsNode node node
  child :
      (fs : Fields) (items : Items) (plan : Value)
      → lookup (codes "Plans") fs ≡ some (array items)
      → InItems plan items
      → IsNode node plan
      → IsNode node (object fs)

-- A node of the plan reads the table.
pub record Reads (plan : Value) (t : Text) : Type 0 where
  pub node : Value
  pub in_plan : IsNode node plan
  pub reads : table_of node ≡ some t

insert_some-IsSorted :
    (o : Option Text) (us : List Text) → IsSorted us → IsSorted (insert_some o us)
insert_some-IsSorted none us h = h
insert_some-IsSorted (some u) us h = insert-IsSorted u us h

some_value : {T : Type 0} {a b : T} → some a ≡ some b → a ≡ b
some_value h = cc

-- A property of what is found that every note keeps holds behind the walk.
module _ (P : Found → Type 0) (keeps : (node : Value) (f : Found) → P f → P (note node f)) where
  mutual
    unfolding walk

    pub walk_keeps : (v : Value) (f : Found) → P f → P (walk v f)
    walk_keeps (object fs) f h = walk_plans_keep fs (note (object fs) f) (keeps (object fs) f h)
    walk_keeps null f h = keeps null f h
    walk_keeps (bool b) f h = keeps (bool b) f h
    walk_keeps (number n) f h = keeps (number n) f h
    walk_keeps (string s) f h = keeps (string s) f h
    walk_keeps (array items) f h = keeps (array items) f h

    pub walk_plans_keep : (fs : Fields) (f : Found) → P f → P (walk_plans fs f)
    walk_plans_keep end f h = h
    walk_plans_keep (field key v fs) f h = elim (Bool-cases (eq key (codes "Plans"))) [
      | inl e ↦ rw e (walk_array_keeps v f h)
      | inr e ↦ rw e (walk_plans_keep fs f h)
    ]

    pub walk_array_keeps : (v : Value) (f : Found) → P f → P (walk_array v f)
    walk_array_keeps (object fs) f h = h
    walk_array_keeps null f h = h
    walk_array_keeps (bool b) f h = h
    walk_array_keeps (number n) f h = h
    walk_array_keeps (string s) f h = h
    walk_array_keeps (array items) f h = walk_items_keep items f h

    pub walk_items_keep : (items : Items) (f : Found) → P f → P (walk_items items f)
    walk_items_keep nil f h = h
    walk_items_keep (cons v items) f h = walk_items_keep items (walk v f) (walk_keeps v f h)

  -- What holds behind the note of a node holds behind the walk of it.
  pub walk_noted : (v : Value) (f : Found) → P (note v f) → P (walk v f)
  unfolding walk
  walk_noted (object fs) f h = walk_plans_keep fs (note (object fs) f) h
  walk_noted null f h = h
  walk_noted (bool b) f h = h
  walk_noted (number n) f h = h
  walk_noted (string s) f h = h
  walk_noted (array items) f h = h

walk_plans-lookup :
    (fs : Fields) (f : Found) (v : Value)
    → lookup (codes "Plans") fs ≡ some v
    → walk_plans fs f ≡ walk_array v f
unfolding walk lookup
walk_plans-lookup end f v h = absurd (cc)
walk_plans-lookup (field key u fs) f v h = elim (Bool-cases (eq key (codes "Plans"))) [
  | inl e ↦ rw e (ap (λ x. walk_array x f) (some_value (rw e at h)))
  | inr e ↦ rw e (walk_plans-lookup fs f v (rw e at h))
]

module _ (t : Text) where
  abbrev FoundHas : Found → Type 0
  FoundHas f = Has t f.0

  insert_some-Has : (o : Option Text) (us : List Text) → Has t us → Has t (insert_some o us)
  insert_some-Has none us h = h
  insert_some-Has (some u) us h = Has-insert t u us h

  note_has : (node : Value) (f : Found) → FoundHas f → FoundHas (note node f)
  note_has node f h = insert_some-Has (table_of node) f.0 h

  note_reads : (node : Value) (f : Found) → table_of node ≡ some t → FoundHas (note node f)
  note_reads node f h = rw h (inserted t f.0)

  walk_items_reads :
      (plan : Value) (items : Items) (f : Found)
      → InItems plan items
      → ((f : Found) → FoundHas (walk plan f))
      → FoundHas (walk_items items f)
  unfolding walk
  walk_items_reads plan nil f m h = elim m [ ]
  walk_items_reads plan (cons _ items) f (first _) h =
      walk_items_keep FoundHas note_has items (walk plan f) (h f)
  walk_items_reads plan (cons _ _) f (later u items m) h =
      walk_items_reads plan items (walk u f) m h

  walk_reads :
      (node plan : Value) (f : Found)
      → IsNode node plan
      → table_of node ≡ some t
      → FoundHas (walk plan f)
  unfolding walk
  walk_reads node plan f root h = walk_noted FoundHas note_has node f (note_reads node f h)
  walk_reads node plan f (child fs items kid look m p) h =
      rw (walk_plans-lookup fs (note (object fs) f) (array items) look)
        (walk_items_reads kid items (note (object fs) f) m (λ g. walk_reads node kid g p h))

  abbrev ItemsRead : Items → Type 0
  ItemsRead items = (plan : Value) × InItems plan items × Reads plan t

  found_some :
      (o : Option Text) (us : List Text) → Has t (insert_some o us) → Has t us ⊎ (o ≡ some t)
  found_some none us h = inl h
  found_some (some u) us h = elim (insert-Has t u us h) [ inl p ↦ inr (ap some p) | inr k ↦ inl k ]

  found_note : (node : Value) (f : Found) → Has t (note node f).0 → Has t f.0 ⊎ Reads node t
  found_note node f h = elim (found_some (table_of node) f.0 h) [
    | inl k ↦ inl k
    | inr p ↦ inr (record { node = node; in_plan = root; reads = p })
  ]

  read_below :
      (fs : Fields) (items : Items)
      → lookup (codes "Plans") fs ≡ some (array items)
      → ItemsRead items
      → Reads (object fs) t
  read_below fs items look (plan, m, r) = record {
    node = r.node;
    in_plan = child fs items plan look m r.in_plan;
    reads = r.reads;
  }

  mutual
    unfolding walk lookup

    found_walk : (v : Value) (f : Found) → Has t (walk v f).0 → Has t f.0 ⊎ Reads v t
    found_walk (object fs) f h = elim (found_plans fs (note (object fs) f) h) [
      | inl k ↦ found_note (object fs) f k
      | inr (items, look, r) ↦ inr (read_below fs items look r)
    ]
    found_walk null f h = found_note null f h
    found_walk (bool b) f h = found_note (bool b) f h
    found_walk (number n) f h = found_note (number n) f h
    found_walk (string s) f h = found_note (string s) f h
    found_walk (array items) f h = found_note (array items) f h

    found_plans :
        (fs : Fields) (f : Found)
        → Has t (walk_plans fs f).0
        → Has t f.0
          ⊎ ((items : Items) × (lookup (codes "Plans") fs ≡ some (array items)) × ItemsRead items)
    found_plans end f h = inl h
    found_plans (field key v fs) f h = elim (Bool-cases (eq key (codes "Plans"))) [
      | inl e ↦ elim (found_array v f (rw e at h)) [
        | inl k ↦ inl k
        | inr (items, p, r) ↦ inr (items, rw e (ap some p), r)
      ]
      | inr e ↦ rw e (found_plans fs f (rw e at h))
    ]

    found_array :
        (v : Value) (f : Found)
        → Has t (walk_array v f).0
        → Has t f.0 ⊎ ((items : Items) × (v ≡ array items) × ItemsRead items)
    found_array (object fs) f h = inl h
    found_array null f h = inl h
    found_array (bool b) f h = inl h
    found_array (number n) f h = inl h
    found_array (string s) f h = inl h
    found_array (array items) f h = elim (found_items items f h) [
      | inl k ↦ inl k
      | inr r ↦ inr (items, refl, r)
    ]

    found_items :
        (items : Items) (f : Found) → Has t (walk_items items f).0 → Has t f.0 ⊎ ItemsRead items
    found_items nil f h = inl h
    found_items (cons v items) f h = elim (found_items items (walk v f) h) [
      | inl k ↦ elim (found_walk v f k) [ inl j ↦ inl j | inr r ↦ inr (v, first items, r) ]
      | inr (plan, m, r) ↦ inr (plan, later v items m, r)
    ]

-- Where EXPLAIN gives a plan, the tables of its summary stand in the order of their bytes, each
-- once, and are those that some node of the plan reads, at whatever depth it stands.
pub summarize-Reads :
    (plan_json root : Value) (s : PlanSummary)
    → get plan_json (codes "Plan") ≡ some root
    → summarize plan_json ≡ some s
    → IsSorted s.tables × ((t : Text) → Has t s.tables ↔ Reads root t)
unfolding summarize
summarize-Reads plan_json plan s h q =
    let tables : (walk plan ([], [])).0 ≡ s.tables =
      ap (λ (x : PlanSummary). x.tables) (some_value (rw h at q)) in
    let sorted =
      walk_keeps (λ f. IsSorted f.0) (λ node f k. insert_some-IsSorted (table_of node) f.0 k) plan
        ([], []) tt in
    (
      subst IsSorted tables sorted,
      λ t.
          subst (λ us. Has t us ↔ Reads plan t) tables
            (
              (λ k. elim (found_walk t plan ([], []) k) [ inl j ↦ elim j [ ] | inr r ↦ r ]),
              (λ r. walk_reads t r.node plan ([], []) r.in_plan r.reads),
            ),
    )
