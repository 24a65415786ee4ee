-- ===== src/Schema/Names/Seen.antt =====
-- Which schemas `distinct_schemas` of src/schema/mod.rs gives.
use pg_ask.Prelude.{
  Bool, true, false, ◌||◌, Option, none, some, List, [], ◌∷◌, ◌++◌, ◌≡◌, refl, sym, ◌∙◌, subst, inl,
  inr, Bool-cases, not_true, any, arith, Text, eq, eq_iff, contains,
}
use pg_ask.Schema.Names.{see, line_schema, seen_schemas, distinct_schemas, lines}

abbrev pub NoRepeats : List Text → Type 0
NoRepeats [] = Unit
NoRepeats (t ∷ ts) = (contains ts t ≡ false) × NoRepeats ts

-- Whether the line names the schema.
abbrev pub is_schema : Option Text → Text → Bool
is_schema none s = false
is_schema (some x) s = eq x s

contains-append :
    (l m : List Text) (t : Text) → contains (l ++ m) t ≡ (contains l t || contains m t)
unfolding contains any
contains-append [] m t = refl
contains-append (x ∷ l) m t = ground (arith, contains-append l m t)

eq_sym : (s t : Text) → eq s t ≡ false → eq t s ≡ false
eq_sym s t h = not_true (eq t s) (λ q. cc (sym h ∙ (eq_iff s t).1 (sym ((eq_iff t s).0 q))))

append-NoRepeats :
    (seen : List Text) (s : Text)
    → contains seen s ≡ false
    → NoRepeats seen
    → NoRepeats (seen ++ s ∷ [])
unfolding contains any
append-NoRepeats [] s h d = (refl, tt)
append-NoRepeats (t ∷ seen) s h d = (
  rw (contains-append seen (s ∷ []) t) (ground (arith, eq_sym t s, d.0)),
  append-NoRepeats seen s (ground arith) d.1,
)

see-NoRepeats : (o : Option Text) (seen : List Text) → NoRepeats seen → NoRepeats (see o seen)
see-NoRepeats none seen d = d
see-NoRepeats (some s) seen d = elim (Bool-cases (contains seen s)) [
  | inl e ↦ rw e d
  | inr e ↦ rw e (append-NoRepeats seen s e d)
]

contains-see :
    (o : Option Text) (seen : List Text) (s : Text)
    → contains (see o seen) s ≡ (contains seen s || is_schema o s)
contains-see none seen s = ground arith
contains-see (some x) seen s = elim (Bool-cases (contains seen x)) [
  | inl e ↦ elim (Bool-cases (eq x s)) [
    | inr g ↦ rw (e, g) (ground arith)
    | inl g ↦
        let q = (eq_iff x s).0 g in
        let held : contains seen s ≡ true = subst (λ y. contains seen y ≡ true) q e in
        rw (e, g, held)
  ]
  | inr e ↦ rw e (rw (contains-append seen (x ∷ []) s) (unfold contains any in ground arith))
]

seen_contains :
    (raws seen : List Text) (s : Text)
    → contains (seen_schemas raws seen) s
      ≡ (contains seen s || any (λ raw. is_schema (line_schema raw) s) raws)
unfolding seen_schemas any
seen_contains [] seen s = ground arith
seen_contains (raw ∷ raws) seen s = ground (
  arith,
  seen_contains raws (see (line_schema raw) seen) s,
  contains-see (line_schema raw) seen s,
)

seen-NoRepeats : (raws seen : List Text) → NoRepeats seen → NoRepeats (seen_schemas raws seen)
unfolding seen_schemas
seen-NoRepeats [] seen d = d
seen-NoRepeats (raw ∷ raws) seen d =
    seen-NoRepeats raws (see (line_schema raw) seen) (see-NoRepeats (line_schema raw) seen d)

-- The schemas of a dump are those that some line of it names, each once.
pub distinct_schemas-NoRepeats :
    (schema_text : Text)
    → NoRepeats (distinct_schemas schema_text)
      × ((s : Text)
          → contains (distinct_schemas schema_text) s
            ≡ any (λ raw. is_schema (line_schema raw) s) (lines schema_text))
unfolding distinct_schemas
distinct_schemas-NoRepeats schema_text =
    (seen-NoRepeats (lines schema_text) [] tt, λ s. seen_contains (lines schema_text) [] s)
