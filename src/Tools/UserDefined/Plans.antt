-- ===== src/Tools/UserDefined/Plans.antt =====
-- The plans of `build_plan` of src/tools/user_defined.rs against the template's own structure.
use pg_ask.Prelude.{
  ℕ, zero, suc, ◌+◌, ◌≤◌, ◌<◌, Bool, true, none, some, List, [], ◌∷◌, ◌++◌, ◌≡◌, refl, sym, ap, ◌∙◌,
  arith, inl, inr, length, get_elem?, All, Text, eq, eq_iff, contains, contains_iff, trim,
  Option-cases, Bool-cases, map, subst, Any-left, Any-last, get_elem?_lt, get_elem?-map,
}
use mathlib.Core.List.{append_assoc}
use pg_ask.Checked.{pass, Checked-cases}
use pg_ask.Tools.UserDefined.{
  Bound, split_pair, key_of, remember, placeholder_order, position, is_jsonb, placeholder,
  parameter, rewrite,
}

split_pair-shorter :
    (m : ℕ) (s before after : Text)
    → split_pair m s ≡ some (before, after)
    → length after + 2 ≤ length s
unfolding split_pair
split_pair-shorter m [] before after h = cc
split_pair-shorter m (c ∷ []) before after h = cc
split_pair-shorter m (c ∷ d ∷ s) before after h = elim (Option-cases (split_pair m (d ∷ s))) [
  | inl ((b, a), e) ↦ ground (arith, e, split_pair-shorter m (d ∷ s) b a e)
  | inr e ↦ ground (arith, e)
]

key_of-shorter :
    (after key rest : Text) → key_of after ≡ pass (key, rest) → length rest + 2 ≤ length after
unfolding key_of
key_of-shorter after key rest h = elim (Option-cases (split_pair b'}' after)) [
  | inl ((i, r), e) ↦
      let k = rw (e, key_of) at h in ground (arith, split_pair-shorter b'}' after i r e)
  | inr e ↦ absurd (let k = rw (e, key_of) at h in cc)
]

-- The template is literal text with markers between: each part is the text before a marker and
-- the marker's key, and `last` is the text behind the last one.
pub data Template : Text → List (Text × Text) → Text → Type 0 where
  tail : {t last : Text} → split_pair b'{' t ≡ none → last ≡ t → Template t [] last
  part :
      {t before after key rest last : Text} {ps : List (Text × Text)}
      → split_pair b'{' t ≡ some (before, after)
      → key_of after ≡ pass (key, rest)
      → Template rest ps last
      → Template t ((before, key) ∷ ps) last

same_split :
    (m : ℕ) (s b a b' a' : Text)
    → split_pair m s ≡ some (b, a)
    → split_pair m s ≡ some (b', a')
    → (b ≡ b') × (a ≡ a')
same_split m s b a b' a' h k = ground arith

same_key :
    (s k r k' r' : Text) → key_of s ≡ pass (k, r) → key_of s ≡ pass (k', r') → (k ≡ k') × (r ≡ r')
same_key s k r k' r' h g = ground arith

-- A template has one structure.
pub Template-unique :
    {t last last' : Text} {ps ps' : List (Text × Text)}
    → Template t ps last
    → Template t ps' last'
    → (ps ≡ ps') × (last ≡ last')
Template-unique (tail e l) (tail e' l') = (refl, l ∙ sym l')
Template-unique (tail e l) (part e' k' r') = absurd (cc)
Template-unique (part e k r) (tail e' l') = absurd (cc)
Template-unique (part {t} {before} {after} {key} {rest} e k r)
      (part {before = before'} {after = after'} {key = key'} {rest = rest'} {last = last'} {ps = qs}
        e' k' r') =
    let (b, a) = same_split b'{' t before after before' after' e e' in
    let (x, y) = same_key after key rest key' rest' k (rw (← a) at k') in
    let (ps, l) = Template-unique r (subst (λ s. Template s qs last') (sym y) r') in
    ((λ i. (b i, x i) ∷ ps i), l)

-- The keys in the order of their first occurrence.
abbrev pub keys_from : List Text → List (Text × Text) → List Text
keys_from order [] = order
keys_from order ((before, key) ∷ ps) = keys_from (remember order key) ps

abbrev pub Ordered : Text → List Text → List Text → Type 0
Ordered t order found =
    (ps : List (Text × Text)) × (last : Text) × Template t ps last × (found ≡ keys_from order ps)

pub order_sound :
    (fuel : ℕ) (t : Text) (order found : List Text)
    → length t ≤ fuel
    → placeholder_order fuel t order ≡ pass found
    → Ordered t order found
unfolding placeholder_order split_pair
order_sound zero [] order found h e = ([], [], tail refl refl, ground arith)
order_sound zero (c ∷ t) order found h e = absurd (omega arith)
order_sound (suc fuel) t order found h e = elim (Option-cases (split_pair b'{' t)) [
  | inr f ↦ ([], t, tail f refl, ground (arith, rw (f, placeholder_order) at e))
  | inl ((before, after), f) ↦ elim (Checked-cases (key_of after)) [
    | inr (msg, g) ↦ absurd (let k = rw (f, placeholder_order, g) at e in cc)
    | inl ((key, rest), g) ↦
        let shorter = split_pair-shorter b'{' t before after f in
        let (ps, last, tpl, k) =
          order_sound fuel rest (remember order key) found
            (omega (arith, key_of-shorter after key rest g)) (rw (f, placeholder_order, g) at e) in
        ((before, key) ∷ ps, last, part f g tpl, k)
  ]
]

pub order_complete :
    {t last : Text} {ps : List (Text × Text)} (fuel : ℕ) (order : List Text)
    → Template t ps last
    → length t ≤ fuel
    → placeholder_order fuel t order ≡ pass (keys_from order ps)
unfolding placeholder_order
order_complete zero order (tail e l) h = refl
order_complete (suc fuel) order (tail {t} e l) h = rw (e, placeholder_order)
order_complete zero order (part {t} {before} {after} e k r) h =
    absurd (omega (arith, split_pair-shorter b'{' t before after e))
order_complete (suc fuel) order (part {t} {before} {after} {key} {rest} e k r) h =
    let shorter = split_pair-shorter b'{' t before after e in
    rw (e, placeholder_order, k)
      (order_complete fuel (remember order key) r (omega (arith, key_of-shorter after key rest k)))

-- Every key of the parts is in the list.
abbrev pub Covers : List Text → List (Text × Text) → Type 0
Covers order ps = All (λ (p : Text × Text). contains order p.1 ≡ true) ps

remember_self : (order : List Text) (key : Text) → contains (remember order key) key ≡ true
remember_self order key = elim (Bool-cases (contains order key)) [
  | inl e ↦ rw (e, remember) e
  | inr e ↦ rw (e, remember) ((contains_iff _ key).1 (Any-last order key refl))
]

remember_other :
    (order : List Text) (key k : Text)
    → contains order k ≡ true
    → contains (remember order key) k ≡ true
remember_other order key k h = elim (Bool-cases (contains order key)) [
  | inl e ↦ rw (e, remember) h
  | inr e ↦ rw (e, remember) ((contains_iff _ k).1 (Any-left _ ((contains_iff order k).0 h)))
]

keys_keep :
    (ps : List (Text × Text)) (order : List Text) (k : Text)
    → contains order k ≡ true
    → contains (keys_from order ps) k ≡ true
keys_keep [] order k h = h
keys_keep ((before, key) ∷ ps) order k h =
    keys_keep ps (remember order key) k (remember_other order key k h)

pub keys_cover : (ps : List (Text × Text)) (order : List Text) → Covers (keys_from order ps) ps
keys_cover [] order = tt
keys_cover ((before, key) ∷ ps) order = (
  keys_keep ps (remember order key) key (remember_self order key),
  keys_cover ps (remember order key),
)

pub position_of :
    (order : List Text) (key : Text)
    → contains order key ≡ true
    → (i : ℕ) × (position key order ≡ some i) × (i < length order) × (get_elem? order i ≡ some key)
unfolding position contains
position_of [] key h = absurd (cc)
position_of (k ∷ order) key h = elim (Bool-cases (eq k key)) [
  | inl e ↦ (0, rw e, omega arith, ap some ((eq_iff k key).0 e))
  | inr e ↦
      let (i, p, lt, g) = position_of order key (rw e at h) in (suc i, rw (e, p), omega arith, g)
]

-- The parameter of a key, from its place among the keys and from which bindings are composite.
abbrev pub param_at : List Text → List Bool → Text → Text
param_at order kinds key = elim (position key order) [
  | none ↦ []
  | some i ↦ elim (get_elem? kinds i) [ none ↦ [] | some k ↦ placeholder i k ]
]

-- The literal text of the template, each marker replaced by the parameter of its key.
abbrev pub rendered : List Text → List Bool → List (Text × Text) → Text → Text
rendered order kinds [] last = last
rendered order kinds ((before, key) ∷ ps) last =
    before ++ (param_at order kinds key ++ rendered order kinds ps last)

param_at_lem :
    (order : List Text) (kinds : List Bool) (key : Text) (i : ℕ) (k : Bool)
    → position key order ≡ some i
    → get_elem? kinds i ≡ some k
    → param_at order kinds key ≡ placeholder i k
param_at_lem order kinds key i k p g = rw (p, param_at, g)

parameter_lem :
    (order : List Text) (bindings : List Bound) (after inside rest : Text) (i : ℕ) (b : Bound)
    → split_pair b'}' after ≡ some (inside, rest)
    → position (trim inside) order ≡ some i
    → get_elem? bindings i ≡ some b
    → parameter order bindings after ≡ some (placeholder i (is_jsonb b), rest)
unfolding parameter
parameter_lem order bindings after inside rest i b e p g = rw (e, parameter, p, g)

parameter_of :
    (order : List Text) (bindings : List Bound) (after key rest : Text)
    → key_of after ≡ pass (key, rest)
    → contains order key ≡ true
    → length bindings ≡ length order
    → parameter order bindings after ≡ some (param_at order (map is_jsonb bindings) key, rest)
unfolding key_of
parameter_of order bindings after key rest k c len = elim (Option-cases (split_pair b'}' after)) [
  | inr e ↦ absurd (let h = rw (e, key_of) at k in cc)
  | inl ((inside, r), e) ↦
      let h = rw (e, key_of) at k in
      let t : trim inside ≡ key = ground arith in
      let q : r ≡ rest = ground arith in
      let (i, p, lt, _) = position_of order key c in
      let (b, g) = get_elem?_lt bindings i (omega arith) in
      cc (
        parameter_lem order bindings after inside r i b e (rw t p) g,
        param_at_lem order (map is_jsonb bindings) key i (is_jsonb b) p
            (get_elem?-map is_jsonb bindings i g),
        q,
      )
]

pub rewrite-rendered :
    {t last : Text} {ps : List (Text × Text)} (fuel : ℕ) (order : List Text) (bindings : List Bound)
    (written : Text)
    → Template t ps last
    → length t ≤ fuel
    → Covers order ps
    → length bindings ≡ length order
    → rewrite fuel t order bindings written
      ≡ some (written ++ rendered order (map is_jsonb bindings) ps last)
unfolding rewrite
rewrite-rendered zero order bindings written (tail e l) h c len = rw l
rewrite-rendered (suc fuel) order bindings written (tail e l) h c len = rw (e, rewrite, l)
rewrite-rendered zero order bindings written (part {t} {before} {after} e k r) h c len =
    absurd (omega (arith, split_pair-shorter b'{' t before after e))
rewrite-rendered (suc fuel) order bindings written
      (part {t} {before} {after} {key} {rest} {last} {ps} e k r) h c len =
    let shorter = split_pair-shorter b'{' t before after e in
    let param = param_at order (map is_jsonb bindings) key in
    rw (e, rewrite, parameter_of order bindings after key rest k c.0 len)
      (rewrite-rendered fuel order bindings (written ++ (before ++ param)) r
          (omega (arith, key_of-shorter after key rest k)) c.1 len
        ∙ simp append_assoc)
