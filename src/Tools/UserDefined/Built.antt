-- ===== src/Tools/UserDefined/Built.antt =====
-- What `build_plan` of src/tools/user_defined.rs returns.
use pg_ask.Prelude.{
  ℕ, zero, suc, Option, none, some, List, [], ◌∷◌, ◌≡◌, ◌≢◌, refl, sym, ap, ◌∙◌, arith, ◌⊎◌, inl,
  inr, ◌↔◌, length, get_elem?, All, Text, Option-cases, map, subst, All_imp,
}
use pg_ask.Checked.{Checked, pass, fail, >>=-eq-pass, Checked-cases}
use pg_ask.Json.{Value, object, Fields, lookup, Serde}
use pg_ask.Tools.UserDefined.{
  Bound, Plan, placeholder_order, bind_values, json_to_bound, position, is_jsonb, rewrite,
  plan_bound, plan_ordered, build_plan, plan_without,
}
use pg_ask.Tools.UserDefined.Plans.{
  Template, keys_from, Ordered, order_sound, order_complete, keys_cover, position_of, rendered,
  rewrite-rendered, Template-unique,
}

module _ (serde : Serde) where
  length-bind_values :
      (obj : Fields) (keys : List Text) (bs : List Bound)
      → bind_values serde obj keys ≡ pass bs
      → length bs ≡ length keys
  unfolding bind_values
  length-bind_values obj [] bs h = ground arith
  length-bind_values obj (key ∷ keys) bs h = elim (Option-cases (lookup key obj)) [
    | inr e ↦ absurd (let k = rw (e, bind_values) at h in cc)
    | inl (v, e) ↦
        let (rest, f, g) = >>=-eq-pass (bind_values serde obj keys) _ (rw (e, bind_values) at h) in
        ground (arith, length-bind_values obj keys rest f)
  ]

  bind_values-at :
      (obj : Fields) (keys : List Text) (bs : List Bound) (i : ℕ) (key : Text)
      → bind_values serde obj keys ≡ pass bs
      → get_elem? keys i ≡ some key
      → (v : Value) × (lookup key obj ≡ some v) × (get_elem? bs i ≡ some (json_to_bound serde v))
  unfolding bind_values
  bind_values-at obj [] bs i key h g = absurd (cc)
  bind_values-at obj (k ∷ keys) bs zero key h g = elim (Option-cases (lookup k obj)) [
    | inr e ↦ absurd (let n = rw (e, bind_values) at h in cc)
    | inl (v, e) ↦
        let (rest, f, r) = >>=-eq-pass (bind_values serde obj keys) _ (rw (e, bind_values) at h) in
        (v, cc, ground arith)
  ]
  bind_values-at obj (k ∷ keys) bs (suc i) key h g = elim (Option-cases (lookup k obj)) [
    | inr e ↦ absurd (let n = rw (e, bind_values) at h in cc)
    | inl (v, e) ↦
        let (rest, f, r) = >>=-eq-pass (bind_values serde obj keys) _ (rw (e, bind_values) at h) in
        let (w, l, at) = bind_values-at obj keys rest i key f g in (w, l, ground (arith, at))
  ]

  -- The plan follows the template: the body is its literal text with each marker replaced by the
  -- parameter of its key, and the bindings are the arguments at the keys.
  pub record IsPlanned (template : Text) (obj : Fields) (plan : Plan) : Type 0 where
    pub parts : List (Text × Text)
    pub last : Text
    pub reads : Template template parts last
    pub bound : bind_values serde obj (keys_from [] parts) ≡ pass plan.bindings
    pub body :
        plan.rewritten_body ≡ rendered (keys_from [] parts) (map is_jsonb plan.bindings) parts last

  second_pass :
      {template last : Text} {ps : List (Text × Text)} (obj : Fields) (bs : List Bound)
      → Template template ps last
      → bind_values serde obj (keys_from [] ps) ≡ pass bs
      → rewrite (length template) template (keys_from [] ps) bs []
        ≡ some (rendered (keys_from [] ps) (map is_jsonb bs) ps last)
  second_pass {template} {last} {ps} obj bs tpl h =
      rewrite-rendered (length template) (keys_from [] ps) bs [] tpl (omega arith)
        (keys_cover ps []) (length-bind_values obj (keys_from [] ps) bs h)

  ordered :
      (template : Text) (order : List Text)
      → placeholder_order (length template) template [] ≡ pass order
      → Ordered template [] order
  ordered template order e = order_sound (length template) template [] order (omega arith) e

  from_passes :
      (template : Text) (obj : Fields) (order : List Text) (bs : List Bound) (body : Text)
      → placeholder_order (length template) template [] ≡ pass order
      → bind_values serde obj order ≡ pass bs
      → rewrite (length template) template order bs [] ≡ some body
      → build_plan serde template (object obj)
        ≡ some (pass (record { rewritten_body = body; bindings = bs }))
  unfolding build_plan plan_ordered plan_bound
  from_passes template obj order bs body e f g = rw (e, plan_ordered, f, plan_bound, g)

  abbrev Outcome : Text → Fields → Option (Checked Plan) → Type 0
  Outcome template obj o =
      ((msg : Text) × (o ≡ some (fail msg)))
      ⊎ ((plan : Plan) × (o ≡ some (pass plan)) × IsPlanned template obj plan)

  outcome :
      (template : Text) (obj : Fields)
      → Outcome template obj (build_plan serde template (object obj))
  unfolding build_plan plan_ordered plan_bound
  outcome template obj = elim (Checked-cases (placeholder_order (length template) template [])) [
    | inr (msg, e) ↦ inl (msg, rw (e, plan_ordered))
    | inl (order, e) ↦
        let (ps, last, tpl, keys) = ordered template order e in
        elim (Checked-cases (bind_values serde obj order)) [
          | inr (msg, f) ↦ inl (msg, rw (e, plan_ordered, f, plan_bound))
          | inl (bs, f) ↦
              let f' = subst (λ o. bind_values serde obj o ≡ pass bs) keys f in
              let second = second_pass obj bs tpl f' in
              inr (
                record {
                  rewritten_body = rendered (keys_from [] ps) (map is_jsonb bs) ps last;
                  bindings = bs;
                },
                from_passes template obj (keys_from [] ps) bs _ (e ∙ ap pass keys) f' second,
                record { parts = ps; last = last; reads = tpl; bound = f'; body = refl },
              )
        ]
  ]

  same_plan : (p q : Plan) → ◌≡◌ {A = Option (Checked Plan)} (some (pass p)) (some (pass q)) → p ≡ q
  same_plan p q e = cc

  planned :
      (template : Text) (obj : Fields) (plan : Plan)
      → build_plan serde template (object obj) ≡ some (pass plan)
      → IsPlanned template obj plan
  planned template obj plan h = elim (outcome template obj) [
    | inl (msg, e) ↦ absurd (cc)
    | inr (p, e, i) ↦ subst (IsPlanned template obj) (same_plan p plan (sym e ∙ h)) i
  ]

  built :
      (template : Text) (obj : Fields) (plan : Plan)
      → IsPlanned template obj plan
      → build_plan serde template (object obj) ≡ some (pass plan)
  built template obj plan i =
      from_passes template obj (keys_from [] i.parts) plan.bindings plan.rewritten_body
        (order_complete (length template) [] i.reads (omega arith)) i.bound
        (second_pass obj plan.bindings i.reads i.bound ∙ ap some (sym i.body))

  pub build_plan_iff :
      (template : Text) (obj : Fields) (plan : Plan)
      → (build_plan serde template (object obj) ≡ some (pass plan)) ↔ IsPlanned template obj plan
  build_plan_iff template obj plan = (planned template obj plan, built template obj plan)

  -- The two `expect`s and the index of the second pass never fail: on any template and any
  -- arguments, `build_plan` returns a plan or an error.
  pub build_plan_total : (template : Text) (args : Value) → build_plan serde template args ≢ none
  unfolding build_plan plan_without
  build_plan_total template (object obj) h = elim (outcome template obj) [
    | inl (msg, e) ↦ cc
    | inr (p, e, i) ↦ cc
  ]
  build_plan_total template _ h = ground arith

  -- No argument can change the text of the statement: two plans of one template have the same
  -- body, whatever the arguments, if their bindings are composite at the same places.
  pub build_plan_no_injection :
      (template : Text) (a b : Fields) (p q : Plan)
      → build_plan serde template (object a) ≡ some (pass p)
      → build_plan serde template (object b) ≡ some (pass q)
      → map is_jsonb p.bindings ≡ map is_jsonb q.bindings
      → p.rewritten_body ≡ q.rewritten_body
  build_plan_no_injection template a b p q h k same =
      let i = planned template a p h in
      let j = planned template b q k in
      let (parts, last) = Template-unique i.reads j.reads in
      i.body ∙ (λ t. rendered (keys_from [] (parts t)) (same t) (parts t) (last t)) ∙ sym j.body

  -- Every marker of the template is bound: its parameter's number is the place of its key plus
  -- two, and the binding there is the argument with that key.
  pub build_plan_binds :
      (template : Text) (obj : Fields) (plan : Plan) (planned : IsPlanned template obj plan)
      → All
          (λ (part : Text × Text).
            (i : ℕ) × (v : Value) × (position part.1 (keys_from [] planned.parts) ≡ some i)
            × (lookup part.1 obj ≡ some v)
            × (get_elem? plan.bindings i ≡ some (json_to_bound serde v)))
          planned.parts
  build_plan_binds template obj plan i =
      All_imp i.parts
        (λ part c.
          let (n, p, lt, g) = position_of (keys_from [] i.parts) part.1 c in
          let (v, l, at) =
            bind_values-at obj (keys_from [] i.parts) plan.bindings n part.1 i.bound g in
          (n, v, p, l, at))
        (keys_cover i.parts [])
