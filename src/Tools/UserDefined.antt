-- ===== src/Tools/UserDefined.antt =====
-- `build_plan` and `json_to_bound` of src/tools/user_defined.rs: `{{key}}` markers of a tool's body
-- become numbered parameters. A position in the template is the text from there on.
pub mod Plans
pub mod Built
pub mod Tests
use pg_ask.Prelude.{
  is_empty, ℕ, zero, suc, ◌+◌, Bool, true, false, ◌&&◌, Option, none, some, List, [], ◌∷◌, ◌++◌,
  ◌==◌, if◌then◌else◌, length, get_elem?, Text, codes, eq, contains, trim, decimal, ◌≡◌, refl,
}
use pg_ask.Checked.{Checked, pass, fail, ◌>>=◌, ◌>>◌}
use pg_ask.Json.{
  Number, Value, null, bool, number, string, array, object, Fields, end, field, lookup, Serde,
}

-- Integers and floats are kept as their 64 bits.
pub data Bound : Type 0 where
  text : Text → Bound
  int : ℕ → Bound
  float : ℕ → Bound
  boolean : Bool → Bound
  null_bound : Bound
  jsonb : Text → Bound

pub record Plan : Type 0 where
  pub rewritten_body : Text
  pub bindings : List Bound

abbrev prepended : ℕ → Option (Text × Text) → Option (Text × Text)
prepended c none = none
prepended c (some (before, after)) = some (c ∷ before, after)

-- `find` of a doubled byte, such as `{{`: what stands before its first occurrence, and behind it.
pub split_pair : ℕ → Text → Option (Text × Text)
split_pair mark [] = none
split_pair mark (c ∷ []) = none
split_pair mark (c ∷ d ∷ s) =
    let later = split_pair mark (d ∷ s) in
    if c == mark && d == mark then some ([], s) else prepended c later

abbrev pub remember : List Text → Text → List Text
remember order key = if contains order key then order else order ++ key ∷ []

-- What the first pass does behind an opening: the key up to the closing, and the rest.
pub key_of : Text → Checked (Text × Text)
key_of after = elim (split_pair b'}' after) [
  | none ↦ fail (codes "unterminated `{{` placeholder in tool body")
  | some (inside, rest) ↦
      if is_empty (trim inside)
      then fail (codes "empty `{{}}` placeholder in tool body")
      else pass (trim inside, rest)
]

-- The first pass, on fuel: the keys in the order of their first occurrence. A marker takes four
-- bytes, so the length of the template is enough fuel.
pub placeholder_order : ℕ → Text → List Text → Checked (List Text)
placeholder_order zero t order = pass order
placeholder_order (suc fuel) t order = elim (split_pair b'{' t) [
  | none ↦ pass order
  | some (before, after) ↦ elim (key_of after) [
    | fail e ↦ fail e
    | pass (key, rest) ↦ placeholder_order fuel rest (remember order key)
  ]
]

module _ (serde : Serde) where
  number_bound : Number → Bound
  number_bound n = elim n.as_i64 [
    | some i ↦ int i
    | none ↦ elim n.as_f64 [ some f ↦ float f | none ↦ text n.text ]
  ]

  pub json_to_bound : Value → Bound
  json_to_bound null = null_bound
  json_to_bound (bool b) = boolean b
  json_to_bound (number n) = number_bound n
  json_to_bound (string s) = text s
  json_to_bound (array vs) = jsonb (serde.to_string (array vs))
  json_to_bound (object fs) = jsonb (serde.to_string (object fs))

  -- `for key in &placeholder_order`
  pub bind_values : Fields → List Text → Checked (List Bound)
  bind_values obj [] = pass []
  bind_values obj (key ∷ keys) = elim (lookup key obj) [
    | none ↦ fail (codes "missing argument `" ++ (key ++ codes "` for tool"))
    | some val ↦ do rest ← bind_values obj keys; pass (json_to_bound val ∷ rest)
  ]

-- `placeholder_order.iter().position(|k| k == key)`
pub position : Text → List Text → Option ℕ
position key [] = none
position key (k ∷ keys) =
    let later = position key keys in
    if eq k key then some 0 else elim later [ none ↦ none | some i ↦ some (suc i) ]

abbrev pub is_jsonb : Bound → Bool
is_jsonb (jsonb s) = true
is_jsonb _ = false

-- What is pushed for the binding with the given index.
abbrev pub placeholder : ℕ → Bool → Text
placeholder idx composite =
    if composite
    then b'(' ∷ b'$' ∷ (decimal (idx + 2) ++ codes "::jsonb)")
    else b'$' ∷ decimal (idx + 2)

-- The second pass on one marker, from behind its opening: the parameter, and the rest. `none` is
-- a panic of one of the two `expect`s, or of the index.
pub parameter : List Text → List Bound → Text → Option (Text × Text)
parameter order bindings after = elim (split_pair b'}' after) [
  | none ↦ none
  | some (inside, rest) ↦ elim (position (trim inside) order) [
    | none ↦ none
    | some idx ↦ elim (get_elem? bindings idx) [
      | none ↦ none
      | some bind ↦ some (placeholder idx (is_jsonb bind), rest)
    ]
  ]
]

pub rewrite : ℕ → Text → List Text → List Bound → Text → Option Text
rewrite zero t order bindings rewritten = some (rewritten ++ t)
rewrite (suc fuel) t order bindings rewritten = elim (split_pair b'{' t) [
  | none ↦ some (rewritten ++ t)
  | some (before, after) ↦ elim (parameter order bindings after) [
    | none ↦ none
    | some (param, rest) ↦ rewrite fuel rest order bindings (rewritten ++ (before ++ param))
  ]
]

-- `none` is a panic.
abbrev plan_of : List Bound → Option Text → Option (Checked Plan)
plan_of bindings none = none
plan_of bindings (some body) = some (pass (record { rewritten_body = body; bindings = bindings }))

module _ (serde : Serde) where
  pub plan_bound : Text → List Text → Checked (List Bound) → Option (Checked Plan)
  plan_bound template order (fail e) = some (fail e)
  plan_bound template order (pass bindings) =
      plan_of bindings (rewrite (length template) template order bindings [])

  pub plan_ordered : Text → Fields → Checked (List Text) → Option (Checked Plan)
  plan_ordered template obj (fail e) = some (fail e)
  plan_ordered template obj (pass order) = plan_bound template order (bind_values serde obj order)

  -- `template.contains("{{")`
  has_marker : Text → Bool
  has_marker t = elim (split_pair b'{' t) [ none ↦ false | some p ↦ true ]

  plan_without : Text → Option (Checked Plan)
  plan_without template =
      if has_marker template
      then some (fail (codes "user-defined tool called with non-object arguments"))
      else some (pass (record { rewritten_body = template; bindings = [] }))

  pub build_plan : Text → Value → Option (Checked Plan)
  build_plan template (object obj) =
      plan_ordered template obj (placeholder_order (length template) template [])
  build_plan template _ = plan_without template
