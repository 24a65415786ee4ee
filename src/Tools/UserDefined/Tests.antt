-- ===== src/Tools/UserDefined/Tests.antt =====
-- Runs of `build_plan` of src/tools/user_defined.rs.
use pg_ask.Prelude.{none, some, [], ◌∷◌, ◌≡◌, ◌≢◌, refl, Text, codes, trim, contains, decimal}
use pg_ask.Checked.{pass, fail}
use pg_ask.Json.{null, string, object, array, nil, Fields, end, field, lookup, Serde}
use pg_ask.Tools.UserDefined.{
  text, jsonb, null_bound, Plan, json_to_bound, position, build_plan, plan_ordered,
  placeholder_order, split_pair, key_of, plan_bound, bind_values, rewrite, parameter,
}
use pg_ask.Tools.UserDefined.Built.{
  IsPlanned, build_plan_iff, build_plan_total, build_plan_no_injection,
}

abbrev serde : Serde
serde = record {
  to_string = λ v. codes "[]";
  to_string_pretty = λ v. codes "[]";
  from_str = λ s. fail (codes "EOF while parsing a value");
}

abbrev template : Text
template = codes "f({{a}}, {{ b }}, {{a}})"

abbrev harmless : Fields
harmless = field (codes "a") (string (codes "x")) (field (codes "b") null end)

abbrev hostile : Fields
hostile = field (codes "a") (string (codes "x'); DROP TABLE t; --")) (field (codes "b") null end)

abbrev plan : Text → Plan
plan a = record { rewritten_body = codes "f($2, $3, $2)"; bindings = text a ∷ null_bound ∷ [] }

build_plan_test : build_plan serde template (object harmless) ≡ some (pass (plan (codes "x")))
unfolding build_plan plan_ordered placeholder_order split_pair key_of trim plan_bound bind_values
    contains lookup rewrite parameter position json_to_bound decimal
build_plan_test = refl

build_hostile_test :
    build_plan serde template (object hostile) ≡ some (pass (plan (codes "x'); DROP TABLE t; --")))
unfolding build_plan plan_ordered placeholder_order split_pair key_of trim plan_bound bind_values
    contains lookup rewrite parameter position json_to_bound decimal
build_hostile_test = refl

composite_test :
    build_plan serde (codes "{{a}}") (object (field (codes "a") (array nil) end))
    ≡ some
        (pass (record { rewritten_body = codes "($2::jsonb)"; bindings = jsonb (codes "[]") ∷ [] }))
unfolding build_plan plan_ordered placeholder_order split_pair key_of trim plan_bound bind_values
    contains lookup rewrite parameter position json_to_bound decimal
composite_test = refl

build_plan_total_example : build_plan serde template (object harmless) ≢ none
build_plan_total_example = build_plan_total serde template (object harmless)

build_plan_no_injection_example :
    (plan (codes "x")).rewritten_body ≡ (plan (codes "x'); DROP TABLE t; --")).rewritten_body
build_plan_no_injection_example =
    build_plan_no_injection serde template harmless hostile (plan (codes "x"))
      (plan (codes "x'); DROP TABLE t; --")) build_plan_test build_hostile_test refl

planned : IsPlanned serde template harmless (plan (codes "x"))
planned = (build_plan_iff serde template harmless (plan (codes "x"))).0 build_plan_test
