-- ===== src/Planner/Analysis.antt =====
-- src/planner/analysis.rs, over the native numbers: an `i64` is its 64 bits.
pub mod Order
pub mod Tables
use pg_ask.Prelude.{
  ℕ, ◌+◌, ◌^◌, ◌-◌, ◌==◌, ◌&&◌, ◌||◌, Bool, true, false, Option, none, some, List, [], ◌∷◌, ◌++◌,
  if◌then◌else◌, ltb, is_empty, Text, codes, eq, decimal,
}
use pg_ask.Json.{
  Value, null, bool, string, array, object, number, Items, nil, cons, Fields, end, field, get,
  get_str,
}

abbrev pub huge_rows : ℕ
huge_rows = 100000

abbrev pub wide_scan_rows : ℕ
wide_scan_rows = 10000

pub record PlanSummary : Type 0 where
  pub est_rows : ℕ
  pub tables : List Text
  pub warnings : List Text

-- `.and_then(|v| v.as_i64())`
abbrev pub as_i64 : Option Value → Option ℕ
as_i64 (some (number n)) = n.as_i64
as_i64 _ = none

abbrev pub or_else : ℕ → Option ℕ → ℕ
or_else d none = d
or_else d (some n) = n

-- `>` of an `i64` with a limit that is not negative
abbrev pub above : ℕ → ℕ → Bool
above n limit = ltb limit n && ltb n (2 ^ 63)

-- The order of `String`: by bytes.
unfoldable pub text_ltb : Text → Text → Bool
text_ltb [] [] = false
text_ltb [] (c ∷ t) = true
text_ltb (c ∷ s) [] = false
text_ltb (c ∷ s) (d ∷ t) = ltb c d || (c == d && text_ltb s t)

-- `BTreeSet::insert`, on the elements in order
unfoldable pub insert : Text → List Text → List Text
unfolding text_ltb eq
insert t [] = t ∷ []
insert t (u ∷ us) =
    let rest = insert t us in
    if eq t u then u ∷ us else if text_ltb t u then t ∷ u ∷ us else u ∷ rest

abbrev pub qualified : Text → Option Text → Text
qualified rel none = rel
qualified rel (some schema) = if is_empty schema then rel else schema ++ (codes "." ++ rel)

abbrev pub name_in : Option Text → Option Text → Option Text
name_in none schema = none
name_in (some rel) schema = some (qualified rel schema)

-- The key of the relation that a node reads.
unfoldable pub table_of : Value → Option Text
unfolding get_str
table_of node = name_in (get_str node (codes "Relation Name")) (get_str node (codes "Schema"))

abbrev pub insert_some : Option Text → List Text → List Text
insert_some none tables = tables
insert_some (some t) tables = insert t tables

abbrev pub text_or_empty : Option Text → Text
text_or_empty none = []
text_or_empty (some t) = t

abbrev pub warning_for : Text → Text → ℕ → List Text
warning_for node_type rel rows =
    if eq node_type (codes "Seq Scan") && above rows wide_scan_rows
    then (codes "Seq Scan on `"
        ++ (rel
            ++ (codes "` estimated to read "
                ++ (decimal rows ++ codes " rows; an index may help"))))
      ∷ []
    else if eq node_type (codes "Nested Loop") && above rows huge_rows
    then (codes "Nested Loop estimated to produce "
        ++ (decimal rows ++ codes " rows; check join conditions"))
      ∷ []
    else []

abbrev pub warnings_of_type : Option Text → Value → List Text
warnings_of_type none node = []
warnings_of_type (some node_type) node =
    warning_for node_type (text_or_empty (get_str node (codes "Relation Name")))
      (or_else 0 (as_i64 (get node (codes "Plan Rows"))))

unfoldable pub node_warnings : Value → List Text
unfolding get_str get eq decimal
node_warnings node = warnings_of_type (get_str node (codes "Node Type")) node

abbrev pub Found : Type 0
Found = List Text × List Text

abbrev pub note : Value → Found → Found
note node (tables, warnings) = (insert_some (table_of node) tables, warnings ++ node_warnings node)

unfoldable mutual
  -- `walk`, with the tables and the warnings that it mutates. A node's children are what
  -- `.get("Plans").and_then(|v| v.as_array())` gives.
  pub walk : Value → Found → Found
  walk (object fs) found = walk_plans fs (note (object fs) found)
  walk null found = note null found
  walk (bool b) found = note (bool b) found
  walk (number n) found = note (number n) found
  walk (string s) found = note (string s) found
  walk (array items) found = note (array items) found

  pub walk_plans : Fields → Found → Found
  walk_plans end found = found
  walk_plans (field key v fs) found =
      let children = walk_array v found in
      let rest = walk_plans fs found in if eq key (codes "Plans") then children else rest

  pub walk_array : Value → Found → Found
  walk_array (array items) found = walk_items items found
  walk_array _ found = found

  pub walk_items : Items → Found → Found
  walk_items nil found = found
  walk_items (cons v items) found = walk_items items (walk v found)

abbrev pub with_estimate : ℕ → List Text → List Text
with_estimate est_rows warnings =
    if above est_rows huge_rows
    then (codes "estimated row count is high ("
        ++ (decimal est_rows ++ codes "); consider adding a LIMIT or stricter WHERE"))
      ∷ warnings
    else warnings

-- The default of the estimate is -1.
abbrev pub summary_of : ℕ → Found → PlanSummary
summary_of est_rows (tables, warnings) = record {
  est_rows = est_rows;
  tables = tables;
  warnings = with_estimate est_rows warnings;
}

abbrev pub summarize_root : Option Value → Option PlanSummary
summarize_root none = none
summarize_root (some root) =
    some (
      summary_of (or_else (2 ^ 64 - 1) (as_i64 (get root (codes "Plan Rows"))))
        (walk root ([], [])))

unfoldable pub summarize : Value → Option PlanSummary
unfolding get walk insert table_of node_warnings eq decimal
summarize plan_json = summarize_root (get plan_json (codes "Plan"))
