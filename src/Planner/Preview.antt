-- ===== src/Planner/Preview.antt =====
-- `preview` of src/planner/mod.rs and `run` of src/planner/explain.rs. The rows of the EXPLAIN,
-- which runs read-only in a subtransaction with a time limit, are a parameter.
pub mod Guarded
use pg_ask.Prelude.{
  ℕ, Bool, true, false, Option, none, some, List, [], ◌∷◌, ◌++◌, Text, codes, trim,
}
use pg_ask.Checked.{Checked, pass, fail}
use pg_ask.Errors.{AskError, sql, Result, ok, err}
use pg_ask.Json.{Value, array, Items, nil, cons}
use pg_ask.SqlGuard.Ast.{SqlParser}
use pg_ask.SqlGuard.Mode.{readonly}
use pg_ask.SqlGuard.Validate.{ValidatedSql, validate}
use pg_ask.Planner.Strip.{strip_leading_explain}
use pg_ask.Planner.Analysis.{PlanSummary, summarize}

pub record PreviewRow : Type 0 where
  pub generated_sql : Text
  pub summary : PlanSummary

-- What `row.get::<Json>(1)` gives for each row.
abbrev pub PlanRow : Type 0
PlanRow = Checked (Option Value)

-- `parsed.as_array().and_then(|a| a.first().cloned())`
abbrev pub first_plan : Value → Result Value
first_plan (array (cons plan items)) = ok plan
first_plan _ = err (sql (codes "EXPLAIN JSON not an array"))

abbrev pub read_plan : List PlanRow → Result Value
read_plan [] = err (sql (codes "EXPLAIN returned no rows"))
read_plan (fail e ∷ rows) = err (sql (codes "EXPLAIN read failed: " ++ e))
read_plan (pass none ∷ rows) = err (sql (codes "EXPLAIN row had no payload"))
read_plan (pass (some parsed) ∷ rows) = first_plan parsed

abbrev pub row_of : Text → Option PlanSummary → Result PreviewRow
row_of cleaned none = err (sql (codes "EXPLAIN returned an unexpected JSON shape"))
row_of cleaned (some summary) = ok (record { generated_sql = cleaned; summary = summary })

abbrev pub explained : Result (List PlanRow) → Result Value
explained (ok rows) = read_plan rows
explained (err e) = err e

abbrev pub explain_text : Text → Text
explain_text query = codes "EXPLAIN (FORMAT JSON, VERBOSE) " ++ query

module _ {World : Type 0} (parser : SqlParser)
    (select : Text → World → Result (List PlanRow) × World) where
  unfoldable pub run : Text → World → Result Value × World
  run query w = let (rows, w') = select (explain_text query) w in (explained rows, w')

  unfoldable pub summarized : Text → Result Value → Result PreviewRow
  summarized cleaned (err e) = err e
  summarized cleaned (ok plan_json) = row_of cleaned (summarize plan_json)

  unfoldable pub planned : Text → Result ValidatedSql → World → Result PreviewRow × World
  planned cleaned (err e) w = (err e, w)
  planned cleaned (ok validated) w =
      let (plan, w') = run validated.sql w in (summarized cleaned plan, w')

  unfoldable pub preview : Text → World → Result PreviewRow × World
  unfolding strip_leading_explain validate summarize run summarized planned
  preview raw_sql w =
      let cleaned = strip_leading_explain (trim raw_sql) in
      planned cleaned (validate parser cleaned readonly) w
