-- ===== src/Planner/Tests.antt =====
-- Runs of the preview of src/planner.
use pg_ask.Prelude.{ℕ, some, none, [], ◌∷◌, ◌≡◌, ◌↔◌, refl, Text, codes, eq}
use pg_ask.Json.{Value, string, number, array, object, nil, cons, field, end, lookup, get}
use pg_ask.SqlGuard.Ast.{no_with, query, other_body, query_stmt, relation, SqlParser}
use pg_ask.Planner.Strip.{strip_leading_explain}
use pg_ask.Planner.Analysis.{PlanSummary, summarize}
use pg_ask.Planner.Analysis.Order.{Has, IsSorted}
use pg_ask.Planner.Analysis.Tables.{Reads, summarize-Reads}

strip_test :
    strip_leading_explain (codes "explain analyze buffers select * from t")
    ≡ codes "select * from t"
unfolding strip_leading_explain
strip_test = refl

strip_parens_test :
    strip_leading_explain (codes "EXPLAIN (FORMAT JSON) SELECT 1") ≡ codes "SELECT 1"
unfolding strip_leading_explain
strip_parens_test = refl

strip_none_test : strip_leading_explain (codes "SELECT 1") ≡ codes "SELECT 1"
unfolding strip_leading_explain
strip_none_test = refl

abbrev count : ℕ → Text → Value
count n t = number (record { as_i64 = some n; as_f64 = none; text = t })

abbrev scan : Text → ℕ → Text → Value
scan rel n t = object (
    field (codes "Node Type") (string (codes "Seq Scan")) (
      field (codes "Schema") (string (codes "public"))
        (field (codes "Relation Name") (string rel) (field (codes "Plan Rows") (count n t) end))))

-- A join that reads two tables, one of them twice.
abbrev join : Value
join = object (
    field (codes "Node Type") (string (codes "Hash Join")) (
      field (codes "Plan Rows") (count 250000 (codes "250000")) (
        field (codes "Plans")
          (array (
            cons (scan (codes "users") 20000 (codes "20000")) (
              cons (scan (codes "orders") 5 (codes "5"))
                (cons (scan (codes "users") 7 (codes "7")) nil))))
          end)))

abbrev plan_json : Value
plan_json = object (field (codes "Plan") join end)

abbrev the_summary : PlanSummary
the_summary = record {
  est_rows = 250000;
  tables = codes "public.orders" ∷ codes "public.users" ∷ [];
  warnings =
      codes "estimated row count is high (250000); consider adding a LIMIT or stricter WHERE"
      ∷ codes "Seq Scan on `users` estimated to read 20000 rows; an index may help"
      ∷ [];
}

summarize_test : summarize plan_json ≡ some the_summary
unfolding summarize
summarize_test = refl

summarize-Reads_example :
    IsSorted the_summary.tables × ((t : Text) → Has t the_summary.tables ↔ Reads join t)
unfolding lookup eq get
summarize-Reads_example = summarize-Reads plan_json join the_summary refl summarize_test

abbrev parser : SqlParser
parser = record {
  parse_sql = λ s. some (
      record {
        shape = query_stmt (query no_with other_body);
        nodes = relation (codes "orders" ∷ []) ∷ [];
      }
      ∷ []);
}
