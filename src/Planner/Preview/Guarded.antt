-- ===== src/Planner/Preview/Guarded.antt =====
-- What `preview` sends to the database.
use pg_ask.Prelude.{◌≡◌, ◌⊎◌, List, Text, trim}
use pg_ask.Errors.{AskError, Result, err}
use pg_ask.SqlGuard.Ast.{SqlParser}
use pg_ask.SqlGuard.Mode.{readonly}
use pg_ask.SqlGuard.Validate.Sound.{IsAccepted}
use pg_ask.Planner.Strip.{strip_leading_explain}
use pg_ask.Planner.Preview.{PlanRow, PreviewRow, explain_text}

module _ {World : Type 0} (parser : SqlParser)
    (select : Text → World → Result (List PlanRow) × World) where
  abbrev pub cleaned : Text → Text
  cleaned raw = strip_leading_explain (trim raw)

  -- One EXPLAIN of an acceptable read-only statement, or an error without a statement.
  abbrev pub Sends : Text → World → Result PreviewRow × World → Type 0
  Sends query w (result, w') =
      (IsAccepted (parser.parse_sql (trim query)) (trim query) readonly
        × (w' ≡ (select (explain_text (trim query)) w).1))
      ⊎ ((e : AskError) × (result ≡ err e) × (w' ≡ w))
