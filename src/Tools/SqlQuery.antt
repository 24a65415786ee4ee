-- ===== src/Tools/SqlQuery.antt =====
-- src/tools/sql_query.rs: the tool that runs the model's SQL. What the database does with a
-- statement is an answer of the parameter `Db`; what it has done is the log of the open levels.
pub mod Inner
pub mod Logged
pub mod Tests
use pg_ask.Prelude.{
  ℕ, ◌-◌, ◌%◌, ◌^◌, Bool, true, false, Option, none, some, List, [], ◌∷◌, ◌++◌, if◌then◌else◌,
  is_empty, Text, codes, decimal,
}
use pg_ask.Errors.{AskError, tool_failed, sql, Result, ok, err, display}
use pg_ask.Checked.{Checked, pass, fail}
use pg_ask.Json.{Value, get_str, Serde}
use pg_ask.SqlGuard.Mode.{GuardMode, readonly, writable}
use pg_ask.SqlGuard.Ast.{SqlParser}
use pg_ask.SqlGuard.Validate.{ValidatedSql, validate}
use pg_ask.Subtxn.{Exit, returned, raised, Backend, run_in_subtransaction}
use pg_ask.Tools.Output.{ToolOutput, shown, failure}
use pg_ask.Tools.Render.{RenderedTable, wrap_with_cap, cap_plus_one, run_to_table}

pub record SqlQueryTool : Type 0 where
  pub is_readonly : Bool
  pub max_rows : ℕ
  pub statement_timeout_ms : ℕ
  pub sensitive_columns : List Text
  pub search_path : Text

-- The statements that the tool sends. An audit row is named by its `Uuid`, here a number.
pub data Statement : Type 0 where
  audit_insert : Text → Bool → Statement
  set_local : Text → Statement
  select : Text → ℕ → Statement
  audit_update : ℕ → ℕ → Option Text → Statement

-- SPI answers, fails with an error value, or raises a PostgreSQL ERROR.
pub data Answer (T : Type 0) : Type 0 where
  answered : T → Answer T
  failed raises : Text → Answer T

abbrev pub State : Type 0
State = Backend Statement

pub record Db : Type 0 where
  pub insert : Text → Bool → State → Answer (Option ℕ)
  pub update : Statement → State → Answer (Unit {0})
  pub rows : Text → ℕ → State → Answer (List (Option Text))
  pub now_ms : State → ℕ

-- A statement that was run joins the innermost open level.
pub log_into : List (List Statement) → Statement → State → State
log_into [] s b = record b { outer = b.outer ++ s ∷ [] }
log_into (ws ∷ rest) s b = record b { levels = (ws ++ s ∷ []) ∷ rest }

abbrev pub log : Statement → State → State
log s b = log_into b.levels s b

-- The operator `?` behind a statement.
abbrev pub and_then :
    {T : Type 0} → Exit (Unit {0}) × State → (State → Exit T × State) → Exit T × State
and_then (returned (ok u), b) f = f b
and_then (returned (err e), b) f = (returned (err e), b)
and_then (raised e, b) f = (raised e, b)

abbrev pub set_timeout : ℕ → Statement
set_timeout ms = set_local (codes "SET LOCAL statement_timeout = " ++ decimal ms)

abbrev pub set_search_path : Text → Statement
set_search_path path = set_local (codes "SET LOCAL search_path = " ++ path)

abbrev pub set_read_only : Statement
set_read_only = set_local (codes "SET LOCAL transaction_read_only = on")

abbrev pub only_if : Bool → Statement → List Statement
only_if b s = if b then s ∷ [] else []

-- The statements of `apply_per_call_gucs`.
abbrev pub gucs : SqlQueryTool → List Statement
gucs tool =
    set_timeout tool.statement_timeout_ms
    ∷ ((if is_empty tool.search_path then [] else set_search_path tool.search_path ∷ [])
        ++ only_if tool.is_readonly set_read_only)

-- `.map_err(AskError::Sql)`
abbrev pub table_exit : Checked RenderedTable → Exit RenderedTable
table_exit (pass t) = returned (ok t)
table_exit (fail e) = returned (err (sql e))

abbrev pub error_of : Result RenderedTable → Option Text
error_of (ok t) = none
error_of (err e) = some (display e)

abbrev pub text_of : Result RenderedTable → Checked Text
text_of (ok t) = pass t.text
text_of (err e) = fail (display e)

-- What `run_query_to_text` gives behind `audit_finish`, which may have raised.
abbrev pub flatten_raise : Option Text → Checked Text → Exit (Checked Text)
flatten_raise none text = returned (ok text)
flatten_raise (some e) text = raised e

abbrev pub output : Exit (Checked Text) → Exit ToolOutput
output (returned (ok (pass text))) = returned (ok (shown text))
output (returned (ok (fail e))) = returned (ok (failure (codes "query failed: " ++ e)))
output (returned (err e)) = returned (err e)
output (raised e) = raised e

abbrev pub mode_of : SqlQueryTool → GuardMode
mode_of tool = if tool.is_readonly then readonly else writable

pub after_update : Statement → State → Answer (Unit {0}) → Exit (Unit {0}) × State
after_update s b (answered u) = (returned (ok tt), log s b)
after_update s b (failed e) = (returned (err (sql e)), b)
after_update s b (raises e) = (raised e, b)

pub after_rows :
    Serde → SqlQueryTool → Text → State → Answer (List (Option Text)) → Exit RenderedTable × State
after_rows serde tool query b (raises e) = (raised e, b)
after_rows serde tool query b (failed e) = (
  table_exit (run_to_table serde (λ text cap. fail e) query tool.max_rows tool.sensitive_columns),
  b,
)
after_rows serde tool query b (answered rows) = (
  table_exit
      (run_to_table serde (λ text cap. pass rows) query tool.max_rows tool.sensitive_columns),
  log (select (wrap_with_cap query) (cap_plus_one serde tool.max_rows)) b,
)

-- A failure of the audit's update is a warning only; a raised ERROR leaves the function.
pub after_mark : Statement → State → Answer (Unit {0}) → Option Text × State
after_mark s b (answered u) = (none, log s b)
after_mark s b (failed e) = (none, b)
after_mark s b (raises e) = (some e, b)

module _ (db : Db) where
  pub run_update : Statement → State → Exit (Unit {0}) × State
  run_update s b = after_update s b (db.update s b)

  -- One statement after the other, up to the first that does not succeed.
  pub run_all : List Statement → State → Exit (Unit {0}) × State
  run_all [] b = (returned (ok tt), b)
  run_all (s ∷ ss) b = and_then (run_update s b) (run_all ss)

  pub apply_per_call_gucs : SqlQueryTool → State → Exit (Unit {0}) × State
  apply_per_call_gucs tool b = run_all (gucs tool) b

  pub run_table : Serde → SqlQueryTool → Text → State → Exit RenderedTable × State
  run_table serde tool query b =
      after_rows serde tool query b
        (db.rows (wrap_with_cap query) (cap_plus_one serde tool.max_rows) b)

  -- The body of the subtransaction.
  pub query_body : Serde → SqlQueryTool → Text → State → Exit RenderedTable × State
  query_body serde tool query b = and_then (apply_per_call_gucs tool b) (run_table serde tool query)

  pub audit_finish : Option ℕ → Bool → ℕ → Option Text → State → Option Text × State
  audit_finish none is_readonly latency_ms error b = (none, b)
  audit_finish (some id) is_readonly latency_ms error b =
      if is_readonly
      then (none, b)
      else let s = audit_update id latency_ms error in after_mark s b (db.update s b)

  pub run_audited : Serde → SqlQueryTool → Text → Option ℕ → State → Exit (Checked Text) × State
  run_audited serde tool query audit_id b =
      let (result, after) = run_in_subtransaction (query_body serde tool query) b in
      let latency_ms = (db.now_ms after - db.now_ms b) % 2 ^ 64 in
      let (raise, end) =
        audit_finish audit_id tool.is_readonly latency_ms (error_of result) after in
      (flatten_raise raise (text_of result), end)

  pub after_insert :
      Serde → SqlQueryTool → Text → State → Answer (Option ℕ) → Exit (Checked Text) × State
  after_insert serde tool query b (raises e) = (raised e, b)
  after_insert serde tool query b (failed e) = (returned (ok (fail e)), b)
  after_insert serde tool query b (answered id) =
      run_audited serde tool query id (log (audit_insert query tool.is_readonly) b)

  pub run_query_to_text : Serde → SqlQueryTool → Text → State → Exit (Checked Text) × State
  run_query_to_text serde tool query b =
      after_insert serde tool query b (db.insert query tool.is_readonly b)

  pub run_validated : Serde → SqlQueryTool → Result ValidatedSql → State → Exit ToolOutput × State
  run_validated serde tool (err e) b = (returned (ok (failure (display e))), b)
  run_validated serde tool (ok v) b =
      let (exit, after) = run_query_to_text serde tool v.sql b in (output exit, after)

  pub invoke : SqlParser → Serde → SqlQueryTool → Value → State → Exit ToolOutput × State
  invoke parser serde tool args b = elim (get_str args (codes "query")) [
    | none ↦ (
      returned (err (tool_failed (codes "sql_query") (codes "missing required argument `query`"))),
      b,
    )
    | some raw ↦ run_validated serde tool (validate parser raw (mode_of tool)) b
  ]
