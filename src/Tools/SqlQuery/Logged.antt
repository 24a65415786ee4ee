-- ===== src/Tools/SqlQuery/Logged.antt =====
-- Which statements `SqlQueryTool::invoke` of src/tools/sql_query.rs sends to the database.
use pg_ask.Prelude.{ℕ, Bool, false, Option, List, [], ◌∷◌, ◌++◌, ◌≡◌, Text}
use pg_ask.Errors.{ok}
use pg_ask.Json.{Serde}
use pg_ask.SqlGuard.Ast.{SqlParser}
use pg_ask.SqlGuard.Validate.{ValidatedSql, validate}
use pg_ask.Tools.SqlQuery.{SqlQueryTool, Statement, audit_insert, audit_update, State, Db, mode_of}
use pg_ask.Tools.SqlQuery.Inner.{Inner}

-- What runs behind it: in readonly mode nothing, else at most the update of the audit row.
pub data Finish (is_readonly : Bool) : List Statement → Type 0 where
  unmarked : Finish is_readonly []
  marked :
      (id latency_ms : ℕ) (error : Option Text)
      → is_readonly ≡ false
      → Finish is_readonly (audit_update id latency_ms error ∷ [])

-- The statements of one call: none, or the audit row of a text that the guard has accepted, the
-- statements inside, and the ones behind.
pub data Logged (parser : SqlParser) (serde : Serde) (tool : SqlQueryTool) (raw : Text)
    : List Statement → Type 0 where
  nothing : Logged parser serde tool raw []
  audited :
      (v : ValidatedSql) (inner fin : List Statement)
      → validate parser raw (mode_of tool) ≡ ok v
      → Inner serde tool v.sql inner
      → Finish tool.is_readonly fin
      → Logged parser serde tool raw (audit_insert v.sql tool.is_readonly ∷ (inner ++ fin))

-- The statements run at the top level of the call's transaction, with no level left open.
record Adds (b after : State) (added : List Statement) : Type 0 where
  outer : after.outer ≡ b.outer ++ added
  closed : after.levels ≡ []

module _ (db : Db) (serde : Serde) (tool : SqlQueryTool) where
  record Isolated (query : Text) (b after : State) : Type 0 where
    inner : List Statement
    adds : Adds b after inner
    is_inner : Inner serde tool query inner

  record Finished (is_readonly : Bool) (b after : State) : Type 0 where
    fin : List Statement
    adds : Adds b after fin
    is_finish : Finish is_readonly fin

  -- What one call adds.
  record Called (parser : SqlParser) (raw : Text) (b after : State) : Type 0 where
    added : List Statement
    adds : Adds b after added
    is_logged : Logged parser serde tool raw added
