-- ===== src/SqlGuard/Classify.antt =====
-- `classify_statement` and `check_query_for_writes` of src/sql_guard/mod.rs.
pub mod Writes
use pg_ask.Prelude.{
  ℕ, Bool, true, false, List, [], ◌∷◌, ◌++◌, ◌==◌, if◌then◌else◌, Text, codes, not,
}
use pg_ask.Errors.{AskError, guard_rejected, Result, ok, err, done, ◌>>=◌, ◌>>◌}
use pg_ask.SqlGuard.Mode.{GuardMode, is_readonly}
use pg_ask.SqlGuard.Ast.{
  Query, query, With, no_with, ctes, Ctes, end, cte, SetExpr, insert_body, update_body, delete_body,
  other_body, query_body, Statement, query_stmt, explain, copy, insert, update, delete,
  create_table, create_view, create_index, drop_stmt, alter_table, truncate, create_schema,
  create_sequence, create_extension, other,
}

abbrev pub rejected : Text → Result (Unit {0})
rejected message = err (guard_rejected message)

-- The match on the body takes the check of the query's own `WITH` for its last branch.
mutual
  pub check_query_for_writes : Query → Result (Unit {0})
  check_query_for_writes (query w body) = check_body body (check_with w)

  pub check_body : SetExpr → Result (Unit {0}) → Result (Unit {0})
  check_body insert_body with_check =
      rejected (codes "INSERT inside a CTE is not allowed in readonly mode")
  check_body update_body with_check =
      rejected (codes "UPDATE inside a CTE is not allowed in readonly mode")
  check_body delete_body with_check =
      rejected (codes "DELETE inside a CTE is not allowed in readonly mode")
  check_body (query_body inner) with_check = check_query_for_writes inner
  check_body other_body with_check = with_check

  pub check_with : With → Result (Unit {0})
  check_with no_with = done
  check_with (ctes qs) = check_ctes qs

  pub check_ctes : Ctes → Result (Unit {0})
  check_ctes end = done
  check_ctes (cte q qs) = check_query_for_writes q >> check_ctes qs

-- The part of a debug form before the first `(`: `kind.split('(').next()`.
short_kind : Text → Text
short_kind [] = []
short_kind (c ∷ s) = let rest = short_kind s in if c == b'(' then [] else c ∷ rest

abbrev with_of : Query → With
with_of (query w body) = w

classify_write : GuardMode → Result (Unit {0})
classify_write mode =
    if is_readonly mode
    then rejected (codes "write statements are not allowed in readonly mode")
    else done

abbrev ddl_rejected : Result (Unit {0})
ddl_rejected = rejected (codes "DDL statements are not allowed")

unfoldable pub classify_statement : Statement → GuardMode → Result (Unit {0})
unfolding classify_write short_kind check_query_for_writes check_body check_with check_ctes
classify_statement (query_stmt q) mode = if is_readonly mode then check_with (with_of q) else done
classify_statement (explain statement) mode = classify_statement statement mode
classify_statement copy mode = rejected (codes "COPY is not allowed")
classify_statement insert mode = classify_write mode
classify_statement update mode = classify_write mode
classify_statement delete mode = classify_write mode
classify_statement create_table mode = ddl_rejected
classify_statement create_view mode = ddl_rejected
classify_statement create_index mode = ddl_rejected
classify_statement drop_stmt mode = ddl_rejected
classify_statement alter_table mode = ddl_rejected
classify_statement truncate mode = ddl_rejected
classify_statement create_schema mode = ddl_rejected
classify_statement create_sequence mode = ddl_rejected
classify_statement create_extension mode = ddl_rejected
classify_statement (other kind) mode =
    rejected (codes "statement type `" ++ (short_kind kind ++ codes "` is not allowed"))
