-- ===== src/Tools/SqlQuery/Tests.antt =====
-- Runs of the tool `sql_query`.
use pg_ask.Tools.Render.{format_table, run_to_table, wrap_with_cap}
use pg_ask.SqlGuard.Rules.{
  check_name, check_verb, first_word, is_allowed_verb, is_banned_name, leaf, no_banned_functions,
  seen_non_semi_after_semi, single_statement, starts_with_allowed_verb,
}
use pg_ask.SqlGuard.Lexer.{tokenize}
use pg_ask.SqlGuard.Classify.{classify_statement}
use pg_ask.SqlGuard.Visitors.{
  check_secrets, visit, secrets_walker, normalized, listed, check_banned, banned_walker,
  check_function_call, is_protected_guc, matches_banned,
}
use pg_ask.SqlGuard.Validate.{validate, check_shape, ast_checks}
use pg_ask.Prelude.{
  Bool, true, false, none, some, [], ◌∷◌, ◌≡◌, refl, codes, eq, if◌then◌else◌, trim, any,
  eq_ignore_ascii_case, trim_quotes, decimal, contains, starts_with, to_ascii_lowercase,
}
use pg_ask.Errors.{display}
use pg_ask.Checked.{pass}
use pg_ask.Json.{Value, string, object, field, end, get_str, Serde, get, lookup}
use pg_ask.SqlGuard.Ast.{query, no_with, other_body, query_stmt, relation, SqlParser}
use pg_ask.Subtxn.{run_in_subtransaction}
use pg_ask.Tools.SqlQuery.{
  SqlQueryTool, audit_insert, set_local, select, audit_update, answered, raises, State, Db, invoke,
  run_validated, after_insert, after_mark, after_rows, after_update, apply_per_call_gucs,
  audit_finish, log_into, query_body, run_all, run_audited, run_query_to_text, run_table,
  run_update,
}
use pg_ask.Tools.SqlQuery.Logged.{Logged}

abbrev parser : SqlParser
parser = record {
  parse_sql = λ s.
      if eq s (codes "SELECT n FROM t")
      then some (
          record {
            shape = query_stmt (query no_with other_body);
            nodes = relation (codes "t" ∷ []) ∷ [];
          }
          ∷ [])
      else none;
}

abbrev serde : Serde
serde = record {
  to_string = λ v. codes "0";
  to_string_pretty = λ v. codes "0";
  from_str = λ s. pass (object (field (codes "n") (string s) end));
}

abbrev tool : Bool → SqlQueryTool
tool r = record {
  is_readonly = r;
  max_rows = 10;
  statement_timeout_ms = 500;
  sensitive_columns = [];
  search_path = [];
}

abbrev db : Db
db = record {
  insert = λ q r b. answered (some 7);
  update = λ s b. answered tt;
  rows = λ q n b. answered (some (codes "1") ∷ []);
  now_ms = λ b. 0;
}

-- The query raises an ERROR.
abbrev failing_db : Db
failing_db = record db { rows = λ q n b. raises (codes "timeout") }

abbrev args : Value
args = object (field (codes "query") (string (codes " SELECT n FROM t ")) end)

abbrev idle : State
idle = record { outer = []; levels = []; memory_context = 1; resource_owner = 1 }

readonly_test :
    (invoke db parser serde (tool true) args idle).1.outer
    ≡ audit_insert (codes "SELECT n FROM t") true
      ∷ set_local (codes "SET LOCAL statement_timeout = 500")
      ∷ set_local (codes "SET LOCAL transaction_read_only = on")
      ∷ select
          (codes "SELECT row_to_json(_pg_ask_t)::text FROM (SELECT n FROM t) AS _pg_ask_t LIMIT $1")
          11
      ∷ []
unfolding invoke get_str eq run_validated validate trim check_shape ast_checks check_secrets visit
    secrets_walker normalized listed any eq_ignore_ascii_case trim_quotes check_banned display get
    lookup decimal contains starts_with to_ascii_lowercase classify_statement tokenize check_name
    check_verb first_word is_allowed_verb is_banned_name leaf no_banned_functions
    seen_non_semi_after_semi single_statement starts_with_allowed_verb banned_walker
    check_function_call is_protected_guc matches_banned run_in_subtransaction format_table
    run_to_table wrap_with_cap after_insert after_mark after_rows after_update apply_per_call_gucs
    audit_finish log_into query_body run_all run_audited run_query_to_text run_table run_update
readonly_test = refl

raised_test :
    (invoke failing_db parser serde (tool false) args idle).1.outer
    ≡ audit_insert (codes "SELECT n FROM t") false
      ∷ audit_update 7 0 (some (codes "SQL error: timeout"))
      ∷ []
unfolding invoke get_str eq run_validated validate trim check_shape ast_checks check_secrets visit
    secrets_walker normalized listed any eq_ignore_ascii_case trim_quotes check_banned display get
    lookup decimal contains starts_with to_ascii_lowercase classify_statement tokenize check_name
    check_verb first_word is_allowed_verb is_banned_name leaf no_banned_functions
    seen_non_semi_after_semi single_statement starts_with_allowed_verb banned_walker
    check_function_call is_protected_guc matches_banned run_in_subtransaction format_table
    run_to_table wrap_with_cap after_insert after_mark after_rows after_update apply_per_call_gucs
    audit_finish log_into query_body run_all run_audited run_query_to_text run_table run_update
raised_test = refl
