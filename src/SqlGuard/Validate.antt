-- ===== src/SqlGuard/Validate.antt =====
-- `validate` and `ast_checks` of src/sql_guard/mod.rs. `ValidatedSql` is the trimmed text.
pub mod Sound
pub mod Modes
use pg_ask.Prelude.{
  is_empty, Bool, true, false, Option, none, some, List, [], ◌∷◌, if◌then◌else◌, Text, codes, trim,
}
use pg_ask.Errors.{AskError, guard_rejected, Result, ok, err, done, ◌>>=◌, ◌>>◌}
use pg_ask.SqlGuard.Mode.{GuardMode}
use pg_ask.SqlGuard.Ast.{Parsed, SqlParser}
use pg_ask.SqlGuard.Visitors.{check_secrets, check_banned}
use pg_ask.SqlGuard.Classify.{classify_statement}
use pg_ask.SqlGuard.Lexer.{tokenize}
use pg_ask.SqlGuard.Rules.{single_statement, starts_with_allowed_verb, no_banned_functions}

pub record ValidatedSql : Type 0 where
  pub sql : Text

abbrev pub as_str : ValidatedSql → Text
as_str v = v.sql

unfoldable pub ast_checks : List Parsed → GuardMode → Result (Unit {0})
ast_checks (stmt ∷ []) mode = do
  check_secrets stmt
  check_banned stmt
  classify_statement stmt.shape mode
ast_checks _ mode = err (guard_rejected (codes "only one statement allowed"))

-- The match on the parser's answer; the lexer's rules stand in where it cannot parse.
unfoldable pub check_shape : Option (List Parsed) → Text → GuardMode → Result (Unit {0})
check_shape (some stmts) trimmed mode = ast_checks stmts mode
check_shape none trimmed mode = do
  single_statement (tokenize trimmed)
  starts_with_allowed_verb (tokenize trimmed) mode

module _ (parser : SqlParser) where
  unfoldable pub validate : Text → GuardMode → Result ValidatedSql
  validate sql mode =
      let trimmed = trim sql in
      if is_empty trimmed then err (guard_rejected (codes "empty statement")) else do
        check_shape (parser.parse_sql trimmed) trimmed mode
        no_banned_functions (tokenize trimmed)
        ok (record { sql = trimmed })
