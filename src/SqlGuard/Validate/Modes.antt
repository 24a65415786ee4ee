-- ===== src/SqlGuard/Validate/Modes.antt =====
-- The two modes of `validate` of src/sql_guard/mod.rs compared.
use pg_ask.Prelude.{Option, none, some, List, [], ◌∷◌, ◌≡◌, arith, Text, trim}
use pg_ask.Errors.{ok, done, >>-eq-ok}
use pg_ask.SqlGuard.Mode.{readonly, writable}
use pg_ask.SqlGuard.Lexer.{tokenize}
use pg_ask.SqlGuard.Rules.{single_statement, is_allowed_verb, check_verb, starts_with_allowed_verb}
use pg_ask.SqlGuard.Ast.{Parsed, SqlParser, Statement, explain}
use pg_ask.SqlGuard.Visitors.{check_secrets, check_banned}
use pg_ask.SqlGuard.Classify.{classify_statement}
use pg_ask.SqlGuard.Validate.{ValidatedSql, ast_checks, check_shape, validate}
use pg_ask.SqlGuard.Validate.Sound.{guarded}

classify_mode :
    (s : Statement) → classify_statement s readonly ≡ done → classify_statement s writable ≡ done
unfolding classify_statement
classify_mode (explain s) h = classify_mode s h
classify_mode _ h = ground arith

check_verb_mode : (o : Option Text) → check_verb readonly o ≡ done → check_verb writable o ≡ done
unfolding check_verb is_allowed_verb
check_verb_mode none h = cc
check_verb_mode (some w) h = ground arith

shape_mode :
    (answer : Option (List Parsed)) (t : Text)
    → check_shape answer t readonly ≡ done
    → check_shape answer t writable ≡ done
unfolding check_shape ast_checks starts_with_allowed_verb
shape_mode none t h =
    let (s, v) = >>-eq-ok (single_statement (tokenize t)) _ h in rw s (check_verb_mode _ v)
shape_mode (some []) t h = h
shape_mode (some (stmt ∷ [])) t h =
    let (s, rest) = >>-eq-ok (check_secrets stmt) _ h in
    let (b, c) = >>-eq-ok (check_banned stmt) _ rest in rw (s, b) (classify_mode stmt.shape c)
shape_mode (some (stmt ∷ other ∷ more)) t h = h

-- Readonly mode is the stricter one: what `validate` accepts in readonly mode it accepts in
-- writable mode too, with the same text.
pub validate_readonly_stricter :
    (parser : SqlParser) (sql : Text) (v : ValidatedSql)
    → validate parser sql readonly ≡ ok v
    → validate parser sql writable ≡ ok v
unfolding validate
validate_readonly_stricter parser sql v h =
    let (e, s, f, r) = guarded parser sql readonly v h in rw (e, shape_mode _ (trim sql) s, f, r)
