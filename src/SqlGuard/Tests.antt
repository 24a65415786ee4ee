-- ===== src/SqlGuard/Tests.antt =====
-- Runs of the guard of src/sql_guard on statements.
use pg_ask.Prelude.{
  none, some, [], ◌∷◌, ◌≡◌, refl, ◌↔◌, codes, eq, trim, if◌then◌else◌, any, eq_ignore_ascii_case,
  trim_quotes, to_ascii_lowercase, contains,
}
use pg_ask.Errors.{guard_rejected, ok, err, done}
use pg_ask.SqlGuard.Mode.{readonly, writable}
use pg_ask.SqlGuard.Ast.{
  Query, query, no_with, ctes, end, cte, delete_body, other_body, query_body, query_stmt, explain,
  relation, Parsed, SqlParser,
}
use pg_ask.SqlGuard.Lexer.{word, string, tokenize}
use pg_ask.SqlGuard.Rules.{
  single_statement, no_banned_functions, starts_with_allowed_verb, check_name, check_verb,
  first_word, is_allowed_verb, is_banned_name, leaf,
}
use pg_ask.SqlGuard.Visitors.{
  check_secrets, check_banned, visit, secrets_walker, banned_walker, normalized, listed,
}
use pg_ask.SqlGuard.Classify.{classify_statement}
use pg_ask.SqlGuard.Classify.Writes.{
  Modifies, in_body, in_with, by_delete, in_ctes, first, deleting, without, with_ctes, none_left,
  one_more, Permitted, classify_statement_iff, body_write_passes, hidden_with_passes,
}
use pg_ask.SqlGuard.Validate.{validate, check_shape, ast_checks}
use pg_ask.SqlGuard.Validate.Sound.{IsAccepted, validate_iff}

-- `SELECT * FROM orders`
abbrev select_orders : Parsed
select_orders = record {
  shape = query_stmt (query no_with other_body);
  nodes = relation (codes "orders" ∷ []) ∷ [];
}

-- `DELETE FROM orders RETURNING id`, as the query of a CTE
abbrev deleting_query : Query
deleting_query = query no_with delete_body

-- `WITH d AS (DELETE …) SELECT …`
abbrev delete_in_cte : Query
delete_in_cte = query (ctes (cte deleting_query end)) other_body

-- A parser that knows one statement.
abbrev parser : SqlParser
parser = record {
  parse_sql = λ s. if eq s (codes "SELECT * FROM orders") then some (select_orders ∷ []) else none;
}

tokenize_test : tokenize (codes "SELECT 'a; b' -- c;") ≡ word (codes "SELECT") ∷ string ∷ []
unfolding tokenize
tokenize_test = refl

validate_test :
    validate parser (codes " SELECT * FROM orders\n") readonly
    ≡ ok (record { sql = codes "SELECT * FROM orders" })
unfolding validate trim eq tokenize check_shape ast_checks check_secrets visit secrets_walker
    normalized listed any eq_ignore_ascii_case trim_quotes check_banned banned_walker
    classify_statement no_banned_functions check_name
validate_test = refl

validate_unparsed_test :
    validate parser (codes "SELECT pg_sleep(9)") writable
    ≡ err (guard_rejected (codes "function `pg_sleep` is not permitted"))
unfolding validate trim eq tokenize check_shape single_statement starts_with_allowed_verb
    no_banned_functions check_name check_verb first_word to_ascii_lowercase is_allowed_verb contains
    is_banned_name leaf
validate_unparsed_test = refl

validate_iff_example :
    (validate parser (codes " SELECT * FROM orders\n") readonly
      ≡ ok (record { sql = trim (codes " SELECT * FROM orders\n") }))
    ↔ IsAccepted
        (parser.parse_sql (trim (codes " SELECT * FROM orders\n")))
        (trim (codes " SELECT * FROM orders\n"))
        readonly
unfolding trim eq
validate_iff_example = validate_iff parser (codes " SELECT * FROM orders\n") readonly without

classify_statement_iff_example :
    (classify_statement (explain (query_stmt delete_in_cte)) readonly ≡ done)
    ↔ Permitted readonly (explain (query_stmt delete_in_cte))
classify_statement_iff_example =
    classify_statement_iff (explain (query_stmt delete_in_cte)) readonly
      (with_ctes (one_more (deleting without) none_left))

body_write_passes_example :
    (classify_statement (query_stmt deleting_query) readonly ≡ done)
    × (classify_statement (explain (query_stmt deleting_query)) readonly ≡ done)
    × Modifies deleting_query
body_write_passes_example = body_write_passes no_with delete_body (λ m. elim m [ ]) by_delete

reads_only : Modifies (query no_with other_body) → ⊥
reads_only (in_body m) = elim m [ ]
reads_only (in_with m) = elim m [ ]

hidden_with_passes_example :
    (classify_statement
        (query_stmt (
          query
            (ctes (
              cte
                (query (ctes (cte deleting_query end)) (query_body (query no_with other_body)))
                end))
            other_body))
        readonly
      ≡ done)
    × Modifies (query (ctes (cte deleting_query end)) (query_body (query no_with other_body)))
hidden_with_passes_example =
    hidden_with_passes (ctes (cte deleting_query end)) (query no_with other_body) reads_only
      (in_ctes (first (in_body by_delete)))
