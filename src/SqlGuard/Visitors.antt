-- ===== src/SqlGuard/Visitors.antt =====
-- `secrets_visitor` and `banned_funcs_visitor` of src/sql_guard/mod.rs.
pub mod Sound
use pg_ask.Prelude.{
  ℕ, Bool, true, false, not, ◌&&◌, ◌||◌, Option, none, some, List, [], ◌∷◌, ◌++◌, if◌then◌else◌,
  any, last?, Text, codes, ellipsis, starts_with, eq_ignore_ascii_case, to_ascii_lowercase,
  trim_quotes,
}
use pg_ask.Errors.{AskError, guard_rejected, Result, ok, err, done}
use pg_ask.SqlGuard.Ast.{
  ObjectName, Value, single_quoted, double_quoted, escaped, national, dollar_quoted, other_value,
  FunctionArgExpr, value_expr, other_expr, FunctionArg, named, expr_named, unnamed,
  FunctionArguments, arg_list, other_args, Function, Node, relation, call, expr, Parsed,
}

-- `stmt.visit(&mut v)`: the first `ControlFlow::Break`, if a node gives one.
unfoldable pub visit : (Node → Option Text) → List Node → Option Text
visit f [] = none
visit f (n ∷ ns) = let rest = visit f ns in elim (f n) [ some msg ↦ some msg | none ↦ rest ]

abbrev pub check_break : Option Text → Result (Unit {0})
check_break none = done
check_break (some msg) = err (guard_rejected msg)

-- The last part of a dotted name, lowercased and without its quotes.
unfoldable pub normalized : ObjectName → Option Text
normalized name = elim (last? name) [
  | none ↦ none
  | some part ↦ some (trim_quotes (to_ascii_lowercase part))
]

-- `list.iter().any(|b| b.eq_ignore_ascii_case(name))`
unfoldable pub listed : List Text → Text → Bool
listed list name = any (λ b. eq_ignore_ascii_case b name) list

abbrev pub banned_relations : List Text
banned_relations =
    codes "pg_settings"
    ∷ codes "pg_file_settings"
    ∷ codes "pg_db_role_setting"
    ∷ codes "pg_hba_file_rules"
    ∷ codes "pg_ident_file_mappings"
    ∷ codes "pg_shadow"
    ∷ codes "pg_authid"
    ∷ codes "pg_user_mapping"
    ∷ []

abbrev pub guc_functions : List Text
guc_functions = codes "current_setting" ∷ codes "set_config" ∷ []

abbrev pub protected_prefixes : List Text
protected_prefixes = codes "pg_ask." ∷ codes "vault." ∷ codes "app.secrets." ∷ []

unfoldable pub is_protected_guc : Text → Bool
is_protected_guc name = any (starts_with (to_ascii_lowercase name)) protected_prefixes

abbrev pub arg_expr : FunctionArg → FunctionArgExpr
arg_expr (named arg) = arg
arg_expr (expr_named arg) = arg
arg_expr (unnamed e) = e

abbrev pub literal : FunctionArgExpr → Option Text
literal (value_expr (single_quoted s)) = some s
literal (value_expr (double_quoted s)) = some s
literal (value_expr (escaped s)) = some s
literal (value_expr (national s)) = some s
literal (value_expr (dollar_quoted s)) = some s
literal _ = none

abbrev pub first_arg_string : FunctionArguments → Option Text
first_arg_string (arg_list (first ∷ rest)) = literal (arg_expr first)
first_arg_string _ = none

guc_message : Text → Option Text → Option Text
guc_message name none = some (
    codes "`"
    ++ (name
        ++ (codes "("
            ++ (ellipsis
                ++ codes ")` requires a string literal first argument when used by the model"))))
guc_message name (some s) =
    if not (is_protected_guc s)
    then none
    else some (
        codes "`"
        ++ (name
            ++ (codes "("
                ++ (ellipsis
                    ++ (codes ")` on GUC `"
                        ++ (s ++ codes "` is not allowed (extension-internal namespace)"))))))

check_function_name : Option Text → FunctionArguments → Option Text
check_function_name none args = none
check_function_name (some name) args =
    if not (listed guc_functions name) then none else guc_message name (first_arg_string args)

-- `check_function_call`
unfoldable pub check_function_call : Function → Option Text
unfolding check_function_name guc_message
check_function_call func = check_function_name (normalized func.name) func.args

relation_message : Option Text → Option Text
relation_message none = none
relation_message (some name) =
    if listed banned_relations name
    then some (
        codes "access to system catalog `"
        ++ (name ++ codes "` is not allowed (would expose GUCs / secrets)"))
    else none

-- `Walker` of `secrets_visitor`: `pre_visit_relation` and `pre_visit_expr`
unfoldable pub secrets_walker : Node → Option Text
unfolding relation_message
secrets_walker (relation name) = relation_message (normalized name)
secrets_walker (call func) = check_function_call func
secrets_walker expr = none

-- `secrets_visitor::check`
unfoldable pub check_secrets : Parsed → Result (Unit {0})
check_secrets stmt = check_break (visit secrets_walker stmt.nodes)

abbrev pub banned : List Text
banned =
    codes "pg_sleep"
    ∷ codes "pg_sleep_for"
    ∷ codes "pg_sleep_until"
    ∷ codes "pg_read_file"
    ∷ codes "pg_read_binary_file"
    ∷ codes "pg_ls_dir"
    ∷ codes "pg_stat_file"
    ∷ codes "lo_import"
    ∷ codes "lo_export"
    ∷ codes "dblink"
    ∷ codes "dblink_exec"
    ∷ codes "dblink_open"
    ∷ codes "pg_terminate_backend"
    ∷ codes "pg_cancel_backend"
    ∷ codes "pg_reload_conf"
    ∷ codes "pg_rotate_logfile"
    ∷ codes "pg_advisory_lock"
    ∷ codes "pg_advisory_unlock_all"
    ∷ []

banned_message : Option Text → Option Text
banned_message none = none
banned_message (some name) =
    if listed banned name
    then some (
        codes "function `"
        ++ (name
            ++ codes "` is on the deny-list (quoted or schema-qualified forms are not a bypass)"))
    else none

-- `matches_banned`
unfoldable pub matches_banned : Function → Option Text
unfolding banned_message
matches_banned func = banned_message (normalized func.name)

-- `Walker` of `banned_funcs_visitor`
unfoldable pub banned_walker : Node → Option Text
banned_walker (call func) = matches_banned func
banned_walker _ = none

-- `banned_funcs_visitor::check`
unfoldable pub check_banned : Parsed → Result (Unit {0})
check_banned stmt = check_break (visit banned_walker stmt.nodes)
