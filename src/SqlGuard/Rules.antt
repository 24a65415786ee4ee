-- ===== src/SqlGuard/Rules.antt =====
-- src/sql_guard/rules.rs: the guard's rules over the tokens of a statement.
pub mod Single
pub mod Banned
use pg_ask.Prelude.{
  ℕ, Bool, true, false, not, ◌&&◌, ◌||◌, Option, none, some, List, [], ◌∷◌, ◌++◌, ◌==◌,
  if◌then◌else◌, any, Text, codes, contains, eq, to_ascii_lowercase, ◌≡◌, refl,
}
use pg_ask.Errors.{AskError, guard_rejected, Result, ok, err, done, ◌>>=◌, ◌>>◌}
use pg_ask.SqlGuard.Mode.{GuardMode, readonly, writable}
use pg_ask.SqlGuard.Lexer.{Token, word, quoted_ident, l_paren, semicolon}

abbrev pub readonly_verbs : List Text
readonly_verbs =
    codes "select"
    ∷ codes "with"
    ∷ codes "table"
    ∷ codes "explain"
    ∷ codes "values"
    ∷ codes "show"
    ∷ []

abbrev pub write_verbs : List Text
write_verbs =
    codes "insert"
    ∷ codes "update"
    ∷ codes "delete"
    ∷ codes "merge"
    ∷ codes "truncate"
    ∷ codes "create"
    ∷ codes "alter"
    ∷ codes "drop"
    ∷ codes "grant"
    ∷ codes "revoke"
    ∷ codes "comment"
    ∷ codes "refresh"
    ∷ codes "vacuum"
    ∷ codes "analyze"
    ∷ codes "reindex"
    ∷ codes "cluster"
    ∷ codes "lock"
    ∷ []

abbrev pub banned_functions : List Text
banned_functions =
    codes "pg_sleep"
    ∷ codes "pg_sleep_for"
    ∷ codes "pg_sleep_until"
    ∷ codes "pg_read_file"
    ∷ codes "pg_read_binary_file"
    ∷ codes "pg_read_server_files"
    ∷ codes "pg_ls_dir"
    ∷ codes "pg_stat_file"
    ∷ codes "lo_import"
    ∷ codes "lo_export"
    ∷ codes "lo_get"
    ∷ codes "lo_put"
    ∷ codes "dblink"
    ∷ codes "dblink_connect"
    ∷ codes "dblink_exec"
    ∷ codes "dblink_send_query"
    ∷ codes "pg_terminate_backend"
    ∷ codes "pg_cancel_backend"
    ∷ codes "pg_reload_conf"
    ∷ codes "pg_promote"
    ∷ codes "pg_logfile_rotate"
    ∷ codes "pg_rotate_logfile"
    ∷ codes "set_config"
    ∷ []

abbrev pub banned_lead_keyword : Text
banned_lead_keyword = codes "copy"

abbrev pub is_semicolon : Token → Bool
is_semicolon semicolon = true
is_semicolon _ = false

-- The loop of `single_statement`: the final `seen_non_semi_after_semi`.
unfoldable pub seen_non_semi_after_semi : Bool → List Token → Bool
seen_non_semi_after_semi seen_semi [] = false
seen_non_semi_after_semi seen_semi (t ∷ ts) =
    let after = seen_non_semi_after_semi true ts in
    let before = seen_non_semi_after_semi seen_semi ts in
    if is_semicolon t then after else if seen_semi then true else before

unfoldable pub single_statement : List Token → Result (Unit {0})
unfolding seen_non_semi_after_semi
single_statement tokens =
    if seen_non_semi_after_semi false tokens
    then err (guard_rejected (codes "multi-statement payloads are not permitted"))
    else done

unfoldable pub first_word : List Token → Option Text
first_word [] = none
first_word (word w ∷ ts) = some w
first_word (_ ∷ ts) = first_word ts

unfoldable pub is_allowed_verb : GuardMode → Text → Bool
is_allowed_verb readonly verb = contains readonly_verbs verb
is_allowed_verb writable verb = contains readonly_verbs verb || contains write_verbs verb

unfoldable pub check_verb : GuardMode → Option Text → Result (Unit {0})
check_verb mode none = err (guard_rejected (codes "could not find a leading SQL verb"))
check_verb mode (some first) =
    let verb = to_ascii_lowercase first in
    if eq verb banned_lead_keyword
    then err (guard_rejected (codes "COPY is not permitted (use SELECT instead)"))
    else if is_allowed_verb mode verb
    then done
    else err (
        guard_rejected (
          codes "leading verb `"
          ++ (first ++ codes "` is not on the allowed list for the current mode")))

unfoldable pub starts_with_allowed_verb : List Token → GuardMode → Result (Unit {0})
starts_with_allowed_verb tokens mode = check_verb mode (first_word tokens)

-- The name that a token gives to a call, if it stands before a parenthesis.
abbrev pub function_name : Token → Option Text
function_name (word name) = some name
function_name (quoted_ident name) = some name
function_name _ = none

abbrev pub called : Token → Token → Option Text
called t l_paren = function_name t
called t _ = none

-- `name.rsplit('.').next()`: what stands behind the last dot.
unfoldable pub leaf : Text → Text
leaf [] = []
leaf (c ∷ s) =
    let rest = leaf s in if any (λ d. d == b'.') s then rest else if c == b'.' then s else c ∷ s

unfoldable pub is_banned_name : Text → Bool
is_banned_name name = contains banned_functions (to_ascii_lowercase (leaf name))

unfoldable pub check_name : Option Text → Result (Unit {0})
check_name none = done
check_name (some name) =
    if is_banned_name name
    then err (guard_rejected (codes "function `" ++ (name ++ codes "` is not permitted")))
    else done

unfoldable pub no_banned_functions : List Token → Result (Unit {0})
no_banned_functions [] = done
no_banned_functions (t ∷ []) = done
no_banned_functions (t ∷ u ∷ ts) = do check_name (called t u); no_banned_functions (u ∷ ts)
