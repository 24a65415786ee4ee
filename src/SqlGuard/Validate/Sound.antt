-- ===== src/SqlGuard/Validate/Sound.antt =====
-- What `validate` of src/sql_guard/mod.rs lets through, for any answer of the parser.
use pg_ask.Prelude.{
  is_empty, true, false, Option, none, some, List, [], ◌∷◌, ◌≡◌, refl, arith, inl, inr, Text, All,
  ◌↔◌, Option-cases, Bool-cases, ◌≢◌, trim, to_ascii_lowercase, eq, subst,
}
use pg_ask.Errors.{ok, done, >>-eq-ok}
use pg_ask.SqlGuard.Mode.{GuardMode}
use pg_ask.SqlGuard.Lexer.{Token, tokenize}
use pg_ask.SqlGuard.Rules.{
  single_statement, starts_with_allowed_verb, no_banned_functions, first_word, is_allowed_verb,
  check_verb, banned_lead_keyword,
}
use pg_ask.SqlGuard.Rules.Single.{IsSingle, single_statement_iff}
use pg_ask.SqlGuard.Rules.Banned.{CallsNothingBanned, no_banned_functions_iff}
use pg_ask.SqlGuard.Ast.{Parsed, SqlParser}
use pg_ask.SqlGuard.Visitors.{check_secrets, check_banned}
use pg_ask.SqlGuard.Visitors.Sound.{IsSafeNode, visitors_iff}
use pg_ask.SqlGuard.Classify.{classify_statement}
use pg_ask.SqlGuard.Classify.Writes.{Permitted, IsPlainStatement, classify_statement_iff}
use pg_ask.SqlGuard.Validate.{ValidatedSql, ast_checks, check_shape, validate}

-- The first word of the tokens is a verb that the mode allows, and is not COPY.
abbrev pub StartsAllowed : List Token → GuardMode → Type 0
StartsAllowed tokens mode =
    (w : Text) × (first_word tokens ≡ some w)
    × (eq (to_ascii_lowercase w) banned_lead_keyword ≡ false)
    × (is_allowed_verb mode (to_ascii_lowercase w) ≡ true)

-- Where the parser answers, it found one statement, which the visitors and the classification
-- accept; where it cannot parse, the tokens are one statement with an allowed verb.
pub data ShapeAccepted (answer : Option (List Parsed)) (tokens : List Token) (mode : GuardMode)
    : Type 0 where
  parsed :
      (stmt : Parsed)
      → answer ≡ some (stmt ∷ [])
      → All IsSafeNode stmt.nodes
      → Permitted mode stmt.shape
      → ShapeAccepted answer tokens mode
  unparsed :
      answer ≡ none → IsSingle tokens → StartsAllowed tokens mode → ShapeAccepted answer tokens mode

pub record IsAccepted (answer : Option (List Parsed)) (trimmed : Text) (mode : GuardMode)
    : Type 0 where
  pub nonempty : trimmed ≢ []
  pub shape : ShapeAccepted answer (tokenize trimmed) mode
  pub calls : CallsNothingBanned (tokenize trimmed)

-- If the parser answers with one statement, the queries of its `WITH` are plain.
abbrev pub AnswersPlain : Option (List Parsed) → Type 0
AnswersPlain (some (stmt ∷ [])) = IsPlainStatement stmt.shape
AnswersPlain _ = Unit

verb_allowed :
    (tokens : List Token) (mode : GuardMode)
    → starts_with_allowed_verb tokens mode ≡ done
    → StartsAllowed tokens mode
unfolding starts_with_allowed_verb check_verb
verb_allowed tokens mode h = elim (Option-cases (first_word tokens)) [
  | inl (w, e) ↦ let k = rw e at h in (w, e, ground arith, ground arith)
  | inr e ↦ absurd (ground arith)
]

allowed_verb :
    (tokens : List Token) (mode : GuardMode)
    → StartsAllowed tokens mode
    → starts_with_allowed_verb tokens mode ≡ done
unfolding starts_with_allowed_verb check_verb
allowed_verb tokens mode (w, e, not_copy, allowed) = rw (e, not_copy, allowed)

one_statement :
    (stmt : Parsed) (mode : GuardMode)
    → ast_checks (stmt ∷ []) mode ≡ done
    → (All IsSafeNode stmt.nodes) × (classify_statement stmt.shape mode ≡ done)
unfolding ast_checks
one_statement stmt mode h =
    let (s, rest) = >>-eq-ok (check_secrets stmt) _ h in
    let (b, c) = >>-eq-ok (check_banned stmt) _ rest in ((visitors_iff stmt).0 (s, b), c)

shape_sound :
    (answer : Option (List Parsed)) (t : Text) (mode : GuardMode)
    → AnswersPlain answer
    → check_shape answer t mode ≡ done
    → ShapeAccepted answer (tokenize t) mode
unfolding check_shape ast_checks
shape_sound none t mode plain h =
    let (s, v) = >>-eq-ok (single_statement (tokenize t)) _ h in
    unparsed refl ((single_statement_iff _).0 s) (verb_allowed _ mode v)
shape_sound (some []) t mode plain h = absurd (cc)
shape_sound (some (stmt ∷ [])) t mode plain h =
    let (nodes, c) = one_statement stmt mode h in
    parsed stmt refl nodes ((classify_statement_iff stmt.shape mode plain).0 c)
shape_sound (some (stmt ∷ other ∷ more)) t mode plain h = absurd (cc)

shape_complete :
    (answer : Option (List Parsed)) (t : Text) (mode : GuardMode)
    → AnswersPlain answer
    → ShapeAccepted answer (tokenize t) mode
    → check_shape answer t mode ≡ done
unfolding check_shape ast_checks
shape_complete answer t mode plain (unparsed e s v) =
    rw (e, (single_statement_iff _).1 s, allowed_verb _ mode v)
shape_complete answer t mode plain (parsed stmt e nodes p) =
    let (s, b) = (visitors_iff stmt).1 nodes in
    let c = (classify_statement_iff stmt.shape mode (subst AnswersPlain e plain)).1 p in
    rw (e, s, b) c

nonempty_of : (t : Text) → is_empty t ≡ false → t ≢ []
nonempty_of [] h = cc
nonempty_of (c ∷ s) h = λ e. cc

not_empty : (t : Text) → t ≢ [] → is_empty t ≡ false
not_empty [] h = absurd (h refl)
not_empty (c ∷ s) h = refl

module _ (parser : SqlParser) (sql : Text) (mode : GuardMode) where
  pub guarded :
      (v : ValidatedSql)
      → validate parser sql mode ≡ ok v
      → (is_empty (trim sql) ≡ false)
        × (check_shape (parser.parse_sql (trim sql)) (trim sql) mode ≡ done)
        × (no_banned_functions (tokenize (trim sql)) ≡ done)
        × (v ≡ record { sql = trim sql })
  unfolding validate
  guarded v h = elim (Bool-cases (is_empty (trim sql))) [
    | inl e ↦ absurd (let k = rw e at h in cc)
    | inr e ↦
        let k = rw e at h in
        let (s, rest) = >>-eq-ok (check_shape (parser.parse_sql (trim sql)) (trim sql) mode) _ k in
        let (f, r) = >>-eq-ok (no_banned_functions (tokenize (trim sql))) _ rest in (e, s, f, cc)
  ]

  -- For any answer of the parser whose `WITH` queries are plain, `validate` returns a text exactly
  -- when the statement is acceptable, and then the text is the trimmed input.
  pub validate_iff :
      AnswersPlain (parser.parse_sql (trim sql))
      → (validate parser sql mode ≡ ok (record { sql = trim sql }))
        ↔ IsAccepted (parser.parse_sql (trim sql)) (trim sql) mode
  unfolding validate
  validate_iff plain = (
    λ h.
        let (e, s, f, _) = guarded _ h in
        record {
          nonempty = nonempty_of _ e;
          shape = shape_sound _ _ mode plain s;
          calls = (no_banned_functions_iff _).0 f;
        },
    λ a. rw (
      not_empty _ a.nonempty,
      shape_complete _ (trim sql) mode plain a.shape,
      (no_banned_functions_iff _).1 a.calls,
    ),
  )
