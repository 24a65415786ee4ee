-- ===== src/SqlGuard/Rules/Banned.antt =====
-- `no_banned_functions` of src/sql_guard/rules.rs against what it promises.
use pg_ask.Prelude.{
  false, Option, some, List, [], ◌∷◌, ◌++◌, ◌≡◌, refl, arith, ◌↔◌, Text, Option-cases, inl, inr,
}
use pg_ask.Errors.{done, >>-eq-ok}
use pg_ask.SqlGuard.Lexer.{Token, l_paren}
use pg_ask.SqlGuard.Rules.{function_name, called, check_name, is_banned_name, no_banned_functions}

-- Wherever a name stands right before `(` among the tokens, it is not on the list.
abbrev pub CallsNothingBanned : List Token → Type 0
CallsNothingBanned tokens =
    (before after : List Token) (t : Token) (name : Text)
    → tokens ≡ before ++ t ∷ l_paren ∷ after
    → function_name t ≡ some name
    → is_banned_name name ≡ false

check_name-done :
    (o : Option Text) (name : Text)
    → check_name o ≡ done
    → o ≡ some name
    → is_banned_name name ≡ false
unfolding check_name
check_name-done o name h e = ground arith

call-not_banned :
    (before after : List Token) (t : Token) (name : Text)
    → no_banned_functions (before ++ t ∷ l_paren ∷ after) ≡ done
    → function_name t ≡ some name
    → is_banned_name name ≡ false
unfolding no_banned_functions
call-not_banned [] after t name h e =
    check_name-done (function_name t) name (>>-eq-ok (check_name (function_name t)) _ h).0 e
call-not_banned (b ∷ []) after t name h e =
    call-not_banned [] after t name (>>-eq-ok (check_name (called b t)) _ h).1 e
call-not_banned (b ∷ c ∷ before) after t name h e =
    call-not_banned (c ∷ before) after t name (>>-eq-ok (check_name (called b c)) _ h).1 e

check_name-called :
    (t u : Token)
    → (u ≡ l_paren → (name : Text) → function_name t ≡ some name → is_banned_name name ≡ false)
    → check_name (called t u) ≡ done
unfolding check_name
check_name-called t l_paren h = elim (Option-cases (function_name t)) [
  | inl (name, e) ↦ rw (e, h refl name e)
  | inr e ↦ rw e
]
check_name-called t _ h = refl

CallsNothingBanned→done :
    (tokens : List Token) → CallsNothingBanned tokens → no_banned_functions tokens ≡ done
unfolding no_banned_functions
CallsNothingBanned→done [] h = refl
CallsNothingBanned→done (t ∷ []) h = refl
CallsNothingBanned→done (t ∷ u ∷ ts) h =
    rw (check_name-called t u (λ e name. h [] ts t name (cc)))
      (CallsNothingBanned→done (u ∷ ts) (λ b a v name e. h (t ∷ b) a v name (cc)))

-- `no_banned_functions` accepts exactly the token lists in which no word and no quoted identifier
-- that stands before an opening parenthesis has a banned name as its last segment, in any case.
pub no_banned_functions_iff :
    (tokens : List Token) → (no_banned_functions tokens ≡ done) ↔ CallsNothingBanned tokens
no_banned_functions_iff tokens = (
  λ h before after t name e f. call-not_banned before after t name (rw e at h) f,
  CallsNothingBanned→done tokens,
)
