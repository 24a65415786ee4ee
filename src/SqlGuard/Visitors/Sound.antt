-- ===== src/SqlGuard/Visitors/Sound.antt =====
-- What passes the visitors of src/sql_guard/mod.rs.
use pg_ask.Prelude.{
  true, false, Option, none, some, List, [], ◌∷◌, ◌≡◌, refl, arith, inl, inr, Text, All, ◌↔◌,
  Option-cases, Bool-cases,
}
use pg_ask.Errors.{done}
use pg_ask.SqlGuard.Ast.{ObjectName, Function, Node, relation, call, expr, Parsed}
use pg_ask.SqlGuard.Visitors.{
  visit, check_break, normalized, listed, banned_relations, guc_functions, banned, is_protected_guc,
  first_arg_string, guc_message, check_function_name, check_function_call, relation_message,
  secrets_walker, check_secrets, banned_message, matches_banned, banned_walker, check_banned,
}

-- The last part of the name, normalized, is not on the list; a name with no parts is on none.
abbrev pub Avoids : List Text → ObjectName → Type 0
Avoids list name = (n : Text) → normalized name ≡ some n → listed list n ≡ false

-- A call of a GUC function has a literal first argument outside the protected namespaces.
abbrev pub ReadsOpenGuc : Function → Type 0
ReadsOpenGuc func =
    (n : Text)
    → normalized func.name ≡ some n
    → listed guc_functions n ≡ true
    → (s : Text) × (first_arg_string func.args ≡ some s) × (is_protected_guc s ≡ false)

abbrev pub IsSafeNode : Node → Type 0
IsSafeNode (relation name) = Avoids banned_relations name
IsSafeNode (call func) = ReadsOpenGuc func × Avoids banned func.name
IsSafeNode expr = Unit

visit-none :
    (f : Node → Option Text) (ns : List Node) → visit f ns ≡ none → All (λ n. f n ≡ none) ns
unfolding visit
visit-none f [] h = tt
visit-none f (n ∷ ns) h = (ground arith, visit-none f ns (ground arith))

All-visit : (f : Node → Option Text) (ns : List Node) → All (λ n. f n ≡ none) ns → visit f ns ≡ none
unfolding visit
All-visit f [] h = refl
All-visit f (n ∷ ns) h = ground (arith, All-visit f ns h.1)

check_break_iff : (o : Option Text) → (check_break o ≡ done) ↔ (o ≡ none)
check_break_iff none = (λ h. refl, λ h. refl)
check_break_iff (some m) = (λ h. cc, λ h. cc)

relation_none :
    (name : ObjectName) → relation_message (normalized name) ≡ none → Avoids banned_relations name
unfolding relation_message
relation_none name h n e = ground (arith, rw e at h)

banned-none : (func : Function) → matches_banned func ≡ none → Avoids banned func.name
unfolding banned_message matches_banned
banned-none func h n e = ground (arith, rw e at h)

guc_none :
    (o : Option Text) (n : Text)
    → guc_message n o ≡ none
    → (s : Text) × (o ≡ some s) × (is_protected_guc s ≡ false)
unfolding guc_message
guc_none none n h = absurd (cc)
guc_none (some s) n h = (s, refl, ground arith)

call_none : (func : Function) → check_function_call func ≡ none → ReadsOpenGuc func
unfolding check_function_name check_function_call
call_none func h n e l = guc_none (first_arg_string func.args) n (rw l at (rw e at h))

safe_of_none : (n : Node) → secrets_walker n ≡ none → banned_walker n ≡ none → IsSafeNode n
unfolding secrets_walker banned_walker
safe_of_none (relation name) h k = relation_none name h
safe_of_none (call func) h k = (call_none func h, banned-none func k)
safe_of_none expr h k = tt

Avoids-passes :
    (list : List Text) (name : ObjectName) (message : Option Text → Option Text)
    → message none ≡ none
    → ((n : Text) → listed list n ≡ false → message (some n) ≡ none)
    → Avoids list name
    → message (normalized name) ≡ none
Avoids-passes list name message h k avoids = elim (Option-cases (normalized name)) [
  | inl (n, e) ↦ rw e (k n (avoids n e))
  | inr e ↦ rw e h
]

relation_passes :
    (name : ObjectName) → Avoids banned_relations name → relation_message (normalized name) ≡ none
unfolding relation_message
relation_passes name = Avoids-passes banned_relations name relation_message refl (λ n e. rw e)

banned_passes : (func : Function) → Avoids banned func.name → matches_banned func ≡ none
unfolding banned_message matches_banned
banned_passes func = Avoids-passes banned func.name banned_message refl (λ n e. rw e)

call_passes : (func : Function) → ReadsOpenGuc func → check_function_call func ≡ none
unfolding check_function_name check_function_call guc_message
call_passes func reads = elim (Option-cases (normalized func.name)) [
  | inl (n, e) ↦ elim (Bool-cases (listed guc_functions n)) [
    | inl l ↦ let (s, a, open_guc) = reads n e l in rw (e, l, a, open_guc)
    | inr l ↦ rw (e, l)
  ]
  | inr e ↦ rw e
]

none_of_safe : (n : Node) → IsSafeNode n → (secrets_walker n ≡ none) × (banned_walker n ≡ none)
unfolding secrets_walker banned_walker
none_of_safe (relation name) h = (relation_passes name h, refl)
none_of_safe (call func) h = (call_passes func h.0, banned_passes func h.1)
none_of_safe expr h = (refl, refl)

all_safe :
    (ns : List Node)
    → All (λ n. secrets_walker n ≡ none) ns
    → All (λ n. banned_walker n ≡ none) ns
    → All IsSafeNode ns
all_safe [] h k = tt
all_safe (n ∷ ns) h k = (safe_of_none n h.0 k.0, all_safe ns h.1 k.1)

all_none :
    (ns : List Node)
    → All IsSafeNode ns
    → All (λ n. secrets_walker n ≡ none) ns × All (λ n. banned_walker n ≡ none) ns
all_none [] h = (tt, tt)
all_none (n ∷ ns) h =
    let rest = all_none ns h.1 in
    (((none_of_safe n h.0).0, rest.0), ((none_of_safe n h.0).1, rest.1))

-- The two visitors accept a statement exactly when every relation in it avoids the catalogs that
-- expose settings and secrets, and every call avoids the deny-list and reads settings only by a
-- literal name outside the protected namespaces; names are compared by their last part, without
-- quotes and case.
pub visitors_iff :
    (stmt : Parsed)
    → ((check_secrets stmt ≡ done) × (check_banned stmt ≡ done)) ↔ All IsSafeNode stmt.nodes
unfolding check_secrets check_banned
visitors_iff stmt = (
  λ (s, b).
      all_safe stmt.nodes (visit-none secrets_walker stmt.nodes ((check_break_iff _).0 s))
        (visit-none banned_walker stmt.nodes ((check_break_iff _).0 b)),
  λ safe.
      let (s, b) = all_none stmt.nodes safe in
      (
        (check_break_iff _).1 (All-visit secrets_walker stmt.nodes s),
        (check_break_iff _).1 (All-visit banned_walker stmt.nodes b),
      ),
)
