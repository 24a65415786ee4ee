-- ===== src/Schema/Names/Reads.antt =====
-- The search path of src/schema/mod.rs as a reader of SQL identifiers reads it.
use mathlib.Core.List.{append_assoc, map-append}
use pg_ask.Prelude.{
  ℕ, zero, suc, ◌≤◌, ◌<◌, false, ◌&&◌, Option, none, some, List, [], ◌∷◌, ◌++◌, ◌==◌, ◌≡◌, ◌≢◌,
  refl, sym, ap, ◌∙◌, ◌⊎◌, inl, inr, Bool-cases, if◌then◌else◌, is_empty, map, any, arith, Text,
  codes, eq, eq_iff, contains, join, length, not_true, drop, length-append,
}
use pg_ask.Schema.Names.{distinct_schemas, double_quotes, quoted, with_public, search_path_clause}

-- Behind the opening quote: the identifier and what follows its closing quote; two quotes stand for
-- one.
unfoldable pub read_quoted : Text → Option (Text × Text)
read_quoted [] = none
read_quoted (c ∷ []) = if c == b'"' then some ([], []) else none
read_quoted (c ∷ d ∷ s) =
    let more = read_quoted (d ∷ s) in
    let past = read_quoted s in
    if c == b'"'
    then (if d == b'"'
        then elim past [ none ↦ none | some (name, rest) ↦ some (b'"' ∷ name, rest) ]
        else some ([], d ∷ s))
    else elim more [ none ↦ none | some (name, rest) ↦ some (c ∷ name, rest) ]

abbrev pub after_name : (Text → Option (List Text)) → Text → Text → Option (List Text)
after_name more name [] = some (name ∷ [])
after_name more name (c ∷ []) = none
after_name more name (c ∷ d ∷ rest) =
    if c == b',' && d == b' '
    then elim (more rest) [ none ↦ none | some names ↦ some (name ∷ names) ]
    else none

abbrev pub open_quote : (Text → Option (List Text)) → Text → Option (List Text)
open_quote more [] = none
open_quote more (c ∷ s) =
    if c == b'"'
    then elim (read_quoted s) [ none ↦ none | some (name, rest) ↦ after_name more name rest ]
    else none

-- A list of quoted identifiers with `, ` between them; each round reads one.
unfoldable pub read_path : ℕ → Text → Option (List Text)
unfolding read_quoted
read_path zero s = none
read_path (suc fuel) s = open_quote (λ rest. read_path fuel rest) s

abbrev Unquoted : Text → Type 0
Unquoted [] = Unit
Unquoted (d ∷ rest) = d == b'"' ≡ false

tail_cons : (s rest : Text) → (d : ℕ) × (t : Text) × (double_quotes s ++ b'"' ∷ rest ≡ d ∷ t)
unfolding double_quotes
tail_cons [] rest = (b'"', rest, refl)
tail_cons (c ∷ s) rest = elim (Bool-cases (c == b'"')) [
  | inl e ↦ rw e (b'"', b'"' ∷ (double_quotes s ++ b'"' ∷ rest), refl)
  | inr e ↦ rw e (c, double_quotes s ++ b'"' ∷ rest, refl)
]

read_plain :
    (c : ℕ) (t : Text) (name rest : Text)
    → c == b'"' ≡ false
    → ((d : ℕ) × (u : Text) × (t ≡ d ∷ u))
    → read_quoted t ≡ some (name, rest)
    → read_quoted (c ∷ t) ≡ some (c ∷ name, rest)
unfolding read_quoted
read_plain c [] name rest e (d, u, q) h = cc
read_plain c (d ∷ u) name rest e q h = rw (e, h)

-- The identifier is read back, with the quotes in it.
read_quoted_lem :
    (s rest : Text) → Unquoted rest → read_quoted (double_quotes s ++ b'"' ∷ rest) ≡ some (s, rest)
unfolding read_quoted double_quotes
read_quoted_lem [] [] h = refl
read_quoted_lem [] (d ∷ rest) h = rw h
read_quoted_lem (c ∷ s) rest h = elim (Bool-cases (c == b'"')) [
  | inl e ↦ let q : c ≡ b'"' = ground arith in rw (e, read_quoted_lem s rest h, q)
  | inr e ↦ rw e (read_plain c _ s rest e (tail_cons s rest) (read_quoted_lem s rest h))
]

read_joined :
    (fuel : ℕ) (name : Text) (names : List Text)
    → length names < fuel
    → read_path fuel (join (codes ", ") (map quoted (name ∷ names))) ≡ some (name ∷ names)
unfolding read_path join
read_joined zero name names h = absurd (omega arith)
read_joined (suc fuel) name [] h = rw (read_quoted_lem name [] tt)
read_joined (suc fuel) name (next ∷ names) h =
    let rest = join (codes ", ") (map quoted (next ∷ names)) in
    let split : (double_quotes name ++ b'"' ∷ []) ++ (codes ", " ++ rest)
        ≡ double_quotes name ++ b'"' ∷ (codes ", " ++ rest) =
      append_assoc (double_quotes name) (b'"' ∷ []) (codes ", " ++ rest) in
    rw (
      split,
      read_quoted_lem name (codes ", " ++ rest) refl,
      read_joined fuel next names (omega arith),
    )

quoted_inj : (s t : Text) → quoted s ≡ quoted t → s ≡ t
quoted_inj s t h =
    let both : some (s, []) ≡ some (t, []) =
      sym (read_quoted_lem s [] tt)
      ∙ ap (λ q. read_quoted (drop 1 q)) h
      ∙ read_quoted_lem t [] tt in
    cc both

eq-quoted : (s t : Text) → eq (quoted s) (quoted t) ≡ eq s t
eq-quoted s t = elim (Bool-cases (eq s t)) [
  | inl e ↦ rw e ((eq_iff (quoted s) (quoted t)).1 (ap quoted ((eq_iff s t).0 e)))
  | inr e ↦ rw e (
      not_true (eq (quoted s) (quoted t)) (λ q.
        let same = quoted_inj s t ((eq_iff (quoted s) (quoted t)).0 q) in
        cc (sym e ∙ (eq_iff s t).1 same)))
]

any-quoted :
    (names : List Text) (t : Text)
    → any (λ p. eq p (quoted t)) (map quoted names) ≡ contains names t
unfolding any contains
any-quoted [] t = refl
any-quoted (s ∷ names) t = rw (eq-quoted s t, any-quoted names t)

-- The schemas of the path: those of the text, and `public` where it is not among them.
abbrev pub path_names : List Text → List Text
path_names names = if contains names (codes "public") then names else names ++ codes "public" ∷ []

with_public-quoted :
    (names : List Text) → with_public (map quoted names) ≡ map quoted (path_names names)
with_public-quoted names = elim (Bool-cases (contains names (codes "public"))) [
  | inl e ↦ rw (any-quoted names (codes "public"), e)
  | inr e ↦
      rw (any-quoted names (codes "public"), e)
        (sym (map-append quoted names (codes "public" ∷ [])))
]

read_parts :
    (fuel : ℕ) (names : List Text)
    → names ≢ []
    → length names ≤ fuel
    → read_path fuel (join (codes ", ") (map quoted names)) ≡ some names
read_parts fuel [] n h = absurd (n refl)
read_parts fuel (name ∷ names) n h = read_joined fuel name names (omega arith)

path_names_ne : (name : Text) (names : List Text) → path_names (name ∷ names) ≢ []
path_names_ne name names h = elim (Bool-cases (contains (name ∷ names) (codes "public"))) [
  | inl e ↦ cc (rw e at h)
  | inr e ↦ cc (rw e at h)
]

length-path_names : (names : List Text) → length (path_names names) ≤ suc (length names)
length-path_names names = elim (Bool-cases (contains names (codes "public"))) [
  | inl e ↦ rw e (omega arith)
  | inr e ↦ rw (e, length-append names (codes "public" ∷ [])) (omega arith)
]

abbrev clause_of : List Text → Text
clause_of names =
    let parts = map quoted names in
    if is_empty parts then [] else join (codes ", ") (with_public parts)

clause_reads :
    (names : List Text)
    → ((names ≡ []) × (clause_of names ≡ []))
      ⊎ (read_path (suc (length names)) (clause_of names) ≡ some (path_names names))
clause_reads [] = inl (refl, refl)
clause_reads (name ∷ names) = inr (
    rw (with_public-quoted (name ∷ names)) (
      read_parts (suc (length (name ∷ names))) (path_names (name ∷ names))
        (path_names_ne name names) (length-path_names (name ∷ names))))

-- The search path that a schema dump gives is read back by a reader of quoted SQL identifiers as the
-- schemas of the dump, in their order and with whatever quotes they hold, with `public` at the end
-- where it is not among them: no name can end its quotes and add an identifier of its own. It is
-- empty where the dump names no schema.
pub search_path_clause-read_path :
    (schema_text : Text)
    → let names = distinct_schemas schema_text in
      ((names ≡ []) × (search_path_clause schema_text ≡ []))
      ⊎ (read_path (suc (length names)) (search_path_clause schema_text) ≡ some (path_names names))
unfolding search_path_clause
search_path_clause-read_path schema_text = clause_reads (distinct_schemas schema_text)
