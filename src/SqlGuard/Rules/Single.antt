-- ===== src/SqlGuard/Rules/Single.antt =====
-- `single_statement` of src/sql_guard/rules.rs against what it promises.
use pg_ask.Prelude.{
  ℕ, zero, suc, Bool, true, false, List, [], ◌∷◌, ◌++◌, ◌≡◌, refl, ap, arith, All, ◌↔◌, Bool-cases,
  inl, inr,
}
use pg_ask.Errors.{done}
use pg_ask.SqlGuard.Lexer.{Token, semicolon}
use pg_ask.SqlGuard.Rules.{is_semicolon, seen_non_semi_after_semi, single_statement}

abbrev pub semicolons : ℕ → List Token
semicolons zero = []
semicolons (suc n) = semicolon ∷ semicolons n

-- One statement: tokens without a semicolon, and then semicolons only.
pub record IsSingle (tokens : List Token) : Type 0 where
  pub statement : List Token
  pub trailing : ℕ
  pub splits : tokens ≡ statement ++ semicolons trailing
  pub no_semicolon : All (λ t. is_semicolon t ≡ false) statement

is_semicolon-eq : (t : Token) → is_semicolon t ≡ true → t ≡ semicolon
is_semicolon-eq semicolon h = refl
is_semicolon-eq _ h = cc

after_semi :
    (ts : List Token) → seen_non_semi_after_semi true ts ≡ false → (n : ℕ) × (ts ≡ semicolons n)
unfolding seen_non_semi_after_semi
after_semi [] h = (0, refl)
after_semi (t ∷ ts) h =
    let (n, e) = after_semi ts (ground arith) in (suc n, ground (arith, e, is_semicolon-eq t))

semicolons_pass : (n : ℕ) (seen : Bool) → seen_non_semi_after_semi seen (semicolons n) ≡ false
unfolding seen_non_semi_after_semi
semicolons_pass zero seen = refl
semicolons_pass (suc n) seen = semicolons_pass n true

before_semi : (ts : List Token) → seen_non_semi_after_semi false ts ≡ false → IsSingle ts
unfolding seen_non_semi_after_semi
before_semi [] h = record { statement = []; trailing = 0; splits = refl; no_semicolon = tt }
before_semi (t ∷ ts) h = elim (Bool-cases (is_semicolon t)) [
  | inl e ↦
      let (n, rest) = after_semi ts (rw e at h) in
      record {
        statement = [];
        trailing = suc n;
        splits = ground (arith, is_semicolon-eq t e, rest);
        no_semicolon = tt;
      }
  | inr e ↦
      let s = before_semi ts (rw e at h) in
      record {
        statement = t ∷ s.statement;
        trailing = s.trailing;
        splits = ap (◌∷◌ t) s.splits;
        no_semicolon = (e, s.no_semicolon);
      }
]

statement_pass :
    (ts : List Token) (n : ℕ)
    → All (λ t. is_semicolon t ≡ false) ts
    → seen_non_semi_after_semi false (ts ++ semicolons n) ≡ false
unfolding seen_non_semi_after_semi
statement_pass [] n h = semicolons_pass n false
statement_pass (t ∷ ts) n h = rw h.0 (statement_pass ts n h.1)

-- `single_statement` accepts exactly the token lists in which only semicolons follow the first
-- semicolon.
pub single_statement_iff :
    (tokens : List Token) → (single_statement tokens ≡ done) ↔ IsSingle tokens
unfolding single_statement
single_statement_iff tokens = (
  λ h. before_semi tokens (ground arith),
  λ s. rw s.splits (rw (statement_pass s.statement s.trailing s.no_semicolon)),
)
