-- ===== src/SqlGuard/Classify/Writes.antt =====
-- Which statements that change data `classify_statement` of src/sql_guard/mod.rs lets through.
use pg_ask.Prelude.{◌≡◌, refl, ◌↔◌, arith, ◌⊎◌, inl, inr}
use pg_ask.Errors.{Result, done, >>-eq-ok}
use pg_ask.SqlGuard.Mode.{GuardMode, readonly, writable}
use pg_ask.SqlGuard.Ast.{
  Query, query, With, no_with, ctes, Ctes, end, cte, SetExpr, insert_body, update_body, delete_body,
  other_body, query_body, Statement, query_stmt, explain, insert, update, delete,
}
use pg_ask.SqlGuard.Classify.{
  check_query_for_writes, check_body, check_with, check_ctes, classify_statement,
}

-- A data-modifying body occurs in the query: as its body, in the parenthesised query that is its
-- body, or in a query of its `WITH`, at any depth.
mutual
  pub data Modifies : Query → Type 0 where
    in_body : {w : With} {b : SetExpr} → ModifiesBody b → Modifies (query w b)
    in_with : {w : With} {b : SetExpr} → ModifiesWith w → Modifies (query w b)

  pub data ModifiesBody : SetExpr → Type 0 where
    by_insert : ModifiesBody insert_body
    by_update : ModifiesBody update_body
    by_delete : ModifiesBody delete_body
    nested : {q : Query} → Modifies q → ModifiesBody (query_body q)

  pub data ModifiesWith : With → Type 0 where
    in_ctes : {qs : Ctes} → ModifiesCtes qs → ModifiesWith (ctes qs)

  pub data ModifiesCtes : Ctes → Type 0 where
    first : {q : Query} {qs : Ctes} → Modifies q → ModifiesCtes (cte q qs)
    later : {q : Query} {qs : Ctes} → ModifiesCtes qs → ModifiesCtes (cte q qs)

-- No query whose body is a parenthesised query has a `WITH` of its own.
mutual
  pub data IsPlain : Query → Type 0 where
    nesting : {q : Query} → IsPlain q → IsPlain (query no_with (query_body q))
    inserting : {w : With} → IsPlainWith w → IsPlain (query w insert_body)
    updating : {w : With} → IsPlainWith w → IsPlain (query w update_body)
    deleting : {w : With} → IsPlainWith w → IsPlain (query w delete_body)
    reading : {w : With} → IsPlainWith w → IsPlain (query w other_body)

  pub data IsPlainWith : With → Type 0 where
    without : IsPlainWith no_with
    with_ctes : {qs : Ctes} → IsPlainCtes qs → IsPlainWith (ctes qs)

  pub data IsPlainCtes : Ctes → Type 0 where
    none_left : IsPlainCtes end
    one_more : {q : Query} {qs : Ctes} → IsPlain q → IsPlainCtes qs → IsPlainCtes (cte q qs)

Modifies-inv : {w : With} {b : SetExpr} → Modifies (query w b) → ModifiesBody b ⊎ ModifiesWith w
Modifies-inv (in_body m) = inl m
Modifies-inv (in_with m) = inr m

nested_inv : {q : Query} → ModifiesBody (query_body q) → Modifies q
nested_inv (nested m) = m

no_with_inv : ModifiesWith no_with → ⊥
no_with_inv m = elim m [ ]

no_body_inv : ModifiesBody other_body → ⊥
no_body_inv m = elim m [ ]

end_inv : ModifiesCtes end → ⊥
end_inv m = elim m [ ]

cte_inv : {q : Query} {qs : Ctes} → ModifiesCtes (cte q qs) → Modifies q ⊎ ModifiesCtes qs
cte_inv (first m) = inl m
cte_inv (later m) = inr m

from_sum : {A B : Type 0} → A ⊎ B → (A → ⊥) → (B → ⊥) → ⊥
from_sum (inl a) f g = f a
from_sum (inr b) f g = g b

mutual
  unfolding check_query_for_writes check_body check_with check_ctes

  plain_sound : {q : Query} → IsPlain q → check_query_for_writes q ≡ done → Modifies q → ⊥
  plain_sound (nesting p) h m =
      from_sum (Modifies-inv m) (λ b. plain_sound p h (nested_inv b)) no_with_inv
  plain_sound (inserting p) h m = cc
  plain_sound (updating p) h m = cc
  plain_sound (deleting p) h m = cc
  plain_sound (reading p) h m = from_sum (Modifies-inv m) no_body_inv (plain_with_sound p h)

  plain_with_sound : {w : With} → IsPlainWith w → check_with w ≡ done → ModifiesWith w → ⊥
  plain_with_sound without h m = no_with_inv m
  plain_with_sound (with_ctes p) h (in_ctes m) = plain_ctes_sound p h m

  plain_ctes_sound : {qs : Ctes} → IsPlainCtes qs → check_ctes qs ≡ done → ModifiesCtes qs → ⊥
  plain_ctes_sound none_left h m = end_inv m
  plain_ctes_sound (one_more {q} {qs} p ps) h m =
      let both = >>-eq-ok (check_query_for_writes q) (check_ctes qs) h in
      from_sum (cte_inv m) (plain_sound p both.0) (plain_ctes_sound ps both.1)

-- The check refuses nothing that only reads.
mutual
  unfolding check_query_for_writes check_body check_with check_ctes

  complete : (q : Query) → (Modifies q → ⊥) → check_query_for_writes q ≡ done
  complete (query w b) no_write =
      body_complete b (check_with w) (λ m. no_write (in_body m))
        (with_complete w (λ m. no_write (in_with m)))

  body_complete :
      (b : SetExpr) (r : Result (Unit {0}))
      → (ModifiesBody b → ⊥)
      → r ≡ done
      → check_body b r ≡ done
  body_complete insert_body r no_write h = absurd (no_write by_insert)
  body_complete update_body r no_write h = absurd (no_write by_update)
  body_complete delete_body r no_write h = absurd (no_write by_delete)
  body_complete other_body r no_write h = h
  body_complete (query_body q) r no_write h = complete q (λ m. no_write (nested m))

  with_complete : (w : With) → (ModifiesWith w → ⊥) → check_with w ≡ done
  with_complete no_with no_write = refl
  with_complete (ctes qs) no_write = ctes_complete qs (λ m. no_write (in_ctes m))

  ctes_complete : (qs : Ctes) → (ModifiesCtes qs → ⊥) → check_ctes qs ≡ done
  ctes_complete end no_write = refl
  ctes_complete (cte q qs) no_write =
      rw (complete q (λ m. no_write (first m))) (ctes_complete qs (λ m. no_write (later m)))

-- On a query in which no parenthesised body has a `WITH` of its own, `check_query_for_writes`
-- accepts exactly when no data-modifying body occurs in it, at any depth.
pub check_query_for_writes_iff :
    {q : Query} → IsPlain q → (check_query_for_writes q ≡ done) ↔ (Modifies q → ⊥)
check_query_for_writes_iff {q} p = (plain_sound p, complete q)

-- What a statement must be for its mode: EXPLAIN wraps such a statement, a query's `WITH` changes
-- nothing in readonly mode, and the three write statements are for writable mode.
pub data Permitted : GuardMode → Statement → Type 0 where
  explained : {m : GuardMode} {s : Statement} → Permitted m s → Permitted m (explain s)
  reads :
      {w : With} {b : SetExpr} → (ModifiesWith w → ⊥) → Permitted readonly (query_stmt (query w b))
  any_query : {q : Query} → Permitted writable (query_stmt q)
  inserts : Permitted writable insert
  updates : Permitted writable update
  deletes : Permitted writable delete

-- Every query of the statement's `WITH` is plain.
abbrev pub IsPlainStatement : Statement → Type 0
IsPlainStatement (explain s) = IsPlainStatement s
IsPlainStatement (query_stmt (query w b)) = IsPlainWith w
IsPlainStatement _ = Unit

classified :
    (s : Statement) (m : GuardMode)
    → IsPlainStatement s
    → classify_statement s m ≡ done
    → Permitted m s
unfolding classify_statement
classified (explain s) m p h = explained (classified s m p h)
classified (query_stmt (query w b)) readonly p h = reads (plain_with_sound p h)
classified (query_stmt q) writable p h = any_query
classified insert writable p h = inserts
classified update writable p h = updates
classified delete writable p h = deletes
classified _ m p h = absurd (ground arith)

permitted : {s : Statement} {m : GuardMode} → Permitted m s → classify_statement s m ≡ done
unfolding classify_statement
permitted (explained p) = permitted p
permitted (reads {w} no_write) = with_complete w no_write
permitted any_query = refl
permitted inserts = refl
permitted updates = refl
permitted deletes = refl

-- For a statement whose `WITH` queries are plain, `classify_statement` accepts exactly the
-- permitted ones: through any number of EXPLAINs, queries whose `WITH` changes no data at any
-- depth, and in writable mode any query, INSERT, UPDATE and DELETE. COPY, DDL and all other
-- statements are refused in both modes.
pub classify_statement_iff :
    (s : Statement) (m : GuardMode)
    → IsPlainStatement s
    → (classify_statement s m ≡ done) ↔ Permitted m s
classify_statement_iff s m p = (classified s m p, permitted)

-- In readonly mode the body of the query itself is not looked at: with a `WITH` that changes no
-- data, a query whose body changes data is accepted, bare or under EXPLAIN.
pub body_write_passes :
    (w : With) (b : SetExpr)
    → (ModifiesWith w → ⊥)
    → ModifiesBody b
    → (classify_statement (query_stmt (query w b)) readonly ≡ done)
      × (classify_statement (explain (query_stmt (query w b))) readonly ≡ done)
      × Modifies (query w b)
unfolding classify_statement
body_write_passes w b clean m = (with_complete w clean, with_complete w clean, in_body m)

-- Nor is the `WITH` of a query looked at whose body is a parenthesised query that passes: as a CTE
-- in readonly mode such a query is accepted though its `WITH` changes data.
pub hidden_with_passes :
    (w : With) (inner : Query)
    → (Modifies inner → ⊥)
    → ModifiesWith w
    → (classify_statement
          (query_stmt (query (ctes (cte (query w (query_body inner)) end)) other_body))
          readonly
        ≡ done)
      × Modifies (query w (query_body inner))
unfolding classify_statement
hidden_with_passes w inner clean m = (rw (complete inner clean), in_with m)
