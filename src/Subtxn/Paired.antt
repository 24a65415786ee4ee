-- ===== src/Subtxn/Paired.antt =====
-- What `run_in_subtransaction` of src/infra/subtxn.rs leaves behind on every path.
use pg_ask.Prelude.{List, [], ◌∷◌, ◌++◌, ◌≡◌, refl}
use pg_ask.Errors.{sql, Result, err}
use pg_ask.Subtxn.{begin_subtransaction, Exit, returned, raised, Backend, inside}

module _ {Write : Type 0} where
  abbrev pub writes : Backend Write → List Write × List (List Write)
  writes b = (b.outer, b.levels)

  -- The writes outside, with those of a level that is committed into the one around it.
  abbrev pub committed :
      List Write → List Write → List (List Write) → List Write × List (List Write)
  committed ws outer [] = (outer ++ ws, [])
  committed ws outer (us ∷ rest) = (outer, (us ++ ws) ∷ rest)

  -- The body starts in an empty level of its own.
  pub inside_lem :
      (b : Backend Write) → ((inside b).outer ≡ b.outer) × ((inside b).levels ≡ [] ∷ b.levels)
  unfolding begin_subtransaction
  inside_lem b = (refl, refl)

module _ {Write T : Type 0} where
  -- What the body's exit means for the caller: a returned result is handed on, Ok or Err, with the
  -- writes of the body kept; a raised ERROR becomes `AskError::Sql`, with the writes gone.
  abbrev pub Ends : Exit T → List Write → Backend Write → Result T × Backend Write → Type 0
  Ends (returned result) ws b r = (r.0 ≡ result) × (writes r.1 ≡ committed ws b.outer b.levels)
  Ends (raised caught) ws b r = (r.0 ≡ err (sql caught)) × (writes r.1 ≡ writes b)
