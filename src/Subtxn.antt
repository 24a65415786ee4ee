-- ===== src/Subtxn.antt =====
-- src/infra/subtxn.rs: a body in a subtransaction. The backend's transaction state is explicit: the
-- writes of each open level, the innermost first, the memory context and the resource owner.
pub mod Paired
pub mod Tests
use pg_ask.Prelude.{
  ℕ, ◌+◌, Bool, true, false, Option, none, some, List, [], ◌∷◌, ◌++◌, length, Text,
}
use pg_ask.Errors.{AskError, sql, Result, ok, err}

-- A body returns, or raises a PostgreSQL ERROR with the text that `{caught:?}` prints.
pub data Exit (T : Type 0) : Type 0 where
  returned : Result T → Exit T
  raised : Text → Exit T

-- A level that `BeginInternalSubTransaction` opens has a context and an owner of its own, which
-- are numbered here by the depth.
pub record Backend (Write : Type 0) : Type 0 where
  pub outer : List Write
  pub levels : List (List Write)
  pub memory_context : ℕ
  pub resource_owner : ℕ

module _ {Write : Type 0} where
  pub begin_subtransaction : Backend Write → Backend Write
  begin_subtransaction b = record b {
    levels = [] ∷ b.levels;
    memory_context = length b.levels + 1;
    resource_owner = length b.levels + 1;
  }

  abbrev pub switch_to : ℕ → Backend Write → Backend Write
  switch_to context b = record b { memory_context = context }

  abbrev pub restore_owner : ℕ → Backend Write → Backend Write
  restore_owner owner b = record b { resource_owner = owner }

  -- The level's writes join those of the level around it. Without an open level PostgreSQL raises,
  -- and nothing changes.
  pub release : List (List Write) → Backend Write → Backend Write
  release [] b = b
  release (ws ∷ []) b = record b { outer = b.outer ++ ws; levels = [] }
  release (ws ∷ us ∷ rest) b = record b { levels = (us ++ ws) ∷ rest }

  pub release_current_subtransaction : Backend Write → Backend Write
  release_current_subtransaction b = release b.levels b

  abbrev pub below : List (List Write) → List (List Write)
  below [] = []
  below (ws ∷ rest) = rest

  pub rollback_and_release_subtransaction : Backend Write → Backend Write
  rollback_and_release_subtransaction b = record b { levels = below b.levels }

  -- Behind the body: the handler of `catch_others`, or the commit of a body that completed.
  pub finish : {T : Type 0} → ℕ → ℕ → Exit T → Backend Write → Result T × Backend Write
  finish oldcontext oldowner (raised caught) b = (
    err (sql caught),
    restore_owner oldowner (rollback_and_release_subtransaction (switch_to oldcontext b)),
  )
  finish oldcontext oldowner (returned result) b =
      (result, restore_owner oldowner (switch_to oldcontext (release_current_subtransaction b)))

  -- The state in which the body starts.
  abbrev pub inside : Backend Write → Backend Write
  inside b = switch_to b.memory_context (begin_subtransaction b)

  unfoldable pub run_in_subtransaction :
      {T : Type 0}
      → (Backend Write → Exit T × Backend Write)
      → Backend Write
      → Result T × Backend Write
  unfolding begin_subtransaction release release_current_subtransaction
      rollback_and_release_subtransaction finish
  run_in_subtransaction body b =
      let (exit, after) = body (inside b) in finish b.memory_context b.resource_owner exit after
