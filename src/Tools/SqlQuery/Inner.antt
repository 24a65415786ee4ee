-- ===== src/Tools/SqlQuery/Inner.antt =====
-- The statements that the tool of src/tools/sql_query.rs runs in its subtransaction.
use pg_ask.Prelude.{
  Bool, true, false, Option, List, [], ◌∷◌, ◌++◌, ◌≡◌, refl, sym, ap, ◌∙◌, All, is_empty,
  if◌then◌else◌, Text, subst,
}
use mathlib.Core.List.{append_assoc, append-nil}
use pg_ask.Errors.{ok, err}
use pg_ask.Json.{Serde}
use pg_ask.Subtxn.{Exit, returned, raised}
use pg_ask.Tools.Render.{wrap_with_cap, cap_plus_one}
use pg_ask.Tools.SqlQuery.{
  SqlQueryTool, Statement, set_local, select, Answer, answered, failed, raises, State, Db, log,
  log_into, run_update, after_update, after_rows, only_if, set_search_path, set_read_only, and_then,
  gucs, run_all, apply_per_call_gucs, run_table, query_body,
}

abbrev pub IsSetLocal : Statement → Type 0
IsSetLocal (set_local t) = Unit
IsSetLocal _ = ⊥

-- What runs in the subtransaction: settings only, or all settings of the call and then the query,
-- wrapped and capped.
pub data Inner (serde : Serde) (tool : SqlQueryTool) (query : Text) : List Statement → Type 0 where
  unfinished : (ss : List Statement) → All IsSetLocal ss → Inner serde tool query ss
  selected :
      Inner serde tool query
        (gucs tool ++ select (wrap_with_cap query) (cap_plus_one serde tool.max_rows) ∷ [])

pub logged :
    (s : Statement) (b : State) (ws : List Statement) (levels : List (List Statement))
    → b.levels ≡ ws ∷ levels
    → ((log s b).outer ≡ b.outer) × ((log s b).levels ≡ (ws ++ s ∷ []) ∷ levels)
unfolding log_into
logged s b ws levels e =
    (ap (λ ls. (log_into ls s b).outer) e, ap (λ ls. (log_into ls s b).levels) e)

-- The step adds the given statements to the innermost of the open levels.
pub record Extends (ws : List Statement) (levels : List (List Statement)) (before after : State)
    (added : List Statement) : Type 0 where
  pub same_outer : after.outer ≡ before.outer
  pub same_levels : after.levels ≡ (ws ++ added) ∷ levels

stays :
    (ws : List Statement) (levels : List (List Statement)) (b : State)
    → b.levels ≡ ws ∷ levels
    → Extends ws levels b b []
stays ws levels b e = record {
  same_outer = refl;
  same_levels = e ∙ ap (λ w. w ∷ levels) (sym (append-nil ws));
}

-- A statement and then a step.
after_one :
    (s : Statement) (ws : List Statement) (levels : List (List Statement)) (b after : State)
    (added : List Statement)
    → b.levels ≡ ws ∷ levels
    → Extends (ws ++ s ∷ []) levels (log s b) after added
    → Extends ws levels b after (s ∷ added)
after_one s ws levels b after added e x = record {
  same_outer = x.same_outer ∙ (logged s b ws levels e).0;
  same_levels = x.same_levels ∙ ap (λ w. w ∷ levels) (append_assoc ws (s ∷ []) added);
}

-- Settings that ran up to the first that did not succeed.
record Ran (ss ws : List Statement) (levels : List (List Statement)) (b : State)
    (r : Exit (Unit {0}) × State) : Type 0 where
  added : List Statement
  extends : Extends ws levels b r.1 added
  settings : All IsSetLocal added
  complete : r.0 ≡ returned (ok tt) → added ≡ ss

module _ (db : Db) where
  -- One setting, and the others behind it.
  one-Ran :
      (s : Statement) (ss ws : List Statement) (levels : List (List Statement)) (b : State)
      (a : Answer (Unit {0}))
      → ((c : State)
          → c.levels ≡ (ws ++ s ∷ []) ∷ levels
          → Ran ss (ws ++ s ∷ []) levels c (run_all db ss c))
      → All IsSetLocal (s ∷ ss)
      → b.levels ≡ ws ∷ levels
      → Ran (s ∷ ss) ws levels b (and_then (after_update s b a) (run_all db ss))
  unfolding after_update
  one-Ran s ss ws levels b (answered u) others h e =
      let rest = others (log s b) (logged s b ws levels e).1 in
      record {
        added = s ∷ rest.added;
        extends = after_one s ws levels b _ rest.added e rest.extends;
        settings = (h.0, rest.settings);
        complete = λ k. ap (λ l. s ∷ l) (rest.complete k);
      }
  one-Ran s ss ws levels b (failed m) others h e = record {
    added = [];
    extends = stays ws levels b e;
    settings = tt;
    complete = λ k. absurd (cc);
  }
  one-Ran s ss ws levels b (raises m) others h e = record {
    added = [];
    extends = stays ws levels b e;
    settings = tt;
    complete = λ k. absurd (cc);
  }

  run_all-Ran :
      (ss ws : List Statement) (levels : List (List Statement)) (b : State)
      → All IsSetLocal ss
      → b.levels ≡ ws ∷ levels
      → Ran ss ws levels b (run_all db ss b)
  unfolding run_all run_update
  run_all-Ran [] ws levels b h e = record {
    added = [];
    extends = stays ws levels b e;
    settings = tt;
    complete = λ k. refl;
  }
  run_all-Ran (s ∷ ss) ws levels b h e =
      one-Ran s ss ws levels b (db.update s b) (λ c k. run_all-Ran ss (ws ++ s ∷ []) levels c h.1 k)
        h e

read_only-IsSetLocal : (b : Bool) → All IsSetLocal (only_if b set_read_only)
read_only-IsSetLocal true = (tt, tt)
read_only-IsSetLocal false = tt

path-IsSetLocal :
    (path : Text) (b : Bool)
    → All IsSetLocal
        ((if is_empty path then [] else set_search_path path ∷ []) ++ only_if b set_read_only)
path-IsSetLocal [] b = read_only-IsSetLocal b
path-IsSetLocal (c ∷ path) b = (tt, read_only-IsSetLocal b)

gucs-IsSetLocal : (tool : SqlQueryTool) → All IsSetLocal (gucs tool)
gucs-IsSetLocal tool = (tt, path-IsSetLocal tool.search_path tool.is_readonly)

module _ (db : Db) (serde : Serde) (tool : SqlQueryTool) (query : Text) where
  -- The statements that the body adds.
  pub record Body (ws : List Statement) (levels : List (List Statement)) (b after : State)
      : Type 0 where
    pub added : List Statement
    pub extends : Extends ws levels b after added
    pub inner : Inner serde tool query added

  selects :
      (ws added : List Statement) (levels : List (List Statement)) (b after : State)
      (a : Answer (List (Option Text)))
      → Extends ws levels b after added
      → All IsSetLocal added
      → added ≡ gucs tool
      → Body ws levels b (after_rows serde tool query after a).1
  unfolding after_rows
  selects ws added levels b after (raises e) x h k = record {
    added = added;
    extends = x;
    inner = unfinished added h;
  }
  selects ws added levels b after (failed e) x h k = record {
    added = added;
    extends = x;
    inner = unfinished added h;
  }
  selects ws added levels b after (answered rows) x h k =
      let s = select (wrap_with_cap query) (cap_plus_one serde tool.max_rows) in
      let l = logged s after (ws ++ added) levels x.same_levels in
      record {
        added = added ++ s ∷ [];
        extends = record {
          same_outer = l.0 ∙ x.same_outer;
          same_levels = l.1 ∙ ap (λ w. w ∷ levels) (append_assoc ws added (s ∷ []));
        };
        inner = subst (λ g. Inner serde tool query (g ++ s ∷ [])) (sym k) selected;
      }

  behind_settings :
      (ws : List Statement) (levels : List (List Statement)) (b : State)
      (r : Exit (Unit {0}) × State)
      → Ran (gucs tool) ws levels b r
      → Body ws levels b (and_then r (run_table db serde tool query)).1
  unfolding run_table
  behind_settings ws levels b (returned (ok u), after) x =
      selects ws x.added levels b after
        (db.rows (wrap_with_cap query) (cap_plus_one serde tool.max_rows) after) x.extends
        x.settings (x.complete refl)
  behind_settings ws levels b (returned (err e), after) x = record {
    added = x.added;
    extends = x.extends;
    inner = unfinished x.added x.settings;
  }
  behind_settings ws levels b (raised e, after) x = record {
    added = x.added;
    extends = x.extends;
    inner = unfinished x.added x.settings;
  }

  pub query_body-Body :
      (ws : List Statement) (levels : List (List Statement)) (b : State)
      → b.levels ≡ ws ∷ levels
      → Body ws levels b (query_body db serde tool query b).1
  unfolding query_body apply_per_call_gucs
  query_body-Body ws levels b e =
      behind_settings ws levels b (run_all db (gucs tool) b)
        (run_all-Ran db (gucs tool) ws levels b (gucs-IsSetLocal tool) e)
