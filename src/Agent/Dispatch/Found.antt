-- ===== src/Agent/Dispatch/Found.antt =====
-- What `dispatch` of src/agent/dispatch.rs does to the state is done by one of the tools, or is
-- nothing.
use pg_ask.Prelude.{
  some, List, [], ◌∷◌, Text, eq, All, subst, Bool-cases, ◌≡◌, Option-cases, inl, inr,
}
use pg_ask.Json.{Value}
use pg_ask.Agent.Dispatch.{Tool, find_tool, dispatch}

module _ {World : Type 0} (P : Tool World → Type 0) where
  pub find_tool-All :
      (tools : List (Tool World)) (name : Text)
      → All P tools
      → {t : Tool World} → find_tool tools name ≡ some t
      → P t
  unfolding find_tool
  find_tool-All [] name q h = absurd (cc)
  find_tool-All (t ∷ ts) name q h = elim (Bool-cases (eq t.spec.name name)) [
    | inl e ↦ let k : t ≡ _ = (let m = rw e at h in cc) in subst P k q.0
    | inr e ↦ find_tool-All ts name q.1 (rw e at h)
  ]

module _ {World : Type 0} (Keeps : World → World → Type 0) where
  abbrev pub InvokeKeeps : Tool World → Type 0
  InvokeKeeps t = (args : Value) (w : World) → Keeps w (t.invoke args w).1

  -- If every tool keeps the relation and it is reflexive, `dispatch` keeps it.
  pub dispatch-Keeps :
      (tools : List (Tool World)) (name : Text) (args : Value) (w : World)
      → ((w : World) → Keeps w w)
      → All InvokeKeeps tools
      → Keeps w (dispatch tools name args w).1
  unfolding dispatch
  dispatch-Keeps tools name args w r q = elim (Option-cases (find_tool tools name)) [
    | inl (t, e) ↦ rw (e, dispatch) (find_tool-All InvokeKeeps tools name q e args w)
    | inr e ↦ rw (e, dispatch) (r w)
  ]
