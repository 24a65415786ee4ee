-- ===== src/Schema/Summary/Fresh.antt =====
-- Whose schema `summarize_within` of src/schema/mod.rs shows.
use pg_ask.Prelude.{
  ℕ, ◌-◌, ◌<◌, true, Option, none, some, ◌≡◌, refl, ◌∙◌, subst, ◌⊎◌, inl, inr, Bool-cases, arith,
}
use pg_ask.Errors.{Result, ok, err}
use pg_ask.Schema.Summary.{
  SchemaSummary, Catalog, Entry, cache_ttl_ms, is_hit, compute_summary, store, looked_up,
  summarize_within,
}

module _ {World : Type 0} (catalog : Catalog World) where
  -- The entry is what was computed in some state, for the role and the budget that it names.
  pub record IsComputed (e : Entry) : Type 0 where
    pub past : World
    pub computed : compute_summary catalog e.budget past ≡ ok e.summary
    pub role : catalog.current_user_oid past ≡ e.role
    pub stored : e.ts ≡ catalog.now_ms (catalog.scanned past)

  abbrev pub CacheIsComputed : Option Entry → Type 0
  CacheIsComputed none = Unit
  CacheIsComputed (some e) = IsComputed e

  -- A summary of this state, or one that was computed for the same role and budget less than the
  -- time to live ago.
  pub record Shown (budget : ℕ) (w : World) (s : SchemaSummary) : Type 0 where
    pub past : World
    pub computed : compute_summary catalog budget past ≡ ok s
    pub role : catalog.current_user_oid past ≡ catalog.current_user_oid w
    pub recent :
        (past ≡ w) ⊎ (catalog.now_ms w - catalog.now_ms (catalog.scanned past) < cache_ttl_ms)

  -- A sequence of calls in any states of the world, from an empty cache.
  pub data Reach : Option Entry → Type 0 where
    start : Reach none
    call :
        {cache : Option Entry} (budget : ℕ) (w : World)
        → Reach cache
        → Reach (summarize_within catalog budget w cache).1

  hit_parts :
      (role budget now : ℕ) (e : Entry)
      → is_hit role budget now e ≡ true
      → (e.role ≡ role) × (e.budget ≡ budget) × (now - e.ts < cache_ttl_ms)
  hit_parts role budget now e h = (ground arith, ground arith, ground arith)

  hit-Shown :
      (budget : ℕ) (w : World) (e : Entry)
      → IsComputed e
      → is_hit (catalog.current_user_oid w) budget (catalog.now_ms w) e ≡ true
      → Shown budget w e.summary
  hit-Shown budget w e c h =
      let (r, b, t) = hit_parts (catalog.current_user_oid w) budget (catalog.now_ms w) e h in
      record {
        past = c.past;
        computed = subst (λ n. compute_summary catalog n c.past ≡ ok e.summary) b c.computed;
        role = c.role ∙ r;
        recent = inr (subst (λ n. catalog.now_ms w - n < cache_ttl_ms) c.stored t);
      }

  -- An answer of the call, with a cache that is still computed.
  abbrev Good : ℕ → World → Result SchemaSummary × Option Entry → Type 0
  Good budget w r = CacheIsComputed r.1 × ((s : SchemaSummary) → r.0 ≡ ok s → Shown budget w s)

  store-Good :
      (budget : ℕ) (w : World) (cache : Option Entry) (answer : Result SchemaSummary)
      → compute_summary catalog budget w ≡ answer
      → CacheIsComputed cache
      → Good budget w (store catalog budget w cache answer)
  unfolding store
  store-Good budget w cache (err e) h c = (c, λ s q. absurd (cc q))
  store-Good budget w cache (ok summary) h c = (
    record { past = w; computed = h; role = refl; stored = refl },
    λ s q. record { past = w; computed = h ∙ q; role = refl; recent = inl refl },
  )

  summarize-Good :
      (budget : ℕ) (w : World) (cache : Option Entry)
      → CacheIsComputed cache
      → Good budget w (summarize_within catalog budget w cache)
  unfolding summarize_within looked_up
  summarize-Good budget w none c = store-Good budget w none _ refl c
  summarize-Good budget w (some e) c =
      elim (Bool-cases (is_hit (catalog.current_user_oid w) budget (catalog.now_ms w) e)) [
        | inl h ↦ rw h (c, λ s q. subst (Shown budget w) (cc q) (hit-Shown budget w e c h))
        | inr h ↦ rw h (store-Good budget w (some e) _ refl c)
      ]

  Reach-IsComputed : {cache : Option Entry} → Reach cache → CacheIsComputed cache
  Reach-IsComputed start = tt
  Reach-IsComputed (call {cache} budget w r) =
      (summarize-Good budget w cache (Reach-IsComputed r)).0

  -- Whatever calls were made before, in whatever states of the backend: a summary that
  -- `summarize_within` shows is the one that is computed now, or one that was computed for the same
  -- role and the same budget and stored less than 60 seconds ago. A role never sees what another
  -- role's privileges showed.
  pub summarize_within-Shown :
      {cache : Option Entry} (budget : ℕ) (w : World) (s : SchemaSummary)
      → Reach cache
      → (summarize_within catalog budget w cache).0 ≡ ok s
      → Shown budget w s
  summarize_within-Shown {cache} budget w s r h =
      (summarize-Good budget w cache (Reach-IsComputed r)).1 s h
