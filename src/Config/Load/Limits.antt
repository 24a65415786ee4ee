-- ===== src/Config/Load/Limits.antt =====
-- What the snapshot of `RuntimeConfig::load` of src/infra/config.rs holds.
use pg_ask.Prelude.{
  ℕ, zero, suc, ◌≤◌, true, Option, none, some, ◌≡◌, refl, sym, ◌∙◌, arith, ◌⊎◌, inl, inr, Text,
  codes, eq_ignore_ascii_case, trim, Bool-cases, subst,
}
use pg_ask.Errors.{ok, >>=-eq-ok}
use pg_ask.Config.Table.{ConfigTable}
use pg_ask.Config.Load.{
  ℤ, pos, negsuc, Gucs, RuntimeConfig, clamp_pos, at_least, with_fallback, Std, required_string,
  optional_string, load_api_key, snapshot, load,
}

-- Every limit is set: no timeout, budget or cap is zero.
pub record InLimits (cfg : RuntimeConfig) : Type 0 where
  pub tokens : 1 ≤ cfg.max_tokens
  pub iterations : 1 ≤ cfg.max_iterations
  pub connect : 1 ≤ cfg.http_connect_timeout_ms
  pub total : 1 ≤ cfg.http_total_timeout_ms
  pub statement : 1 ≤ cfg.tool_statement_timeout_ms
  pub rows : 1 ≤ cfg.tool_max_rows
  pub schema : 512 ≤ cfg.schema_char_budget
  pub dimensions : 8 ≤ cfg.embedding_dimensions

clamp_pos-positive : (key : Text) (v : ℤ) (n : ℕ) → clamp_pos key v ≡ ok n → 1 ≤ n
unfolding clamp_pos
clamp_pos-positive key (pos zero) n h = absurd (cc)
clamp_pos-positive key (pos (suc m)) n h = ground arith
clamp_pos-positive key (negsuc m) n h = absurd (cc)

at_least-bound : (low : ℕ) (v : ℤ) → low ≤ at_least low v
at_least-bound low (pos n) = ground arith
at_least-bound low (negsuc n) = omega arith

fallback :
    (own ep : Option Text) (provider api_key k : Text)
    → with_fallback own ep provider api_key ≡ some k
    → (own ≡ some k)
      ⊎ ((k ≡ api_key)
          × ((e : Text) × (ep ≡ some e) × (eq_ignore_ascii_case (trim e) provider ≡ true)))
fallback (some o) ep provider api_key k h = inl h
fallback none none provider api_key k h = absurd (cc)
fallback none (some e) provider api_key k h =
    elim (Bool-cases (eq_ignore_ascii_case (trim e) provider)) [
      | inl t ↦ inr (let m = rw t at h in cc, (e, refl, t))
      | inr t ↦ absurd (let m = rw t at h in cc)
    ]

module _ (std : Std) (gucs : Gucs) (table : ConfigTable) where
  -- The steps of a load that succeeds.
  record Loaded (cfg : RuntimeConfig) : Type 0 where
    provider : required_string std gucs table (codes "provider") gucs.provider ≡ ok cfg.provider
    key : load_api_key std gucs table cfg.provider ≡ ok cfg.api_key
    limits : InLimits cfg
    embedding :
        cfg.embedding_api_key
        ≡ with_fallback
            (optional_string std gucs table (codes "embedding_api_key") gucs.embedding_api_key)
            cfg.embedding_provider
            cfg.provider
            cfg.api_key

  loaded : (cfg : RuntimeConfig) → load std gucs table ≡ ok cfg → Loaded cfg
  unfolding load
  loaded cfg h0 =
      let (p, hp, h1) =
        >>=-eq-ok (required_string std gucs table (codes "provider") gucs.provider) _ h0 in
      let (k, hk, h2) = >>=-eq-ok (load_api_key std gucs table p) _ h1 in
      let (t, ht, h3) = >>=-eq-ok (clamp_pos (codes "max_tokens") gucs.max_tokens) _ h2 in
      let (i, hi, h4) = >>=-eq-ok (clamp_pos (codes "max_iterations") gucs.max_iterations) _ h3 in
      let (c, hc, h5) =
        >>=-eq-ok (clamp_pos (codes "http_connect_timeout_ms") gucs.http_connect_timeout_ms) _ h4 in
      let (o, ho, h6) =
        >>=-eq-ok (clamp_pos (codes "http_total_timeout_ms") gucs.http_total_timeout_ms) _ h5 in
      let (s, hs, h7) =
        >>=-eq-ok (clamp_pos (codes "tool_statement_timeout_ms") gucs.tool_statement_timeout_ms) _
          h6 in
      let same : snapshot std gucs table p k t i c o s ≡ cfg = cc in
      subst Loaded same (record {
        provider = hp;
        key = hk;
        limits = record {
          tokens = clamp_pos-positive _ _ t ht;
          iterations = clamp_pos-positive _ _ i hi;
          connect = clamp_pos-positive _ _ c hc;
          total = clamp_pos-positive _ _ o ho;
          statement = clamp_pos-positive _ _ s hs;
          rows = at_least-bound 1 gucs.tool_max_rows;
          schema = at_least-bound 512 gucs.schema_char_budget;
          dimensions = at_least-bound 8 gucs.embedding_dimensions;
        };
        embedding = refl;
      })

  -- Every snapshot that `load` returns is within the limits: the token and iteration budgets, the
  -- timeouts and the row cap are at least 1, the schema budget at least 512, the dimensions at
  -- least 8.
  pub load-InLimits : (cfg : RuntimeConfig) → load std gucs table ≡ ok cfg → InLimits cfg
  load-InLimits cfg h = let l = loaded cfg h in l.limits

  -- The embedding key of a loaded snapshot is the one set for it, or it is the chat key, and this
  -- only where the embedding provider, trimmed and without case, is the chat provider.
  pub load_embedding_key :
      (cfg : RuntimeConfig) (k : Text)
      → load std gucs table ≡ ok cfg
      → cfg.embedding_api_key ≡ some k
      → (optional_string std gucs table (codes "embedding_api_key") gucs.embedding_api_key ≡ some k)
        ⊎ ((k ≡ cfg.api_key)
            × ((ep : Text) × (cfg.embedding_provider ≡ some ep)
                × (eq_ignore_ascii_case (trim ep) cfg.provider ≡ true)))
  load_embedding_key cfg k h e =
      let l = loaded cfg h in
      fallback _ cfg.embedding_provider cfg.provider cfg.api_key k (sym l.embedding ∙ e)
