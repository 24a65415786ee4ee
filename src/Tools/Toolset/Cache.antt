-- ===== src/Tools/Toolset/Cache.antt =====
-- The cache of user-defined tools of src/tools/mod.rs.
use pg_ask.Prelude.{
  ℕ, ◌+◌, ◌-◌, ◌/◌, ◌<◌, Bool, true, none, some, List, ◌≡◌, ◌≢◌, refl, ap, ◌∙◌, arith, inl, inr,
  ltb, Text, eq, eq_iff, eq_refl, Bool-cases,
}
use pg_ask.Errors.{ok}
use pg_ask.Json.{Serde}
use pg_ask.Tools.Toolset.{
  UserDefinedTool, Backend, tool_cache_ttl_secs, load_user_tools_from_spi, cache_hit,
  load_user_tools,
}

other_role :
    (b : Backend) (user : Text) (ts : ℕ) (cached : List UserDefinedTool)
    → user ≢ b.current_user
    → cache_hit b (some (user, ts, cached)) ≡ none
unfolding cache_hit
other_role b user ts cached other = elim (Bool-cases (eq user b.current_user)) [
  | inl e ↦ absurd (other ((eq_iff user b.current_user).0 e))
  | inr e ↦ rw e refl
]

own_recent :
    (b : Backend) (ts : ℕ) (cached : List UserDefinedTool)
    → b.now_ms < ts + 5000
    → cache_hit b (some (b.current_user, ts, cached)) ≡ some cached
unfolding cache_hit
own_recent b ts cached recent =
    let young : ltb ((b.now_ms - ts) / 1000) tool_cache_ttl_secs ≡ true = ground (arith, recent) in
    rw (eq_refl b.current_user, young) refl

module _ (serde : Serde) (readonly : Bool) (timeout : ℕ) (b : Backend) where
  on_miss :
      (tools : List UserDefinedTool)
      → cache_hit b b.tool_cache ≡ none
      → load_user_tools_from_spi serde readonly timeout b ≡ ok tools
      → load_user_tools serde readonly timeout b
        ≡ (ok tools, record b { tool_cache = some (b.current_user, b.now_ms, tools) })
  unfolding load_user_tools
  on_miss tools h fresh = rw (h, load_user_tools, fresh) refl

  on_hit :
      (tools : List UserDefinedTool)
      → cache_hit b b.tool_cache ≡ some tools
      → load_user_tools serde readonly timeout b ≡ (ok tools, b)
  unfolding load_user_tools
  on_hit tools h = rw (h, load_user_tools) refl

-- What one role has cached is never given to another: with the cache filled by another role, the
-- tools are read from the table for the current one, and the cache is then its own.
pub load_user_tools_other_role :
    (serde : Serde) (readonly : Bool) (timeout : ℕ) (b : Backend) (user : Text) (ts : ℕ)
    (cached tools : List UserDefinedTool)
    → b.tool_cache ≡ some (user, ts, cached)
    → user ≢ b.current_user
    → load_user_tools_from_spi serde readonly timeout b ≡ ok tools
    → ((load_user_tools serde readonly timeout b).0 ≡ ok tools)
      × ((load_user_tools serde readonly timeout b).1.tool_cache
          ≡ some (b.current_user, b.now_ms, tools))
load_user_tools_other_role serde readonly timeout b user ts cached tools c other fresh =
    let loaded =
      on_miss serde readonly timeout b tools
        (ap (cache_hit b) c ∙ other_role b user ts cached other) fresh in
    (ap (λ r. r.0) loaded, ap (λ r. r.1.tool_cache) loaded)

-- For five seconds the tools that a role has cached keep the policy they were loaded with: another
-- `readonly` or statement timeout in the configuration of the next call does not reach them.
pub load_user_tools_stale :
    (serde : Serde) (readonly : Bool) (timeout : ℕ) (b : Backend) (ts : ℕ)
    (cached : List UserDefinedTool)
    → b.tool_cache ≡ some (b.current_user, ts, cached)
    → b.now_ms < ts + 5000
    → (load_user_tools serde readonly timeout b).0 ≡ ok cached
load_user_tools_stale serde readonly timeout b ts cached c recent =
    ap (λ r. r.0)
      (on_hit serde readonly timeout b cached (ap (cache_hit b) c ∙ own_recent b ts cached recent))
