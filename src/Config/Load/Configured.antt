-- ===== src/Config/Load/Configured.antt =====
-- When `RuntimeConfig::load` of src/infra/config.rs succeeds.
use pg_ask.Prelude.{suc, true, Option, none, some, ◌≡◌, ◌⊎◌, Text, codes}
use pg_ask.Config.Table.{ConfigTable, find}
use pg_ask.Config.Load.{ℤ, pos, CString, Gucs, guc_string, Std, is_fixture}

abbrev pub IsPositive : ℤ → Type 0
IsPositive (pos (suc n)) = Unit
IsPositive _ = ⊥

module _ (std : Std) (gucs : Gucs) (table : ConfigTable) where
  -- The value that is used for a setting: its own, or else the one in the table.
  abbrev pub Found : Text → Option CString → Text → Type 0
  Found key guc v =
      (guc_string guc ≡ some v)
      ⊎ ((guc_string guc ≡ none) × (table.read_error ≡ none) × (find table.rows key ≡ some v))

  -- What `load` needs: a provider, a key for it unless it is the fixture, and five positive limits.
  pub record IsConfigured : Type 0 where
    pub provider : Text
    pub found : Found (codes "provider") gucs.provider provider
    pub key :
        (is_fixture std gucs table provider ≡ true)
        ⊎ ((k : Text) × Found (codes "api_key") gucs.api_key k)
    pub tokens : IsPositive gucs.max_tokens
    pub iterations : IsPositive gucs.max_iterations
    pub connect : IsPositive gucs.http_connect_timeout_ms
    pub total : IsPositive gucs.http_total_timeout_ms
    pub statement : IsPositive gucs.tool_statement_timeout_ms
