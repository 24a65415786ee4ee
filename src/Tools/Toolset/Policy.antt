-- ===== src/Tools/Toolset/Policy.antt =====
-- What `default_toolset` of src/tools/mod.rs hands to the agent.
use pg_ask.Prelude.{Bool, true, List, ◌≡◌, map, All, Text}
use pg_ask.Json.{Serde}
use pg_ask.Config.Load.{RuntimeConfig}
use pg_ask.Tools.Toolset.{
  UserDefinedTool, BuiltTool, sql_query, sample_table, describe_table, recall, http_fetch,
  user_defined,
}

-- The tool has the row cap, the timeouts, the redaction and the readonly setting of the
-- configuration, and the network is only there where it is allowed.
pub data Follows (cfg : RuntimeConfig) (include_memory : Bool) : BuiltTool → Type 0 where
  queries :
      (path : Text)
      → Follows cfg include_memory (
          sql_query cfg.readonly cfg.tool_max_rows cfg.tool_statement_timeout_ms
            cfg.sensitive_columns path)
  samples :
      (path : Text)
      → Follows cfg include_memory (
          sample_table cfg.readonly cfg.tool_max_rows cfg.tool_statement_timeout_ms
            cfg.sensitive_columns path)
  describes : Follows cfg include_memory describe_table
  recalls : include_memory ≡ true → Follows cfg include_memory (recall cfg)
  fetches :
      cfg.allow_http ≡ true
      → Follows cfg include_memory (
          http_fetch cfg.http_connect_timeout_ms cfg.http_total_timeout_ms cfg.http_allow_list
            cfg.allow_private_hosts)
  runs :
      (t : UserDefinedTool)
      → t.readonly ≡ cfg.readonly
      → t.statement_timeout_ms ≡ cfg.tool_statement_timeout_ms
      → Follows cfg include_memory (user_defined t)

module _ (serde : Serde) (cfg : RuntimeConfig) (include_describe_table include_memory : Bool) where
  abbrev Kept : List UserDefinedTool → Type 0
  Kept ts = All (Follows cfg include_memory) (map user_defined ts)
