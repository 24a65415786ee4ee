-- ===== src/Tools/Toolset.antt =====
-- src/tools/mod.rs: the toolset of a call, and the user-defined tools with their cache per backend.
pub mod Policy
pub mod Cache
pub mod Tests
use pg_ask.Prelude.{
  ℕ, ◌-◌, ◌/◌, ◌+◌, Bool, true, false, ◌&&◌, ◌||◌, Option, none, some, List, [], ◌∷◌, ◌++◌, ltb,
  if◌then◌else◌, is_empty, map, Text, codes, eq,
}
use pg_ask.Errors.{AskError, Result, ok, err, ◌>>=◌}
use pg_ask.Checked.{Checked, pass, fail}
use pg_ask.Json.{Value, string, object, Fields, end, field, get, get_str, Serde}
use pg_ask.Providers.{ToolSpec}
use pg_ask.Config.Load.{RuntimeConfig}

pub record UserDefinedTool : Type 0 where
  pub name : Text
  pub body : Text
  pub spec : ToolSpec
  pub readonly : Bool
  pub statement_timeout_ms : ℕ

-- A row of `ask._tools`.
pub record ToolRow : Type 0 where
  pub owner : Text
  pub name : Option Text
  pub spec : Option Text
  pub body : Option Text

-- The backend: the role, the clock in milliseconds, the table with the error that a read of it
-- raises, if it does, and the cache with the role and the time of its load.
pub record Backend : Type 0 where
  pub current_user : Text
  pub now_ms : ℕ
  pub rows : List ToolRow
  pub read_error : Option AskError
  pub tool_cache : Option (Text × ℕ × List UserDefinedTool)

abbrev pub tool_cache_ttl_secs : ℕ
tool_cache_ttl_secs = 5

abbrev pub or_default : Option Text → Text
or_default none = []
or_default (some v) = v

abbrev or_empty_object : Checked Value → Value
or_empty_object (pass v) = v
or_empty_object (fail e) = object end

abbrev or_object_schema : Option Value → Value
or_object_schema none = object (field (codes "type") (string (codes "object")) end)
or_object_schema (some v) = v

-- `ts.elapsed().as_secs() < TOOL_CACHE_TTL_SECS`, for the entry's own role
pub cache_hit : Backend → Option (Text × ℕ × List UserDefinedTool) → Option (List UserDefinedTool)
cache_hit b none = none
cache_hit b (some (user, ts, tools)) =
    if eq user b.current_user && ltb ((b.now_ms - ts) / 1000) tool_cache_ttl_secs
    then some tools
    else none

abbrev pub filled : Backend → Result (List UserDefinedTool) → Backend
filled b (err e) = b
filled b (ok tools) = record b { tool_cache = some (b.current_user, b.now_ms, tools) }

module _ (serde : Serde) (readonly : Bool) (statement_timeout_ms : ℕ) where
  pub tool_of : Text → Text → Value → UserDefinedTool
  tool_of name body spec_json = record {
    name = name;
    body = body;
    spec = record {
      name = name;
      description = or_default (get_str spec_json (codes "description"));
      input_schema = or_object_schema (get spec_json (codes "input_schema"));
    };
    readonly = readonly;
    statement_timeout_ms = statement_timeout_ms;
  }

  -- `WHERE owner = current_user`, and the loop over the rows.
  pub tools_of : Text → List ToolRow → List UserDefinedTool
  tools_of user [] = []
  tools_of user (row ∷ rows) =
      let rest = tools_of user rows in
      let name = or_default row.name in
      let body = or_default row.body in
      if eq row.owner user
      then (if is_empty name || is_empty body
          then rest
          else tool_of name body (or_empty_object (serde.from_str (or_default row.spec))) ∷ rest)
      else rest

  pub load_user_tools_from_spi : Backend → Result (List UserDefinedTool)
  load_user_tools_from_spi b = elim b.read_error [
    | some e ↦ err e
    | none ↦ ok (tools_of b.current_user b.rows)
  ]

  -- The result, and the backend behind it.
  pub load_user_tools : Backend → Result (List UserDefinedTool) × Backend
  load_user_tools b = elim (cache_hit b b.tool_cache) [
    | some cached ↦ (ok cached, b)
    | none ↦ let fresh = load_user_tools_from_spi b in (fresh, filled b fresh)
  ]

-- The tools that `default_toolset` builds, with what they are given of the configuration.
pub data BuiltTool : Type 0 where
  sql_query sample_table : Bool → ℕ → ℕ → List Text → Text → BuiltTool
  describe_table : BuiltTool
  recall : RuntimeConfig → BuiltTool
  http_fetch : ℕ → ℕ → List Text → Bool → BuiltTool
  user_defined : UserDefinedTool → BuiltTool

abbrev pub only_if : Bool → BuiltTool → List BuiltTool
only_if b t = if b then t ∷ [] else []

abbrev pub or_no_tools : Result (List UserDefinedTool) → List UserDefinedTool
or_no_tools (ok tools) = tools
or_no_tools (err e) = []

module _ (serde : Serde) where
  pub default_toolset : RuntimeConfig → Bool → Bool → Text → Backend → List BuiltTool × Backend
  default_toolset cfg include_describe_table include_memory search_path b =
      let user = load_user_tools serde cfg.readonly cfg.tool_statement_timeout_ms b in
      (
        sql_query cfg.readonly cfg.tool_max_rows cfg.tool_statement_timeout_ms cfg.sensitive_columns
              search_path
            ∷ (only_if include_describe_table describe_table
                ++ (only_if include_memory (recall cfg)
                    ++ (only_if cfg.allow_http (
                          http_fetch cfg.http_connect_timeout_ms cfg.http_total_timeout_ms
                            cfg.http_allow_list cfg.allow_private_hosts)
                        ++ (sample_table cfg.readonly cfg.tool_max_rows
                              cfg.tool_statement_timeout_ms cfg.sensitive_columns search_path
                            ∷ map user_defined (or_no_tools user.0))))),
        user.1,
      )
