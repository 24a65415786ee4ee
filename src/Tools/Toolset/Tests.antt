-- ===== src/Tools/Toolset/Tests.antt =====
-- Runs of the toolset of src/tools/mod.rs.
use pg_ask.Prelude.{
  true, false, none, some, [], ◌∷◌, ◌≡◌, ◌≢◌, refl, arith, eq_iff, Text, codes, eq,
}
use pg_ask.Checked.{pass}
use pg_ask.Errors.{ok}
use pg_ask.Json.{object, end, Serde}
use pg_ask.Config.Load.{RuntimeConfig}
use pg_ask.Tools.Toolset.{
  UserDefinedTool, Backend, tool_of, load_user_tools_from_spi, load_user_tools, tools_of,
}
use pg_ask.Tools.Toolset.Cache.{load_user_tools_stale}

abbrev serde : Serde
serde = record {
  to_string = λ v. codes "{}";
  to_string_pretty = λ v. codes "{}";
  from_str = λ s. pass (object end);
}

abbrev cfg : RuntimeConfig
cfg = record {
  provider = codes "openai";
  api_key = codes "sk";
  model = none;
  base_url = none;
  max_tokens = 4096;
  max_iterations = 24;
  readonly = true;
  http_connect_timeout_ms = 10000;
  http_total_timeout_ms = 120000;
  tool_statement_timeout_ms = 10000;
  tool_max_rows = 200;
  trace_enabled = true;
  events_enabled = false;
  schema_char_budget = 16000;
  embedding_provider = none;
  embedding_api_key = none;
  embedding_model = none;
  embedding_base_url = none;
  embedding_dimensions = 1536;
  memory_search_alpha = 0;
  memory_enabled = true;
  allow_http = false;
  http_allow_list = [];
  allow_private_hosts = false;
  sensitive_columns = codes "password" ∷ [];
}

abbrev bump : UserDefinedTool
bump = tool_of serde false 10000 (codes "bump") (codes "UPDATE t SET n = n + 1") (object end)

-- Ada's backend, two seconds after Bob's writable tool was cached.
abbrev backend : Text → Backend
backend user = record {
  current_user = user;
  now_ms = 3000;
  rows =
      record {
        owner = codes "ada";
        name = some (codes "count");
        spec = none;
        body = some (codes "SELECT count(*) FROM t");
      }
      ∷ [];
  read_error = none;
  tool_cache = some (codes "bob", 1000, bump ∷ []);
}

abbrev count : UserDefinedTool
count = tool_of serde true 10000 (codes "count") (codes "SELECT count(*) FROM t") (object end)

fresh_test : load_user_tools_from_spi serde true 10000 (backend (codes "ada")) ≡ ok (count ∷ [])
unfolding load_user_tools_from_spi tools_of eq
fresh_test = refl

bob_is_not_ada : codes "bob" ≢ codes "ada"
unfolding eq
bob_is_not_ada e =
    let k : eq (codes "bob") (codes "ada") ≡ true = (eq_iff (codes "bob") (codes "ada")).1 e in cc

load_user_tools_stale_example :
    (load_user_tools serde true 500 (backend (codes "bob"))).0 ≡ ok (bump ∷ [])
load_user_tools_stale_example =
    load_user_tools_stale serde true 500 (backend (codes "bob")) 1000 (bump ∷ []) refl (omega arith)
