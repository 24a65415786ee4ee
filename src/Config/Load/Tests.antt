-- ===== src/Config/Load/Tests.antt =====
-- Runs of `RuntimeConfig::load`.
use pg_ask.Prelude.{
  true, false, none, some, [], ◌∷◌, ◌≡◌, refl, codes, eq_ignore_ascii_case, trim, eq,
}
use pg_ask.Errors.{ok}
use pg_ask.Config.Table.{ConfigTable, read_table, find}
use pg_ask.Config.Load.{
  pos, utf8, Gucs, RuntimeConfig, Std, optional_string, snapshot, load, required_string,
  load_api_key, clamp_pos,
}

-- A set that is read in the order in which it was filled, with duplicates kept.
abbrev std : Std
std = record { hash_set = λ xs. xs; clamp = λ v low high. v }

abbrev gucs : Gucs
gucs = record {
  provider = some (utf8 (codes "openai"));
  api_key = none;
  model = none;
  base_url = none;
  max_tokens = pos 4096;
  max_iterations = pos 24;
  readonly = true;
  http_connect_timeout_ms = pos 10000;
  http_total_timeout_ms = pos 120000;
  tool_statement_timeout_ms = pos 10000;
  tool_max_rows = pos 200;
  trace_enabled = true;
  events_enabled = false;
  schema_char_budget = pos 16000;
  embedding_provider = some (utf8 (codes "OpenAI"));
  embedding_api_key = none;
  embedding_model = none;
  embedding_base_url = none;
  embedding_dimensions = pos 1536;
  memory_search_alpha = 0;
  memory_enabled = true;
  allow_http = false;
  http_allow_list = some (utf8 (codes "a.com, ,b.com"));
  allow_private_hosts = false;
  sensitive_columns = none;
}

abbrev table : ConfigTable
table = record { rows = (codes "api_key", codes "sk") ∷ []; read_error = none; write_error = none }

abbrev cfg : RuntimeConfig
cfg = snapshot std gucs table (codes "openai") (codes "sk") 4096 24 10000 120000 10000

load_test : load std gucs table ≡ ok cfg
unfolding load required_string load_api_key eq_ignore_ascii_case trim read_table find clamp_pos
load_test = refl

embedding_key_test : cfg.embedding_api_key ≡ some (codes "sk")
unfolding optional_string read_table find eq eq_ignore_ascii_case trim
embedding_key_test = refl
