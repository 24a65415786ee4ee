-- ===== src/Config.antt =====
-- src/infra/config.rs and src/api/config.rs: settings, their fallback table `ask._config`, and the
-- snapshot that a call of the agent runs with.
pub mod Table
pub mod Load
use pg_ask.Prelude.{Bool, List, [], ◌∷◌, Text, codes, any, eq_ignore_ascii_case, contains}

abbrev pub known_keys : List Text
known_keys =
    codes "provider"
    ∷ codes "api_key"
    ∷ codes "model"
    ∷ codes "base_url"
    ∷ codes "max_tokens"
    ∷ codes "max_iterations"
    ∷ codes "readonly"
    ∷ codes "http_connect_timeout_ms"
    ∷ codes "http_total_timeout_ms"
    ∷ codes "tool_statement_timeout_ms"
    ∷ codes "tool_max_rows"
    ∷ codes "trace_enabled"
    ∷ codes "events_enabled"
    ∷ codes "events_max_payload_bytes"
    ∷ codes "events_max_per_minute"
    ∷ codes "events_dedup_window_ms"
    ∷ codes "jobs_enabled"
    ∷ codes "jobs_max_attempts"
    ∷ codes "jobs_orphan_timeout_ms"
    ∷ codes "jobs_batch"
    ∷ codes "jobs_poll_interval_ms"
    ∷ codes "schema_char_budget"
    ∷ codes "embedding_provider"
    ∷ codes "embedding_api_key"
    ∷ codes "embedding_model"
    ∷ codes "embedding_base_url"
    ∷ codes "embedding_dimensions"
    ∷ codes "memory_search_alpha"
    ∷ codes "memory_enabled"
    ∷ codes "allow_http"
    ∷ codes "http_allow_list"
    ∷ codes "allow_private_hosts"
    ∷ codes "sensitive_columns"
    ∷ []

unfoldable pub is_known_key : Text → Bool
is_known_key key = contains known_keys key

abbrev pub secret_keys : List Text
secret_keys = codes "api_key" ∷ codes "embedding_api_key" ∷ []

unfoldable pub is_secret : Text → Bool
is_secret key = any (λ s. eq_ignore_ascii_case s key) secret_keys
