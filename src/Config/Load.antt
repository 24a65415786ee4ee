-- ===== src/Config/Load.antt =====
-- `RuntimeConfig::load` of src/infra/config.rs. The order in which a `HashSet` is read is a
-- parameter, and so is `f64::clamp`; floats are their bits.
pub mod Limits
pub mod Configured
pub mod Lists
pub mod Tests
use pg_ask.Prelude.{
  ℕ, zero, suc, ◌+◌, Bool, true, false, not, Option, none, some, List, [], ◌∷◌, ◌++◌, ◌==◌, leb,
  if◌then◌else◌, is_empty, map, Text, codes, eq_ignore_ascii_case, trim, decimal,
}
use pg_ask.Errors.{AskError, missing_config, invalid_config, Result, ok, err, ◌>>=◌}
use pg_ask.Config.Table.{ConfigTable, read_table}

-- `i32`
pub data ℤ : Type 0 where
  pos : ℕ → ℤ
  negsuc : ℕ → ℤ

-- A string setting: `GucSetting<Option<CString>>`.
pub data CString : Type 0 where
  utf8 : Text → CString
  not_utf8 : CString

-- The settings, as their `get()` returns them.
pub record Gucs : Type 0 where
  pub provider : Option CString
  pub api_key : Option CString
  pub model : Option CString
  pub base_url : Option CString
  pub max_tokens : ℤ
  pub max_iterations : ℤ
  pub readonly : Bool
  pub http_connect_timeout_ms : ℤ
  pub http_total_timeout_ms : ℤ
  pub tool_statement_timeout_ms : ℤ
  pub tool_max_rows : ℤ
  pub trace_enabled : Bool
  pub events_enabled : Bool
  pub schema_char_budget : ℤ
  pub embedding_provider : Option CString
  pub embedding_api_key : Option CString
  pub embedding_model : Option CString
  pub embedding_base_url : Option CString
  pub embedding_dimensions : ℤ
  pub memory_search_alpha : ℕ
  pub memory_enabled : Bool
  pub allow_http : Bool
  pub http_allow_list : Option CString
  pub allow_private_hosts : Bool
  pub sensitive_columns : Option CString

pub record RuntimeConfig : Type 0 where
  pub provider : Text
  pub api_key : Text
  pub model : Option Text
  pub base_url : Option Text
  pub max_tokens : ℕ
  pub max_iterations : ℕ
  pub readonly : Bool
  pub http_connect_timeout_ms : ℕ
  pub http_total_timeout_ms : ℕ
  pub tool_statement_timeout_ms : ℕ
  pub tool_max_rows : ℕ
  pub trace_enabled : Bool
  pub events_enabled : Bool
  pub schema_char_budget : ℕ
  pub embedding_provider : Option Text
  pub embedding_api_key : Option Text
  pub embedding_model : Option Text
  pub embedding_base_url : Option Text
  pub embedding_dimensions : ℕ
  pub memory_search_alpha : ℕ
  pub memory_enabled : Bool
  pub allow_http : Bool
  pub http_allow_list : List Text
  pub allow_private_hosts : Bool
  pub sensitive_columns : List Text

abbrev non_empty : Text → Option Text
non_empty s = if is_empty s then none else some s

abbrev pub guc_string : Option CString → Option Text
guc_string none = none
guc_string (some not_utf8) = none
guc_string (some (utf8 s)) = non_empty s

-- `read_table(key)?.ok_or(AskError::MissingConfig(key))`
abbrev ok_or_missing : Text → Option Text → Result Text
ok_or_missing key none = err (missing_config key)
ok_or_missing key (some v) = ok v

-- `read_table(key).ok().flatten()`
abbrev flatten : Result (Option Text) → Option Text
flatten (ok v) = v
flatten (err e) = none

abbrev or_else : Option Text → Option Text → Option Text
or_else none other = other
or_else (some v) other = some v

print_i32 : ℤ → Text
print_i32 (pos n) = decimal n
print_i32 (negsuc n) = b'-' ∷ decimal (n + 1)

abbrev not_positive : Text → ℤ → AskError
not_positive key v = invalid_config key (codes "must be > 0, got " ++ print_i32 v)

-- `clamp_pos` and `clamp_pos_u64`
pub clamp_pos : Text → ℤ → Result ℕ
clamp_pos key (pos zero) = err (not_positive key (pos zero))
clamp_pos key (pos (suc n)) = ok (suc n)
clamp_pos key (negsuc n) = err (not_positive key (negsuc n))

-- `usize::try_from(v.max(low))`, which never fails for a positive `low`.
abbrev pub at_least : ℕ → ℤ → ℕ
at_least low (pos n) = if leb low n then n else low
at_least low (negsuc n) = low

-- `val.split(c)`: the parts between the separators, one more than there are separators.
pub split : ℕ → Text → List Text
split sep [] = [] ∷ []
split sep (c ∷ s) =
    let rest = split sep s in
    if c == sep then [] ∷ rest else elim rest [ [] ↦ (c ∷ []) ∷ [] | p ∷ ps ↦ (c ∷ p) ∷ ps ]

-- `.filter(|p| !p.is_empty())`
pub filter_non_empty : List Text → List Text
filter_non_empty [] = []
filter_non_empty (p ∷ ps) = let rest = filter_non_empty ps in if is_empty p then rest else p ∷ rest

-- `embedding_api_key` with its fallback on the chat key.
abbrev with_fallback : Option Text → Option Text → Text → Text → Option Text
with_fallback (some k) embedding_provider provider api_key = some k
with_fallback none none provider api_key = none
with_fallback none (some ep) provider api_key =
    if eq_ignore_ascii_case (trim ep) provider then some api_key else none

-- The elements of a `HashSet`, in the order that its iterator gives, and `f64::clamp`.
pub record Std : Type 0 where
  pub hash_set : List Text → List Text
  pub clamp : ℕ → ℕ → ℕ → ℕ

module _ (std : Std) (gucs : Gucs) (table : ConfigTable) where
  pub required_string : Text → Option CString → Result Text
  required_string key guc = elim (guc_string guc) [
    | some v ↦ ok v
    | none ↦ do v ← read_table table key; ok_or_missing key v
  ]

  pub optional_string : Text → Option CString → Option Text
  optional_string key guc = or_else (guc_string guc) (flatten (read_table table key))

  pub optional_comma_list : Text → Option CString → List Text
  optional_comma_list key guc = elim (optional_string key guc) [
    | none ↦ []
    | some val ↦ std.hash_set (filter_non_empty (map trim (split b',' val)))
  ]

  abbrev pub is_fixture : Text → Bool
  is_fixture provider = eq_ignore_ascii_case (trim provider) (codes "fixture")

  -- `optional_string(…).unwrap_or_default()`
  abbrev pub or_default : Option Text → Text
  or_default none = []
  or_default (some v) = v

  pub load_api_key : Text → Result Text
  load_api_key provider =
      if is_fixture provider
      then ok (or_default (optional_string (codes "api_key") gucs.api_key))
      else required_string (codes "api_key") gucs.api_key

  -- The snapshot, from what may fail.
  abbrev pub snapshot : Text → Text → ℕ → ℕ → ℕ → ℕ → ℕ → RuntimeConfig
  snapshot provider api_key max_tokens max_iterations connect total statement = record {
    provider = provider;
    api_key = api_key;
    model = optional_string (codes "model") gucs.model;
    base_url = optional_string (codes "base_url") gucs.base_url;
    max_tokens = max_tokens;
    max_iterations = max_iterations;
    readonly = gucs.readonly;
    http_connect_timeout_ms = connect;
    http_total_timeout_ms = total;
    tool_statement_timeout_ms = statement;
    tool_max_rows = at_least 1 gucs.tool_max_rows;
    trace_enabled = gucs.trace_enabled;
    events_enabled = gucs.events_enabled;
    schema_char_budget = at_least 512 gucs.schema_char_budget;
    embedding_provider = optional_string (codes "embedding_provider") gucs.embedding_provider;
    embedding_api_key =
        with_fallback (optional_string (codes "embedding_api_key") gucs.embedding_api_key)
          (optional_string (codes "embedding_provider") gucs.embedding_provider) provider api_key;
    embedding_model = optional_string (codes "embedding_model") gucs.embedding_model;
    embedding_base_url = optional_string (codes "embedding_base_url") gucs.embedding_base_url;
    embedding_dimensions = at_least 8 gucs.embedding_dimensions;
    memory_search_alpha = std.clamp gucs.memory_search_alpha 0 0x3ff0000000000000;
    memory_enabled = gucs.memory_enabled;
    allow_http = gucs.allow_http;
    http_allow_list = optional_comma_list (codes "http_allow_list") gucs.http_allow_list;
    allow_private_hosts = gucs.allow_private_hosts;
    sensitive_columns = optional_comma_list (codes "sensitive_columns") gucs.sensitive_columns;
  }

  unfoldable pub load : Result RuntimeConfig
  load = do
    provider ← required_string (codes "provider") gucs.provider
    api_key ← load_api_key provider
    max_tokens ← clamp_pos (codes "max_tokens") gucs.max_tokens
    max_iterations ← clamp_pos (codes "max_iterations") gucs.max_iterations
    connect ← clamp_pos (codes "http_connect_timeout_ms") gucs.http_connect_timeout_ms
    total ← clamp_pos (codes "http_total_timeout_ms") gucs.http_total_timeout_ms
    statement ← clamp_pos (codes "tool_statement_timeout_ms") gucs.tool_statement_timeout_ms
    ok (snapshot provider api_key max_tokens max_iterations connect total statement)
