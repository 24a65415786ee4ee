-- ===== src/Config/Table/Tests.antt =====
-- Runs of the configuration table.
use pg_ask.Prelude.{
  none, some, [], ◌∷◌, ◌≡◌, refl, Text, codes, eq, contains, any, eq_ignore_ascii_case,
}
use pg_ask.Errors.{ok}
use pg_ask.Config.{is_known_key, is_secret}
use pg_ask.Config.Table.{ConfigTable, find, read_table, upsert_table, redacted, get_config}

abbrev table_with : Text → ConfigTable
table_with key = record {
  rows = (codes "model", codes "m1") ∷ (codes "api_key", key) ∷ [];
  read_error = none;
  write_error = none;
}

get_config_test : get_config (table_with (codes "sk-1")) (codes "api_key") ≡ ok (some redacted)
unfolding get_config read_table find eq is_secret any eq_ignore_ascii_case
get_config_test = refl

unknown_key_test :
    (upsert_table (codes "modle") (codes "m2") (table_with (codes "k"))).1 ≡ table_with (codes "k")
unfolding upsert_table is_known_key contains eq
unknown_key_test = refl
