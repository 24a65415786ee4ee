-- ===== src/Config/Table.antt =====
-- `upsert_table` and `read_table` of src/infra/config.rs, and `get_config` of src/api/config.rs,
-- over the rows of `ask._config`. The role may have no access, which is the error of every read or
-- of every write.
pub mod Redacted
pub mod Tests
use pg_ask.Prelude.{
  Bool, true, false, Option, none, some, List, [], ◌∷◌, ◌++◌, if◌then◌else◌, Text, codes, eq,
}
use pg_ask.Errors.{AskError, invalid_config, Result, ok, err}
use pg_ask.Config.{is_known_key, is_secret}

pub record ConfigTable : Type 0 where
  pub rows : List (Text × Text)
  pub read_error : Option AskError
  pub write_error : Option AskError

unfoldable pub find : List (Text × Text) → Text → Option Text
find [] key = none
find ((k, v) ∷ rows) key = if eq k key then some v else find rows key

-- `INSERT … ON CONFLICT (key) DO UPDATE SET value = EXCLUDED.value`
pub upsert : List (Text × Text) → Text → Text → List (Text × Text)
upsert [] key value = (key, value) ∷ []
upsert ((k, v) ∷ rows) key value =
    let rest = upsert rows key value in if eq k key then (k, value) ∷ rows else (k, v) ∷ rest

unfoldable pub read_table : ConfigTable → Text → Result (Option Text)
read_table t key = elim t.read_error [ some e ↦ err e | none ↦ ok (find t.rows key) ]

-- The result, and the table behind it.
pub upsert_table : Text → Text → ConfigTable → Result (Unit {0}) × ConfigTable
upsert_table key value t =
    if is_known_key key
    then elim t.write_error [
      | some e ↦ (err e, t)
      | none ↦ (ok tt, record t { rows = upsert t.rows key value })
    ]
    else (
      err (invalid_config (codes "config") (codes "unknown config key `" ++ (key ++ codes "`"))),
      t,
    )

abbrev pub redacted : Text
redacted = codes "***redacted***"

abbrev pub redact : Bool → Option Text → Option Text
redact secret none = none
redact secret (some v) = if secret then some redacted else some v

-- `raise_as_pg_error` is the error.
pub get_config : ConfigTable → Text → Result (Option Text)
get_config t key = elim (read_table t key) [
  | ok raw ↦ ok (redact (is_secret key) raw)
  | err e ↦ err e
]
