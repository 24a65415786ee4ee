-- ===== src/Json.antt =====
-- `serde_json::Value`, a type of the `serde_json` crate, by its variants. Objects keep the order
-- of their keys (the crate is built with `preserve_order`). Printing and parsing are not code of
-- the repository: they are the parameter `Serde`.
use pg_ask.Checked.{Checked}
use pg_ask.Prelude.{ℕ, Bool, Option, none, some, Text, eq, if◌then◌else◌}

-- What the program asks of a JSON number: its value as an `i64` and as an `f64`, if it has one,
-- each as its 64 bits, and its text.
pub record Number : Type 0 where
  pub as_i64 : Option ℕ
  pub as_f64 : Option ℕ
  pub text : Text

mutual
  pub data Value : Type 0 where
    null : Value
    bool : Bool → Value
    number : Number → Value
    string : Text → Value
    array : Items → Value
    object : Fields → Value

  pub data Items : Type 0 where
    nil : Items
    cons : Value → Items → Items

  pub data Fields : Type 0 where
    end : Fields
    field : Text → Value → Fields → Fields

-- `Map::get`
unfoldable pub lookup : Text → Fields → Option Value
lookup k end = none
lookup k (field j v fs) = if eq j k then some v else lookup k fs

-- `Value::get(key)`
unfoldable pub get : Value → Text → Option Value
unfolding lookup
get (object fs) k = lookup k fs
get _ k = none

-- `Value::as_str`
abbrev pub as_str : Value → Option Text
as_str (string s) = some s
as_str _ = none

-- `.get(key).and_then(|v| v.as_str())`
unfoldable pub get_str : Value → Text → Option Text
unfolding get
get_str v k = elim (get v k) [ none ↦ none | some w ↦ as_str w ]

pub record Serde : Type 0 where
  pub to_string : Value → Text
  pub to_string_pretty : Value → Text
  pub from_str : Text → Checked Value
