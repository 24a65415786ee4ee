-- ===== src/Session/Store.antt =====
-- The session functions of src/sql/bootstrap.sql over ask._sessions and ask._messages, the
-- functions of src/session/store.rs that call them, and src/session/mod.rs. A statement that
-- raises interrupts the function, and the transaction around it gives its writes up.
pub mod RoundTrip
pub mod Private
use pg_ask.Prelude.{
  ℕ, zero, suc, ◌+◌, ◌^◌, ◌&&◌, Bool, true, false, not, Option, none, some, List, [], ◌∷◌, ◌++◌,
  map, ◌==◌, ltb, leb, if◌then◌else◌, any, Text, codes, eq, is_empty,
}
use pg_ask.Errors.{AskError, sql, Result, ok, err}
use pg_ask.Agent.Run.{Exit, returned, interrupted}
use pg_ask.Json.{Serde}
use pg_ask.Providers.{Message}
use pg_ask.Session.Encode.{MessageRow, encode, decode}

pub record SessionRow : Type 0 where
  pub id : ℕ
  pub owner : Text
  pub label : Option Text
  pub updated_at : ℕ

-- A row of ask._messages; a jsonb column is kept as the text that `tool_calls::text` gives.
pub record Stored : Type 0 where
  pub session_id : ℕ
  pub idx : ℕ
  pub row : MessageRow

pub record Db : Type 0 where
  pub sessions : List SessionRow
  pub messages : List Stored

-- What the functions read of the backend: `session_user`, `now()`, the id that
-- `gen_random_uuid()` gives next, and the cast of a text to jsonb and back, which raises on a text
-- that is no JSON.
pub record Backend : Type 0 where
  pub session_user : Text
  pub now : ℕ
  pub uuid : Db → ℕ
  pub jsonb : Text → Option Text

-- `impl From<SessionError> for AskError`
abbrev pub not_found : AskError
not_found = sql (codes "no such session for current_user")

abbrev pub has_session : ℕ → List SessionRow → Bool
has_session id rows = any (λ s. s.id == id) rows

abbrev pub is_of : ℕ → Stored → Bool
is_of id m = m.session_id == id

-- `… ORDER BY m.idx`
unfoldable pub insert_by_idx : Stored → List Stored → List Stored
insert_by_idx m [] = m ∷ []
insert_by_idx m (n ∷ rows) =
    let rest = insert_by_idx m rows in if leb m.idx n.idx then m ∷ n ∷ rows else n ∷ rest

-- The messages of a session in the order of their `idx`.
unfoldable pub rows_of : ℕ → List Stored → List Stored
unfolding insert_by_idx
rows_of id [] = []
rows_of id (m ∷ ms) = if is_of id m then insert_by_idx m (rows_of id ms) else rows_of id ms

abbrev pub max_idx : ℕ → ℕ → ℕ
max_idx a b = if leb a b then b else a

-- `COALESCE(MAX(m.idx), -1) + 1`
unfoldable pub next_idx : ℕ → List Stored → ℕ
next_idx id [] = 0
next_idx id (m ∷ ms) = if is_of id m then max_idx (m.idx + 1) (next_idx id ms) else next_idx id ms

-- `DELETE FROM ask._messages WHERE session_id = id`
unfoldable pub delete_of : ℕ → List Stored → List Stored
delete_of id [] = []
delete_of id (m ∷ ms) = if is_of id m then delete_of id ms else m ∷ delete_of id ms

-- The rows that `load_history` turns into messages.
unfoldable pub decoded : Serde → List Stored → List Message
unfolding decode
decoded serde [] = []
decoded serde (m ∷ ms) = elim (decode serde m.row) [
  | none ↦ decoded serde ms
  | some msg ↦ msg ∷ decoded serde ms
]

module _ (db : Backend) where
  abbrev pub owns : ℕ → SessionRow → Bool
  owns id s = s.id == id && eq s.owner db.session_user

  unfoldable pub session_create : Option Text → Db → Option ℕ × Db
  unfolding any
  session_create label st = if has_session (db.uuid st) st.sessions then (none, st) else (
    some (db.uuid st),
    record st {
      sessions =
          st.sessions
          ++ record { id = db.uuid st; owner = db.session_user; label = label; updated_at = db.now }
            ∷ [];
    },
  )

  unfoldable pub session_is_owned : ℕ → Db → Bool
  unfolding any
  session_is_owned id st = any (owns id) st.sessions

  -- The id of a session is its primary key, so that the join gives a message once.
  unfoldable pub session_fetch_messages : ℕ → Db → List Stored
  unfolding session_is_owned rows_of
  session_fetch_messages id st = if session_is_owned id st then rows_of id st.messages else []

  -- `NULLIF(tool_calls_text, '')::jsonb`
  abbrev pub cast_calls : Option Text → Option (Option Text)
  cast_calls none = some none
  cast_calls (some t) =
      if is_empty t then some none else elim (db.jsonb t) [ none ↦ none | some u ↦ some (some u) ]

  abbrev pub stored : ℕ → ℕ → MessageRow → Option Text → Stored
  stored id i row calls = record {
    session_id = id;
    idx = i;
    row = record row { tool_calls = calls };
  }

  -- The insert; `idx` is an `int`.
  abbrev pub insert_message : ℕ → MessageRow → Option (Option Text) → Db → Option Db
  insert_message id row none st = none
  insert_message id row (some calls) st =
      if ltb (next_idx id st.messages) (2 ^ 31)
      then some (record st {
        messages = st.messages ++ stored id (next_idx id st.messages) row calls ∷ [];
      })
      else none

  unfoldable pub session_append_message : ℕ → MessageRow → Db → Option Db
  unfolding session_is_owned next_idx
  session_append_message id row st =
      if session_is_owned id st then insert_message id row (cast_calls row.tool_calls) st else none

  abbrev pub touch_row : ℕ → SessionRow → SessionRow
  touch_row id s = if owns id s then record s { updated_at = db.now } else s

  unfoldable pub session_touch : ℕ → Db → Db
  session_touch id st = record st { sessions = map (touch_row id) st.sessions }

  unfoldable pub session_clear_messages : ℕ → Db → Db
  unfolding session_is_owned delete_of
  session_clear_messages id st =
      if session_is_owned id st then record st { messages = delete_of id st.messages } else st

  abbrev pub created : Option ℕ × Db → Exit ℕ × Db
  created (none, st) = (interrupted, st)
  created (some id, st) = (returned (ok id), st)

  unfoldable pub create : Option Text → Db → Exit ℕ × Db
  unfolding session_create
  create label st = created (session_create label st)

  unfoldable pub assert_owned : ℕ → Db → Result (Unit {0})
  unfolding session_is_owned
  assert_owned id st = if session_is_owned id st then ok tt else err not_found

  abbrev pub after_owned : {T : Type 0} → Result (Unit {0}) → Result T → Result T
  after_owned (ok u) r = r
  after_owned (err e) r = err e

  abbrev pub owned_then : {T : Type 0} → Result (Unit {0}) → Exit T × Db → Db → Exit T × Db
  owned_then (ok u) r st = r
  owned_then (err e) r st = (returned (err e), st)

  unfoldable pub clear : ℕ → Db → Exit (Unit {0}) × Db
  unfolding assert_owned session_clear_messages
  clear id st = owned_then (assert_owned id st) (returned (ok tt), session_clear_messages id st) st

  module _ (serde : Serde) where
    unfoldable pub load_history : ℕ → Db → Result (List Message)
    unfolding assert_owned session_fetch_messages decoded
    load_history id st =
        after_owned (assert_owned id st) (ok (decoded serde (session_fetch_messages id st)))

    -- The loop over the messages, and the touch behind it.
    unfoldable pub append_rows : ℕ → List Message → Db → Exit (Unit {0}) × Db
    unfolding session_append_message session_touch encode
    append_rows id [] st = (returned (ok tt), session_touch id st)
    append_rows id (m ∷ ms) st = elim (session_append_message id (encode serde m) st) [
      | none ↦ (interrupted, st)
      | some st' ↦ append_rows id ms st'
    ]

    -- Under the session's advisory lock, so that no other append stands between its statements.
    unfoldable pub append : ℕ → List Message → Db → Exit (Unit {0}) × Db
    unfolding append_rows
    append id [] st = (returned (ok tt), st)
    append id (m ∷ ms) st = append_rows id (m ∷ ms) st

    unfoldable pub append_messages : ℕ → List Message → Db → Exit (Unit {0}) × Db
    unfolding assert_owned append
    append_messages id ms st = owned_then (assert_owned id st) (append id ms st) st
