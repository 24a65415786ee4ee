-- ===== src/Session/Store/Private.antt =====
-- What a caller reaches of the sessions of other roles.
use pg_ask.Prelude.{
  ℕ, ◌^◌, ◌≡◌, ◌≢◌, refl, sym, subst, ◌∙◌, inl, inr, true, false, Option, none, some, List, [], ◌∷◌,
  ◌++◌, ◌==◌, ltb, any, Text, Option-cases, Bool-cases, All, &&_iff, eq, eq_iff, arith,
}
use pg_ask.Errors.{err}
use pg_ask.Agent.Run.{returned}
use pg_ask.Json.{Serde}
use pg_ask.Providers.{Message}
use pg_ask.Session.Encode.{MessageRow, encode}
use pg_ask.Session.Store.{
  SessionRow, Stored, Db, Backend, rows_of, delete_of, not_found, has_session, session_is_owned,
  session_append_message, session_touch, session_create, session_clear_messages, create,
  append_rows, append, append_messages, clear, load_history, assert_owned, session_fetch_messages,
  cast_calls, insert_message, owns, next_idx, stored,
}
use pg_ask.Session.Store.RoundTrip.{any-touch_row}

-- The calls of src/session that write.
pub data Call : Type 0 where
  create_session : Option Text → Call
  append_to : ℕ → List Message → Call
  clear_of : ℕ → Call

unfoldable pub perform : Backend → Serde → Call → Db → Db
unfolding create append_messages clear
perform db serde (create_session label) st = (create db label st).1
perform db serde (append_to id ms) st = (append_messages db serde id ms st).1
perform db serde (clear_of id) st = (clear db id st).1

-- Both have the session `id` of the same owners, with the same messages.
pub record SameSession (id : ℕ) (st st' : Db) : Type 0 where
  pub owners : (db : Backend) → session_is_owned db id st ≡ session_is_owned db id st'
  pub rows : rows_of id st.messages ≡ rows_of id st'.messages

same_refl : (id : ℕ) (st : Db) → SameSession id st st
same_refl id st = record { owners = λ db. refl; rows = refl }

same_trans : {id : ℕ} {a b c : Db} → SameSession id a b → SameSession id b c → SameSession id a c
same_trans p q = record { owners = λ db. p.owners db ∙ q.owners db; rows = p.rows ∙ q.rows }

-- A session reads the same in both.
same-load_history :
    (db : Backend) (serde : Serde) {id : ℕ} {st st' : Db}
    → SameSession id st st'
    → load_history db serde id st ≡ load_history db serde id st'
unfolding load_history assert_owned session_fetch_messages
same-load_history db serde p = rw (p.owners db, p.rows) refl

apart : (a b : ℕ) → a ≢ b → (a == b) ≡ false
apart a b ne = ground arith

other_id : (a id other : ℕ) → (a == id) ≡ true → id ≢ other → (a == other) ≡ false
other_id a id other e ne = ground arith

rows_of-other :
    (id : ℕ) (n : Stored) (ms : List Stored)
    → (n.session_id == id) ≡ false
    → rows_of id ms ≡ rows_of id (ms ++ n ∷ [])
unfolding rows_of
rows_of-other id n [] ne = rw ne refl
rows_of-other id n (m ∷ ms) ne = rw (sym (rows_of-other id n ms ne)) refl

rows_of-delete_of :
    (id other : ℕ) (ms : List Stored)
    → id ≢ other
    → rows_of other ms ≡ rows_of other (delete_of id ms)
unfolding rows_of delete_of
rows_of-delete_of id other [] ne = refl
rows_of-delete_of id other (m ∷ ms) ne = elim (Bool-cases (m.session_id == id)) [
  | inl e ↦ rw (e, other_id m.session_id id other e ne) (rows_of-delete_of id other ms ne)
  | inr e ↦ rw (e, rows_of-delete_of id other ms ne) refl
]

some_value : {a b : Db} → some a ≡ some b → a ≡ b
some_value h = cc

module _ (db : Backend) (serde : Serde) (other : ℕ) where
  same-touch : (id : ℕ) (st : Db) → SameSession other st (session_touch db id st)
  unfolding session_touch session_is_owned
  same-touch id st = record {
    owners = λ u. sym (any-touch_row db u id other st.sessions);
    rows = refl;
  }

  same-insert_message :
      (id : ℕ) (row : MessageRow) (cast : Option (Option Text)) (st st' : Db)
      → id ≢ other
      → insert_message db id row cast st ≡ some st'
      → SameSession other st st'
  unfolding session_is_owned
  same-insert_message id row none st st' ne h = absurd (cc)
  same-insert_message id row (some calls) st st' ne h =
      elim (Bool-cases (ltb (next_idx id st.messages) (2 ^ 31))) [
        | inl e ↦ subst (SameSession other st) (some_value (rw e at h)) (record {
          owners = λ u. refl;
          rows =
              rows_of-other other (stored db id (next_idx id st.messages) row calls) st.messages
                (ground arith);
        })
        | inr e ↦ absurd (cc (rw e at h))
      ]

  same-session_append_message :
      (id : ℕ) (row : MessageRow) (st st' : Db)
      → id ≢ other
      → session_append_message db id row st ≡ some st'
      → SameSession other st st'
  unfolding session_append_message session_is_owned
  same-session_append_message id row st st' ne h = elim (Bool-cases (session_is_owned db id st)) [
    | inl e ↦ same-insert_message id row (cast_calls db row.tool_calls) st st' ne (rw e at h)
    | inr e ↦ absurd (cc (rw e at h))
  ]

  same-append_rows :
      (id : ℕ) (ms : List Message) (st : Db)
      → id ≢ other
      → SameSession other st (append_rows db serde id ms st).1
  unfolding append_rows
  same-append_rows id [] st ne = same-touch id st
  same-append_rows id (m ∷ ms) st ne =
      elim (Option-cases (session_append_message db id (encode serde m) st)) [
        | inl (st', e) ↦
            rw (e, append_rows)
              (same_trans (same-session_append_message id (encode serde m) st st' ne e)
                (same-append_rows id ms st' ne))
        | inr e ↦ rw (e, append_rows) (same_refl other st)
      ]

  -- A session that the caller owns is not the other.
  owned_apart :
      (id : ℕ) (st : Db)
      → session_is_owned db id st ≡ true
      → session_is_owned db other st ≡ false
      → id ≢ other
  owned_apart id st owned foreign p = cc

  same-append :
      (id : ℕ) (ms : List Message) (st : Db)
      → id ≢ other
      → SameSession other st (append db serde id ms st).1
  unfolding append
  same-append id [] st ne = same_refl other st
  same-append id (m ∷ ms) st ne = same-append_rows id (m ∷ ms) st ne

  same-append_messages :
      (id : ℕ) (ms : List Message) (st : Db)
      → session_is_owned db other st ≡ false
      → SameSession other st (append_messages db serde id ms st).1
  unfolding append_messages assert_owned
  same-append_messages id ms st foreign = elim (Bool-cases (session_is_owned db id st)) [
    | inl e ↦ rw e (same-append id ms st (owned_apart id st e foreign))
    | inr e ↦ rw e (same_refl other st)
  ]

  same-clear :
      (id : ℕ) (st : Db)
      → session_is_owned db other st ≡ false
      → SameSession other st (clear db id st).1
  unfolding clear assert_owned session_clear_messages session_is_owned
  same-clear id st foreign = elim (Bool-cases (session_is_owned db id st)) [
    | inl e ↦ rw e (record {
      owners = λ u. refl;
      rows = rows_of-delete_of id other st.messages (owned_apart id st e foreign);
    })
    | inr e ↦ rw e (same_refl other st)
  ]

  any-new_session :
      (reader : Backend) (s : SessionRow) (rows : List SessionRow)
      → (s.id == other) ≡ false
      → any (owns reader other) rows ≡ any (owns reader other) (rows ++ s ∷ [])
  unfolding any
  any-new_session reader s [] ne = rw ne refl
  any-new_session reader s (r ∷ rows) ne = rw (sym (any-new_session reader s rows ne)) refl

  same-create :
      (label : Option Text) (st : Db)
      → has_session other st.sessions ≡ true
      → SameSession other st (create db label st).1
  unfolding create session_create session_is_owned
  same-create label st there = elim (Bool-cases (has_session (db.uuid st) st.sessions)) [
    | inl e ↦ rw e (same_refl other st)
    | inr e ↦
        let fresh : (db.uuid st == other) ≡ false = apart (db.uuid st) other (λ p. cc) in
        rw e (record { owners = λ u. any-new_session u _ st.sessions fresh; rows = refl })
  ]

  same-perform :
      (c : Call) (st : Db)
      → has_session other st.sessions ≡ true
      → session_is_owned db other st ≡ false
      → SameSession other st (perform db serde c st)
  unfolding perform
  same-perform (create_session label) st there foreign = same-create label st there
  same-perform (append_to id ms) st there foreign = same-append_messages id ms st foreign
  same-perform (clear_of id) st there foreign = same-clear id st foreign

  -- The three calls that name a session answer with the error of a missing one and change nothing.
  abbrev pub Refused : Db → Type 0
  Refused st =
      (load_history db serde other st ≡ err not_found)
      × ((ms : List Message)
          → append_messages db serde other ms st ≡ (returned (err not_found), st))
      × (clear db other st ≡ (returned (err not_found), st))

  refused : (st : Db) → session_is_owned db other st ≡ false → Refused st
  unfolding load_history append_messages clear assert_owned
  refused st foreign = rw foreign (refl, (λ ms. refl), refl)

  -- No row of the session is the caller's.
  abbrev pub IsForeign : Db → Type 0
  IsForeign st = All (λ (s : SessionRow). s.id ≡ other → s.owner ≢ db.session_user) st.sessions

  unowned :
      (rows : List SessionRow)
      → All (λ (s : SessionRow). s.id ≡ other → s.owner ≢ db.session_user) rows
      → any (owns db other) rows ≡ false
  unfolding any
  unowned [] h = refl
  unowned (s ∷ rows) h = elim (Bool-cases (owns db other s)) [
    | inl e ↦
        let (id_is, owner_is) = (&&_iff (s.id == other) (eq s.owner db.session_user)).0 e in
        absurd (h.0 (ground arith) ((eq_iff s.owner db.session_user).0 owner_is))
    | inr e ↦ rw (e, unowned rows h.1) refl
  ]

  is_foreign : (st : Db) → IsForeign st → session_is_owned db other st ≡ false
  unfolding session_is_owned
  is_foreign st h = unowned st.sessions h

  -- A session that is there and whose owner is not the caller is out of the caller's reach: reading
  -- it, appending to it and clearing it give the error of a missing session and leave the tables
  -- alone, and no call of the caller changes what any role reads of it.
  pub perform-Refused :
      (c : Call) (st : Db)
      → has_session other st.sessions ≡ true
      → IsForeign st
      → Refused st
        × ((reader : Backend)
            → load_history reader serde other (perform db serde c st)
              ≡ load_history reader serde other st)
  perform-Refused c st there h =
      let foreign = is_foreign st h in
      (
        refused st foreign,
        λ reader. sym (same-load_history reader serde (same-perform c st there foreign)),
      )
