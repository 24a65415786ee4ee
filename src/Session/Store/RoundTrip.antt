-- ===== src/Session/Store/RoundTrip.antt =====
-- What `append_messages` writes is what `load_history` reads.
use pg_ask.Prelude.{
  ℕ, ◌+◌, ◌^◌, ◌≤◌, ◌<◌, ◌≡◌, refl, sym, ap, ◌∙◌, inl, inr, true, false, Option, none, some, List,
  [], ◌∷◌, ◌++◌, map, ◌==◌, ltb, leb, any, Text, eq, is_empty, All, Option-cases, Bool-cases,
  length, arith,
}
use mathlib.Core.List.{append_assoc, append-nil}
use pg_ask.Checked.{pass}
use pg_ask.Errors.{ok}
use pg_ask.Agent.Run.{returned}
use pg_ask.Json.{array, Serde}
use pg_ask.Providers.{
  Role, system, user, assistant, tool, ToolCall, MessageContent, plain, assistant_with_tools,
  tool_result, Message,
}
use pg_ask.Session.Encode.{
  MessageRow, encode, decode, parsed_calls, assistant_message, call_items, call_value, read_items,
  read_call, read_calls,
}
use pg_ask.Session.Store.{
  SessionRow, Stored, Db, Backend, insert_by_idx, rows_of, next_idx, decoded, session_is_owned,
  session_append_message, session_touch, append_rows, append, append_messages, load_history,
  assert_owned, session_fetch_messages, cast_calls, stored, owns, touch_row,
}

pub read_call-call_value : (c : ToolCall) → read_call (call_value c) ≡ some c
unfolding read_call eq
read_call-call_value c = refl

pub read_items-call_items : (calls : List ToolCall) → read_items (call_items calls) ≡ some calls
unfolding read_items call_items
read_items-call_items [] = refl
read_items-call_items (c ∷ calls) = rw (read_call-call_value c, read_items-call_items calls) refl

pub read_calls-call_items : (calls : List ToolCall) → read_calls (array (call_items calls)) ≡ calls
unfolding read_calls
read_calls-call_items calls = rw (read_items-call_items calls) refl

-- What a message is once it is read back: a turn of no text reads as one without a text, a system
-- message as the assistant's, and a content that does not fit its role as an empty text.
abbrev pub read_back_as : Role → MessageContent → Message
read_back_as user (plain t) = record { role = user; content = plain t }
read_back_as assistant (assistant_with_tools (some (c ∷ t)) calls) = record {
  role = assistant;
  content = assistant_with_tools (some (c ∷ t)) calls;
}
read_back_as assistant (assistant_with_tools _ calls) = record {
  role = assistant;
  content = assistant_with_tools none calls;
}
read_back_as assistant (plain t) = record { role = assistant; content = plain t }
read_back_as tool (tool_result id output is_error) = record {
  role = tool;
  content = tool_result id output is_error;
}
read_back_as system (plain t) = record { role = assistant; content = plain t }
read_back_as _ _ = record { role = assistant; content = plain [] }

abbrev pub read_back : Message → Message
read_back m = read_back_as m.role m.content

module _ (db : Backend) (serde : Serde) where
  -- The jsonb column gives the calls back as they were, as it does where the keys of their
  -- arguments stand in the order that jsonb keeps.
  abbrev pub KeepsCalls : List ToolCall → Type 0
  KeepsCalls calls =
      (u : Text) × (is_empty (serde.to_string (array (call_items calls))) ≡ false)
      × (db.jsonb (serde.to_string (array (call_items calls))) ≡ some u)
      × (serde.from_str u ≡ pass (array (call_items calls)))

  abbrev pub Keeps : Role → MessageContent → Type 0
  Keeps assistant (assistant_with_tools text calls) = KeepsCalls calls
  Keeps _ _ = Unit {0}

  abbrev pub KeepsMessage : Message → Type 0
  KeepsMessage m = Keeps m.role m.content

  abbrev ReadsBack : Role → MessageContent → Type 0
  ReadsBack r c =
      (calls : Option Text) × (cast_calls db
          (encode serde (record { role = r; content = c })).tool_calls
        ≡ some calls)
      × (decode serde
            (record (encode serde (record { role = r; content = c })) { tool_calls = calls })
          ≡ some (read_back_as r c))

  pub assistant_message-calls :
      (content : Text) (calls : List ToolCall) {u : Text}
      → serde.from_str u ≡ pass (array (call_items calls))
      → assistant_message serde content (parsed_calls serde (some u))
        ≡ assistant_message serde content (some (array (call_items calls)))
  assistant_message-calls content calls read =
      ap (assistant_message serde content) {y = some (array (call_items calls))}
        (rw (read, parsed_calls) refl)

  decode-encode : (r : Role) (c : MessageContent) → Keeps r c → ReadsBack r c
  unfolding encode decode eq
  decode-encode user (plain t) h = (none, refl, refl)
  decode-encode user (assistant_with_tools t calls) h = (none, refl, refl)
  decode-encode user (tool_result i o e) h = (none, refl, refl)
  decode-encode assistant (plain t) h = (none, refl, refl)
  decode-encode assistant (assistant_with_tools none calls) (u, full, cast, read) = (
    some u,
    rw (full, cast) refl,
    ap some (
        assistant_message-calls [] calls read
        ∙ ap (λ cs. record { role = assistant; content = assistant_with_tools none cs })
            (read_calls-call_items calls)),
  )
  decode-encode assistant (assistant_with_tools (some []) calls) (u, full, cast, read) = (
    some u,
    rw (full, cast) refl,
    ap some (
        assistant_message-calls [] calls read
        ∙ ap (λ cs. record { role = assistant; content = assistant_with_tools none cs })
            (read_calls-call_items calls)),
  )
  decode-encode assistant (assistant_with_tools (some (c ∷ t)) calls) (u, full, cast, read) = (
    some u,
    rw (full, cast) refl,
    ap some (
        assistant_message-calls (c ∷ t) calls read
        ∙ ap (λ cs. record { role = assistant; content = assistant_with_tools (some (c ∷ t)) cs })
            (read_calls-call_items calls)),
  )
  decode-encode assistant (tool_result i o e) h = (none, refl, refl)
  decode-encode tool (plain t) h = (none, refl, refl)
  decode-encode tool (assistant_with_tools t calls) h = (none, refl, refl)
  decode-encode tool (tool_result i o e) h = (none, refl, refl)
  decode-encode system (plain t) h = (none, refl, refl)
  decode-encode system (assistant_with_tools t calls) h = (none, refl, refl)
  decode-encode system (tool_result i o e) h = (none, refl, refl)

insert_by_idx-append :
    (m n : Stored) (rows : List Stored)
    → m.idx ≤ n.idx
    → insert_by_idx m (rows ++ n ∷ []) ≡ insert_by_idx m rows ++ n ∷ []
unfolding insert_by_idx
insert_by_idx-append m n [] h = ground arith
insert_by_idx-append m n (k ∷ rows) h = elim (Bool-cases (leb m.idx k.idx)) [
  | inl e ↦ rw e refl
  | inr e ↦ rw e (ap (λ r. k ∷ r) (insert_by_idx-append m n rows h))
]

rows_of-append :
    (id : ℕ) (n : Stored) (ms : List Stored)
    → (n.session_id == id) ≡ true
    → next_idx id ms ≤ n.idx
    → rows_of id (ms ++ n ∷ []) ≡ rows_of id ms ++ n ∷ []
unfolding rows_of next_idx insert_by_idx
rows_of-append id n [] of h = rw of refl
rows_of-append id n (m ∷ ms) of h = elim (Bool-cases (m.session_id == id)) [
  | inl e ↦ rw e (
      ap (insert_by_idx m) (rows_of-append id n ms of (ground arith))
      ∙ insert_by_idx-append m n (rows_of id ms) (ground arith))
  | inr e ↦ rw e (rows_of-append id n ms of (rw e at h))
]

next_idx-append :
    (id : ℕ) (n : Stored) (ms : List Stored)
    → (n.session_id == id) ≡ true
    → next_idx id ms ≤ n.idx
    → next_idx id (ms ++ n ∷ []) ≡ n.idx + 1
unfolding next_idx
next_idx-append id n [] of h = ground arith
next_idx-append id n (m ∷ ms) of h = elim (Bool-cases (m.session_id == id)) [
  | inl e ↦ ground (arith, next_idx-append id n ms of)
  | inr e ↦ rw e (next_idx-append id n ms of (rw e at h))
]

module _ (serde : Serde) (n : Stored) (msg : Message) (reads : decode serde n.row ≡ some msg) where
  decoded-append : (ms : List Stored) → decoded serde (ms ++ n ∷ []) ≡ decoded serde ms ++ msg ∷ []
  unfolding decoded
  decoded-append [] = rw (reads, decoded) refl
  decoded-append (m ∷ ms) = elim (Option-cases (decode serde m.row)) [
    | inl (k, e) ↦ rw (e, decoded) (ap (λ r. k ∷ r) (decoded-append ms))
    | inr e ↦ rw (e, decoded) (decoded-append ms)
  ]

-- A touch leaves every session with its owner.
owns-touch_row :
    (db reader : Backend) (id other : ℕ) (s : SessionRow)
    → owns reader other (touch_row db id s) ≡ owns reader other s
owns-touch_row db reader id other s = elim (Bool-cases (owns db id s)) [
  | inl e ↦ rw e refl
  | inr e ↦ rw e refl
]

pub any-touch_row :
    (db reader : Backend) (id other : ℕ) (rows : List SessionRow)
    → any (owns reader other) (map (touch_row db id) rows) ≡ any (owns reader other) rows
unfolding any
any-touch_row db reader id other [] = refl
any-touch_row db reader id other (s ∷ rows) =
    rw (owns-touch_row db reader id other s, any-touch_row db reader id other rows) refl

ok_value : {T : Type 0} {t u : T} → ok t ≡ ok u → t ≡ u
ok_value h = cc

module _ (db : Backend) (serde : Serde) (id : ℕ) where
  -- With the rows that the appends leave.
  abbrev Appended : Db → List Message → List Stored → Type 0
  Appended st ms rows =
      (append_rows db serde id ms st
        ≡ (returned (ok tt), session_touch db id (record st { messages = rows })))
      × (decoded serde (rows_of id rows)
          ≡ decoded serde (rows_of id st.messages) ++ map read_back ms)

  abbrev with_row : Db → MessageRow → Option Text → List Stored
  with_row st row calls = st.messages ++ stored db id (next_idx id st.messages) row calls ∷ []

  session_append_message-inserts :
      (row : MessageRow) (st : Db) {calls : Option Text}
      → session_is_owned db id st ≡ true
      → next_idx id st.messages < 2 ^ 31
      → cast_calls db row.tool_calls ≡ some calls
      → session_append_message db id row st ≡ some (record st { messages = with_row st row calls })
  unfolding session_append_message
  session_append_message-inserts row st owned fits cast =
      let in_range : ltb (next_idx id st.messages) (2 ^ 31) ≡ true = ground arith in
      rw (owned, cast, in_range) refl

  append_rows-Appended :
      (ms : List Message) (st : Db)
      → session_is_owned db id st ≡ true
      → All (KeepsMessage db serde) ms
      → next_idx id st.messages + length ms ≤ 2 ^ 31
      → (rows : List Stored) × Appended st ms rows
  unfolding append_rows
  append_rows-Appended [] st owned keeps fits = (st.messages, (refl, sym (append-nil _)))
  append_rows-Appended (m ∷ ms) st owned keeps fits =
      let (calls, cast, reads) = decode-encode db serde m.role m.content keeps.0 in
      let row = encode serde m in
      let n = stored db id (next_idx id st.messages) row calls in
      let next = record st { messages = with_row st row calls } in
      let of_id : (id == id) ≡ true = ground arith in
      let here : next_idx id st.messages ≤ n.idx = omega arith in
      let (rows, (runs, decodes)) =
        append_rows-Appended ms next owned keeps.1
          (rw (next_idx-append id n st.messages of_id here) (omega arith)) in
      (
        rows,
        (
          rw (session_append_message-inserts row st owned (omega arith) cast, append_rows) runs,
          decodes
              ∙ ap (λ r. decoded serde r ++ map read_back ms)
                  (rows_of-append id n st.messages of_id here)
              ∙ ap (λ r. r ++ map read_back ms)
                  (decoded-append serde n (read_back m) reads (rows_of id st.messages))
              ∙ append_assoc (decoded serde (rows_of id st.messages)) (read_back m ∷ [])
                  (map read_back ms),
        ),
      )

  owned_of_load :
      (st : Db) {before : List Message}
      → load_history db serde id st ≡ ok before
      → (session_is_owned db id st ≡ true) × (decoded serde (rows_of id st.messages) ≡ before)
  unfolding load_history assert_owned session_fetch_messages
  owned_of_load st h = elim (Bool-cases (session_is_owned db id st)) [
    | inl e ↦ (e, ok_value (rw e at h))
    | inr e ↦ absurd (cc (rw e at h))
  ]

  load_of_owned :
      (st : Db)
      → session_is_owned db id st ≡ true
      → load_history db serde id st ≡ ok (decoded serde (rows_of id st.messages))
  unfolding load_history assert_owned session_fetch_messages
  load_of_owned st owned = rw owned refl

  load_of_touched :
      (st : Db)
      → session_is_owned db id st ≡ true
      → load_history db serde id (session_touch db id st)
        ≡ ok (decoded serde (rows_of id st.messages))
  unfolding load_history assert_owned session_fetch_messages session_is_owned session_touch
  load_of_touched st owned = rw (any-touch_row db db id id st.sessions, owned) refl

  append-Appended :
      (ms : List Message) (st : Db)
      → session_is_owned db id st ≡ true
      → All (KeepsMessage db serde) ms
      → next_idx id st.messages + length ms ≤ 2 ^ 31
      → (st' : Db) × (append db serde id ms st ≡ (returned (ok tt), st'))
        × (load_history db serde id st'
            ≡ ok (decoded serde (rows_of id st.messages) ++ map read_back ms))
  unfolding append
  append-Appended [] st owned keeps fits =
      (st, refl, load_of_owned st owned ∙ ap ok (sym (append-nil _)))
  append-Appended (m ∷ ms) st owned keeps fits =
      let (rows, (runs, decodes)) = append_rows-Appended (m ∷ ms) st owned keeps fits in
      (
        session_touch db id (record st { messages = rows }),
        runs,
        load_of_touched (record st { messages = rows }) owned ∙ ap ok decodes,
      )

  -- The owner of a session who appends messages gets them: where the column keeps the calls of the
  -- messages and the session has room for them, the append returns, and the history that is read
  -- then is the one before followed by the messages, each as it reads back.
  pub append_messages-load_history :
      (ms : List Message) (st : Db) (before : List Message)
      → load_history db serde id st ≡ ok before
      → All (KeepsMessage db serde) ms
      → next_idx id st.messages + length ms ≤ 2 ^ 31
      → (st' : Db) × (append_messages db serde id ms st ≡ (returned (ok tt), st'))
        × (load_history db serde id st' ≡ ok (before ++ map read_back ms))
  unfolding append_messages assert_owned
  append_messages-load_history ms st before h keeps fits =
      let (owned, was) = owned_of_load st h in
      let (st', runs, reads) = append-Appended ms st owned keeps fits in
      (st', rw owned runs, reads ∙ ap (λ r. ok (r ++ map read_back ms)) was)
