-- ===== src/Session/Tests.antt =====
-- Runs of the session functions.
use pg_ask.Prelude.{
  true, false, none, some, List, [], ◌∷◌, ◌++◌, map, ◌≡◌, ◌≢◌, refl, arith, codes, any, eq, eq_iff,
}
use pg_ask.Checked.{pass}
use pg_ask.Errors.{ok, err}
use pg_ask.Agent.Run.{returned}
use pg_ask.Json.{array, string, Serde}
use pg_ask.Providers.{
  system, user, assistant, tool, ToolCall, plain, assistant_with_tools, tool_result, Message,
}
use pg_ask.Session.Encode.{call_items}
use pg_ask.Session.Store.{
  Db, Backend, create, append_messages, load_history, clear, next_idx, not_found,
}
use pg_ask.Session.Store.RoundTrip.{read_back, append_messages-load_history}
use pg_ask.Session.Store.Private.{Refused, append_to, perform, perform-Refused}

abbrev question : Message
question = record { role = user; content = plain (codes "How many?") }

abbrev calls : List ToolCall
calls =
    record { id = codes "c1"; name = codes "sql_query"; arguments = string (codes "SELECT 1") } ∷ []

abbrev turn : Message
turn = record { role = assistant; content = assistant_with_tools (some []) calls }

abbrev answer : Message
answer = record { role = tool; content = tool_result (codes "c1") (codes "1") false }

abbrev prompt : Message
prompt = record { role = system; content = plain (codes "Be brief.") }

-- Prints every value as one text, which reads as the calls above.
abbrev serde : Serde
serde = record {
  to_string = λ v. codes "calls";
  to_string_pretty = λ v. codes "calls";
  from_str = λ t. pass (array (call_items calls));
}

abbrev ann : Backend
ann = record { session_user = codes "ann"; now = 20; uuid = λ st. 7; jsonb = λ t. some t }

abbrev bob : Backend
bob = record { session_user = codes "bob"; now = 30; uuid = λ st. 8; jsonb = λ t. some t }

abbrev tables : Db
tables = record {
  sessions =
      record { id = 7; owner = codes "ann"; label = none; updated_at = 10 }
      ∷ record { id = 8; owner = codes "bob"; label = none; updated_at = 10 }
      ∷ [];
  messages = [];
}

create_test : (create ann none (record { sessions = []; messages = [] })).0 ≡ returned (ok 7)
unfolding create
create_test = refl

abbrev asked : Db
asked = (append_messages ann serde 7 (question ∷ turn ∷ answer ∷ prompt ∷ []) tables).1

load_test :
    load_history ann serde 7 asked
    ≡ ok (
        question
        ∷ record { role = assistant; content = assistant_with_tools none calls }
        ∷ answer
        ∷ record { role = assistant; content = plain (codes "Be brief.") }
        ∷ [])
unfolding append_messages load_history
load_test = refl

foreign_test : load_history bob serde 7 asked ≡ err not_found
unfolding append_messages load_history
foreign_test = refl

clear_test : load_history ann serde 7 (clear ann 7 asked).1 ≡ ok []
unfolding append_messages load_history clear
clear_test = refl

append_messages-load_history_example :
    (st : Db) × (append_messages ann serde 7 (question ∷ turn ∷ []) tables ≡ (returned (ok tt), st))
    × (load_history ann serde 7 st ≡ ok ([] ++ map read_back (question ∷ turn ∷ [])))
unfolding load_history next_idx
append_messages-load_history_example =
    append_messages-load_history ann serde 7 (question ∷ turn ∷ []) tables [] refl
      (tt, ((codes "calls", refl, refl, refl), tt)) (omega arith)

not_bob : codes "ann" ≢ codes "bob"
unfolding eq
not_bob p = absurd (let k : false ≡ true = (eq_iff (codes "ann") (codes "bob")).1 p in cc)

perform-Refused_example :
    Refused bob serde 7 tables
    × ((reader : Backend)
        → load_history reader serde 7 (perform bob serde (append_to 8 (question ∷ [])) tables)
          ≡ load_history reader serde 7 tables)
unfolding any
perform-Refused_example =
    perform-Refused bob serde 7 (append_to 8 (question ∷ [])) tables refl
      ((λ _. not_bob), ((λ e. absurd (cc)), tt))
