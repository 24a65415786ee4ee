-- ===== src/Providers/Gemini/Tests.antt =====
-- Runs of the Gemini mapping.
use pg_ask.Prelude.{none, some, [], ◌∷◌, ◌≡◌, refl, codes, All}
use pg_ask.Errors.{ok, err, sql}
use pg_ask.Json.{null}
use pg_ask.Providers.{ToolCall, tool_calls}
use pg_ask.Providers.Gemini.{Part, GenerateResponse, extract_function_name, parse_response}
use pg_ask.Providers.Gemini.Names.{IsAnswered, parse_response-IsAnswered}

abbrev calling : Part
calling = record {
  text = none;
  function_call = some (record { name = codes "count"; args = null });
}

abbrev thinking : Part
thinking = record { text = some (codes "Let me see."); function_call = none }

abbrev call : ToolCall
call = record { id = codes "count::call_1"; name = codes "count"; arguments = null }

abbrev response : GenerateResponse
response = record {
  candidates = record { parts = thinking ∷ calling ∷ []; finish_reason = none } ∷ [];
  usage_metadata = none;
}

parse_test : parse_response response ≡ ok (tool_calls (some (codes "Let me see.")) (call ∷ []) none)
unfolding parse_response
parse_test = refl

parse_nothing_test :
    parse_response (record {
      candidates = record { parts = []; finish_reason = some (codes "SAFETY") } ∷ [];
      usage_metadata = none;
    })
    ≡ err (sql (codes "Gemini returned no content (finishReason=SAFETY)"))
unfolding parse_response
parse_nothing_test = refl

foreign_id_test : extract_function_name (codes "call_abc123") ≡ codes "sql_query"
unfolding extract_function_name
foreign_id_test = refl

parse_response-IsAnswered_example : All IsAnswered (call ∷ [])
parse_response-IsAnswered_example =
    parse_response-IsAnswered response (some (codes "Let me see.")) (call ∷ []) none parse_test
      (((λ e. absurd (cc)), (refl, (refl, (refl, (refl, (refl, tt)))))), tt)
