-- ===== src/Providers/OpenAi/Tests.antt =====
-- Runs of the OpenAI mapping and of the choice of an adapter.
use pg_ask.Prelude.{none, some, [], ◌∷◌, ◌≡◌, refl, codes, eq, if◌then◌else◌}
use pg_ask.Checked.{pass, fail}
use pg_ask.Errors.{ok, err, empty_response, unsupported_provider}
use pg_ask.Providers.Build.{openai, build}
use pg_ask.Json.{null, object, field, string, end, Serde}
use pg_ask.Providers.{ToolCall, tool_calls}
use pg_ask.Providers.OpenAi.{endpoint, Choice, parse_response}

endpoint_test :
    endpoint (codes "https://api.openai.com/") ≡ codes "https://api.openai.com/v1/chat/completions"
unfolding endpoint
endpoint_test = refl

whole_endpoint_test :
    endpoint (codes "https://z.ai/v4/chat/completions") ≡ codes "https://z.ai/v4/chat/completions"
unfolding endpoint
whole_endpoint_test = refl

-- Knows one text of JSON.
abbrev serde : Serde
serde = record {
  to_string = λ v. codes "null";
  to_string_pretty = λ v. codes "null";
  from_str = λ t. if eq t (codes "null") then pass null else fail (codes "expected value");
}

abbrev count : ToolCall
count = record { id = codes "c1"; name = codes "count"; arguments = null }

abbrev broken : Choice
broken = record {
  content = none;
  tool_calls =
      record {
        id = codes "c1";
        kind = codes "function";
        name = codes "count";
        arguments = codes "{";
      }
      ∷ [];
  finish_reason = some (codes "tool_calls");
}

-- Arguments that are no JSON reach the tool as a text.
broken_test :
    parse_response serde (record { choices = broken ∷ []; usage = none })
    ≡ ok (
        tool_calls none
          (record {
            id = codes "c1";
            name = codes "count";
            arguments = object (field (codes "_raw") (string (codes "{")) end);
          }
            ∷ [])
          none)
unfolding parse_response eq
broken_test = refl

empty_test :
    parse_response serde (record {
      choices = record { content = some []; tool_calls = []; finish_reason = none } ∷ [];
      usage = none;
    })
    ≡ err empty_response
unfolding parse_response
empty_test = refl

alias_test : build (codes " Groq ") ≡ ok openai
unfolding build
alias_test = refl

unknown_test : build (codes "Cohere") ≡ err (unsupported_provider (codes "Cohere"))
unfolding build
unknown_test = refl
