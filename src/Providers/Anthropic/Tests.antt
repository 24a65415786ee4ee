-- ===== src/Providers/Anthropic/Tests.antt =====
-- Runs of the Anthropic mapping.
use pg_ask.Prelude.{none, some, [], ◌∷◌, ◌≡◌, refl, codes}
use pg_ask.Errors.{ok, err, empty_response}
use pg_ask.Providers.{tool_calls, final}
use pg_ask.Providers.Anthropic.{endpoint, text_block, other, parse_response}

endpoint_test : endpoint (codes "https://proxy/messages//") ≡ codes "https://proxy/messages"
unfolding endpoint
endpoint_test = refl

two_texts_test :
    parse_response (record {
      content = text_block (codes "One.") ∷ other ∷ text_block (codes "Two.") ∷ [];
      stop_reason = some (codes "end_turn");
      usage = none;
    })
    ≡ ok (final (codes "One.\nTwo.") none)
unfolding parse_response
two_texts_test = refl

-- A stop for tools without one gives an answer with no calls, which the loop nudges.
no_calls_test :
    parse_response (record { content = []; stop_reason = some (codes "tool_use"); usage = none })
    ≡ ok (tool_calls none [] none)
unfolding parse_response
no_calls_test = refl

empty_test :
    parse_response (record { content = []; stop_reason = none; usage = none }) ≡ err empty_response
unfolding parse_response
empty_test = refl
