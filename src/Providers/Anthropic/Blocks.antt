-- ===== src/Providers/Anthropic/Blocks.antt =====
-- The blocks of a turn that is sent are those that the same turn is read as.
use pg_ask.Prelude.{Option, none, some, List, [], ◌∷◌, ◌≡◌, refl, ap, ◌∙◌, Text, join}
use pg_ask.Errors.{ok}
use pg_ask.Providers.{assistant, ToolCall, assistant_with_tools, TokenUsage, tool_calls}
use pg_ask.Providers.OpenAi.{full}
use pg_ask.Providers.Anthropic.{
  ContentBlock, text_blocks, uses_of, turn_value, message_to_wire, texts_in, calls_in, combined,
  concluded, parse_response,
}

calls_in-uses_of : (calls : List ToolCall) → calls_in (uses_of calls) ≡ calls
unfolding calls_in uses_of
calls_in-uses_of [] = refl
calls_in-uses_of (c ∷ calls) = ap (λ cs. c ∷ cs) (calls_in-uses_of calls)

texts_in-uses_of : (calls : List ToolCall) → texts_in (uses_of calls) ≡ []
unfolding texts_in uses_of
texts_in-uses_of [] = refl
texts_in-uses_of (c ∷ calls) = texts_in-uses_of calls

calls_in-text_blocks :
    (text : Option Text) (calls : List ToolCall)
    → calls_in (text_blocks text (uses_of calls)) ≡ calls
unfolding calls_in
calls_in-text_blocks none calls = calls_in-uses_of calls
calls_in-text_blocks (some []) calls = calls_in-uses_of calls
calls_in-text_blocks (some (c ∷ t)) calls = calls_in-uses_of calls

combined-text_blocks :
    (text : Option Text) (calls : List ToolCall)
    → combined (texts_in (text_blocks text (uses_of calls))) ≡ full text
unfolding texts_in join
combined-text_blocks none calls = ap combined {y = []} (texts_in-uses_of calls)
combined-text_blocks (some []) calls = ap combined {y = []} (texts_in-uses_of calls)
combined-text_blocks (some (c ∷ t)) calls =
    ap (λ ts. combined ((c ∷ t) ∷ ts)) {y = []} (texts_in-uses_of calls)

-- A turn with tool calls goes out as blocks that a response with the same blocks is read as: the
-- same calls, and the same text if there is one that is not empty, whatever the reason for its end.
pub parse_response-text_blocks :
    (text : Option Text) (c : ToolCall) (calls : List ToolCall) (reason : Option Text)
    (usage : Option TokenUsage)
    → (blocks : List ContentBlock) × (message_to_wire
          (record { role = assistant; content = assistant_with_tools text (c ∷ calls) })
        ≡ turn_value blocks)
      × (parse_response (record { content = blocks; stop_reason = reason; usage = usage })
          ≡ ok (tool_calls (full text) (c ∷ calls) usage))
unfolding message_to_wire parse_response
parse_response-text_blocks text c calls reason usage = (
  text_blocks text (uses_of (c ∷ calls)),
  refl,
  ap (concluded usage reason (combined (texts_in (text_blocks text (uses_of (c ∷ calls))))))
        (calls_in-text_blocks text (c ∷ calls))
      ∙ ap (λ t. ok (tool_calls t (c ∷ calls) usage)) (combined-text_blocks text (c ∷ calls)),
)
