-- ===== src/Providers/Anthropic.antt =====
-- src/providers/anthropic.rs but for the HTTP call: the request that is built of a history, and what
-- a response is read as. A response is taken as the fields that serde has filled.
pub mod Blocks
pub mod Tests
use pg_ask.Prelude.{
  ℕ, Bool, true, false, Option, none, some, List, [], ◌∷◌, ◌++◌, is_empty, if◌then◌else◌, Text,
  codes, eq, ends_with, join,
}
use pg_ask.Errors.{AskError, empty_response, Result, ok, err}
use pg_ask.Json.{
  Value, bool, string, number, Number, array, object, Items, nil, cons, Fields, end, field,
}
use pg_ask.Providers.{
  Role, system, user, assistant, tool, ToolCall, MessageContent, plain, assistant_with_tools,
  tool_result, Message, ToolSpec, TokenUsage, ProviderResponse, final, tool_calls,
}
use pg_ask.Providers.OpenAi.{trim_slashes, said}

abbrev pub or_messages : Text → Text
or_messages base = if ends_with base (codes "/messages") then base else base ++ codes "/v1/messages"

unfoldable pub endpoint : Text → Text
unfolding trim_slashes ends_with
endpoint base_url = or_messages (trim_slashes base_url)

-- `ContentBlock`
pub data ContentBlock : Type 0 where
  text_block : Text → ContentBlock
  tool_use : Text → Text → Value → ContentBlock
  other : ContentBlock

-- The blocks of a request, which are those of a response but for `other`.
abbrev pub block_value : ContentBlock → Value
block_value (text_block t) =
    object (field (codes "type") (string (codes "text")) (field (codes "text") (string t) end))
block_value (tool_use id name input) = object (
    field (codes "type") (string (codes "tool_use")) (
      field (codes "id") (string id)
        (field (codes "name") (string name) (field (codes "input") input end))))
block_value other = object end

abbrev pub use_of : ToolCall → ContentBlock
use_of c = tool_use c.id c.name c.arguments

abbrev pub text_blocks : Option Text → List ContentBlock → List ContentBlock
text_blocks none rest = rest
text_blocks (some t) rest = if is_empty t then rest else text_block t ∷ rest

unfoldable pub uses_of : List ToolCall → List ContentBlock
uses_of [] = []
uses_of (c ∷ calls) = use_of c ∷ uses_of calls

unfoldable pub block_items : List ContentBlock → Items
block_items [] = nil
block_items (b ∷ blocks) = cons (block_value b) (block_items blocks)

abbrev pub turn_value : List ContentBlock → Value
turn_value blocks = object (
    field (codes "role") (string (codes "assistant"))
      (field (codes "content") (array (block_items blocks)) end))

abbrev pub result_value : Text → Text → Bool → Value
result_value id output is_error = object (
    field (codes "role") (string (codes "user")) (
      field (codes "content")
        (array (
          cons
            (object (
              field (codes "type") (string (codes "tool_result")) (
                field (codes "tool_use_id") (string id) (
                  field (codes "content") (string output)
                    (field (codes "is_error") (bool is_error) end)))))
            nil))
        end))

abbrev wire_of : Role → MessageContent → Value
wire_of user (plain t) = said (codes "user") t
wire_of assistant (plain t) = said (codes "assistant") t
wire_of assistant (assistant_with_tools text calls) = turn_value (text_blocks text (uses_of calls))
wire_of tool (tool_result id output is_error) = result_value id output is_error
wire_of _ _ = said (codes "user") (codes "[pg_ask: invalid message]")

unfoldable pub message_to_wire : Message → Value
unfolding uses_of block_items
message_to_wire m = wire_of m.role m.content

unfoldable pub messages : List Message → Items
unfolding message_to_wire
messages [] = nil
messages (m ∷ history) = cons (message_to_wire m) (messages history)

abbrev pub spec_value : ToolSpec → Value
spec_value t = object (
    field (codes "name") (string t.name) (
      field (codes "description") (string t.description)
        (field (codes "input_schema") t.input_schema end)))

unfoldable pub tool_specs : List ToolSpec → Items
tool_specs [] = nil
tool_specs (t ∷ tools) = cons (spec_value t) (tool_specs tools)

abbrev pub tools_field : List ToolSpec → Fields
tools_field [] = end
tools_field (t ∷ tools) = field (codes "tools") (array (tool_specs (t ∷ tools))) end

-- The number is the JSON of `max_tokens`.
unfoldable pub build_request : Text → Number → Text → List Message → List ToolSpec → Value
unfolding messages tool_specs
build_request model max_tokens system_prompt history tools = object (
    field (codes "model") (string model) (
      field (codes "max_tokens") (number max_tokens) (
        field (codes "system") (string system_prompt)
          (field (codes "messages") (array (messages history)) (tools_field tools)))))

pub record MessagesResponse : Type 0 where
  pub content : List ContentBlock
  pub stop_reason : Option Text
  pub usage : Option TokenUsage

abbrev pub text_of : ContentBlock → List Text → List Text
text_of (text_block t) texts = t ∷ texts
text_of _ texts = texts

abbrev pub call_of : ContentBlock → List ToolCall → List ToolCall
call_of (tool_use id name input) calls = record { id = id; name = name; arguments = input } ∷ calls
call_of _ calls = calls

unfoldable pub texts_in : List ContentBlock → List Text
texts_in [] = []
texts_in (b ∷ blocks) = text_of b (texts_in blocks)

unfoldable pub calls_in : List ContentBlock → List ToolCall
calls_in [] = []
calls_in (b ∷ blocks) = call_of b (calls_in blocks)

abbrev pub combined : List Text → Option Text
combined [] = none
combined (t ∷ texts) = some (join (codes "\n") (t ∷ texts))

abbrev pub stopped_for_tools : Option Text → Bool
stopped_for_tools none = false
stopped_for_tools (some reason) = eq reason (codes "tool_use")

abbrev pub answered : Option TokenUsage → Option Text → Result ProviderResponse
answered usage none = err empty_response
answered usage (some t) = ok (final t usage)

abbrev pub concluded :
    Option TokenUsage → Option Text → Option Text → List ToolCall → Result ProviderResponse
concluded usage reason text (c ∷ calls) = ok (tool_calls text (c ∷ calls) usage)
concluded usage reason text [] =
    if stopped_for_tools reason then ok (tool_calls text [] usage) else answered usage text

unfoldable pub parse_response : MessagesResponse → Result ProviderResponse
unfolding texts_in calls_in join eq
parse_response resp =
    concluded resp.usage resp.stop_reason (combined (texts_in resp.content)) (calls_in resp.content)
