-- ===== src/Providers/OpenAi.antt =====
-- src/providers/openai.rs but for the HTTP call: the address, the request that is built of a history,
-- and what a response is read as. A response is taken as the fields that serde has filled.
pub mod Calls
pub mod Tests
use pg_ask.Prelude.{
  ℕ, suc, ◌==◌, Bool, true, false, Option, none, some, List, [], ◌∷◌, ◌++◌, is_empty, if◌then◌else◌,
  Text, codes, eq, ends_with,
}
use pg_ask.Checked.{pass, fail}
use pg_ask.Errors.{AskError, empty_response, Result, ok, err}
use pg_ask.Json.{
  Value, string, number, Number, array, object, Items, nil, cons, Fields, end, field, Serde,
}
use pg_ask.Providers.{
  Role, system, user, assistant, tool, ToolCall, MessageContent, plain, assistant_with_tools,
  tool_result, Message, ToolSpec, TokenUsage, ProviderResponse, final, tool_calls,
}

-- `trim_end_matches('/')`
unfoldable pub trim_slashes : Text → Text
trim_slashes [] = []
trim_slashes (c ∷ s) =
    let rest = trim_slashes s in
    elim rest [ [] ↦ if c == b'/' then [] else c ∷ [] | d ∷ t ↦ c ∷ d ∷ t ]

abbrev pub or_completions : Text → Text
or_completions base =
    if ends_with base (codes "/chat/completions")
    then base
    else base ++ codes "/v1/chat/completions"

unfoldable pub endpoint : Text → Text
unfolding trim_slashes ends_with
endpoint base_url = or_completions (trim_slashes base_url)

-- `{ "role": role, "content": text }`
abbrev pub said : Text → Text → Value
said role text =
    object (field (codes "role") (string role) (field (codes "content") (string text) end))

abbrev pub text_or_empty : Option Text → Text
text_or_empty none = []
text_or_empty (some t) = t

abbrev pub result_text : Text → Bool → Text
result_text output is_error = if is_error then codes "ERROR: " ++ output else output

abbrev pub result_value : Text → Text → Value
result_value id text = object (
    field (codes "role") (string (codes "tool"))
      (field (codes "tool_call_id") (string id) (field (codes "content") (string text) end)))

abbrev pub calls_value : Option Text → Items → Value
calls_value text calls = object (
    field (codes "role") (string (codes "assistant")) (
      field (codes "content") (string (text_or_empty text))
        (field (codes "tool_calls") (array calls) end)))

abbrev pub specs_value : ToolSpec → Value
specs_value t = object (
    field (codes "type") (string (codes "function")) (
      field (codes "function")
        (object (
          field (codes "name") (string t.name) (
            field (codes "description") (string t.description)
              (field (codes "parameters") t.input_schema end))))
        end))

unfoldable pub tool_specs : List ToolSpec → Items
tool_specs [] = nil
tool_specs (t ∷ tools) = cons (specs_value t) (tool_specs tools)

abbrev pub tools_field : List ToolSpec → Fields
tools_field [] = end
tools_field (t ∷ tools) = field (codes "tools") (array (tool_specs (t ∷ tools))) end

-- A call as it stands in a request and in a response; `kind` is its `type`.
pub record WireToolCall : Type 0 where
  pub id : Text
  pub kind : Text
  pub name : Text
  pub arguments : Text

abbrev pub wire_value : WireToolCall → Value
wire_value c = object (
    field (codes "id") (string c.id) (
      field (codes "type") (string c.kind) (
        field (codes "function")
          (object (
            field (codes "name") (string c.name)
              (field (codes "arguments") (string c.arguments) end)))
          end)))

-- A choice with its message, of which the absent tool calls are none.
pub record Choice : Type 0 where
  pub content : Option Text
  pub tool_calls : List WireToolCall
  pub finish_reason : Option Text

pub record ChatResponse : Type 0 where
  pub choices : List Choice
  pub usage : Option TokenUsage

abbrev pub full : Option Text → Option Text
full none = none
full (some t) = if is_empty t then none else some t

abbrev pub is_reason : Option Text → Text → Bool
is_reason none reason = false
is_reason (some r) reason = eq r reason

abbrev pub answered : Option TokenUsage → Option Text → Result ProviderResponse
answered usage none = err empty_response
answered usage (some t) = ok (final t usage)

module _ (serde : Serde) where
  -- `serde_json::to_string`, which does not fail on a value
  abbrev pub to_wire : ToolCall → WireToolCall
  to_wire c = record {
    id = c.id;
    kind = codes "function";
    name = c.name;
    arguments = serde.to_string c.arguments;
  }

  unfoldable pub wire_calls : List ToolCall → Items
  wire_calls [] = nil
  wire_calls (c ∷ calls) = cons (wire_value (to_wire c)) (wire_calls calls)

  abbrev wire_of : Role → MessageContent → Value
  wire_of user (plain t) = said (codes "user") t
  wire_of assistant (plain t) = said (codes "assistant") t
  wire_of assistant (assistant_with_tools text calls) = calls_value text (wire_calls calls)
  wire_of tool (tool_result id output is_error) = result_value id (result_text output is_error)
  wire_of _ _ = said (codes "user") (codes "[pg_ask: invalid message]")

  unfoldable pub message_to_wire : Message → Value
  unfolding wire_calls
  message_to_wire m = wire_of m.role m.content

  unfoldable pub messages : List Message → Items
  unfolding message_to_wire
  messages [] = nil
  messages (m ∷ history) = cons (message_to_wire m) (messages history)

  -- The number is the JSON of `max_tokens`.
  unfoldable pub build_request : Text → Number → Text → List Message → List ToolSpec → Value
  unfolding messages tool_specs
  build_request model max_tokens system_prompt history tools = object (
      field (codes "model") (string model) (
        field (codes "max_tokens") (number max_tokens) (
          field (codes "messages")
            (array (cons (said (codes "system") system_prompt) (messages history)))
            (tools_field tools))))

  -- Arguments that are no JSON are kept as a text.
  abbrev pub read_arguments : Text → Value
  read_arguments t = elim (serde.from_str t) [
    | pass v ↦ v
    | fail e ↦ object (field (codes "_raw") (string t) end)
  ]

  abbrev pub read_call : WireToolCall → ToolCall
  read_call c = record { id = c.id; name = c.name; arguments = read_arguments c.arguments }

  unfoldable pub read_calls : List WireToolCall → List ToolCall
  read_calls [] = []
  read_calls (c ∷ calls) = read_call c ∷ read_calls calls

  abbrev pub read_choice : Option TokenUsage → Choice → Result ProviderResponse
  read_choice usage c =
      if is_empty c.tool_calls
      then (if is_reason c.finish_reason (codes "tool_calls")
          then ok (tool_calls (full c.content) (read_calls c.tool_calls) usage)
          else answered usage (full c.content))
      else ok (tool_calls (full c.content) (read_calls c.tool_calls) usage)

  abbrev pub read_first : Option TokenUsage → List Choice → Result ProviderResponse
  read_first usage [] = err empty_response
  read_first usage (c ∷ choices) = read_choice usage c

  unfoldable pub parse_response : ChatResponse → Result ProviderResponse
  unfolding read_calls eq
  parse_response resp = read_first resp.usage resp.choices
