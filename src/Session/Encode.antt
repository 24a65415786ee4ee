-- ===== src/Session/Encode.antt =====
-- `encode` of src/session/store.rs and the reading of a row in `load_history` of src/session/mod.rs,
-- with the JSON of a list of tool calls as serde derives it for `ToolCall`.
use pg_ask.Prelude.{
  Bool, false, Option, none, some, List, [], ◌∷◌, is_empty, if◌then◌else◌, Text, codes, eq,
}
use pg_ask.Checked.{pass, fail}
use pg_ask.Json.{
  Value, string, array, object, Items, nil, cons, Fields, end, field, lookup, as_str, Serde,
}
use pg_ask.Providers.{
  Role, system, user, assistant, tool, ToolCall, MessageContent, plain, assistant_with_tools,
  tool_result, Message,
}

-- A row with the text of its `tool_calls`.
pub record MessageRow : Type 0 where
  pub role : Text
  pub content : Text
  pub tool_calls : Option Text
  pub tool_call_id : Option Text
  pub is_error : Option Bool

-- `serde_json::to_value(tool_calls)`, which does not fail on these types
abbrev pub call_value : ToolCall → Value
call_value c = object (
    field (codes "id") (string c.id)
      (field (codes "name") (string c.name) (field (codes "arguments") c.arguments end)))

unfoldable pub call_items : List ToolCall → Items
call_items [] = nil
call_items (c ∷ calls) = cons (call_value c) (call_items calls)

abbrev pub new_call : Option Text → Option Text → Option Value → Option ToolCall
new_call (some id) (some name) (some arguments) =
    some (record { id = id; name = name; arguments = arguments })
new_call (some id) (some name) none = none
new_call (some id) none arguments = none
new_call none name arguments = none

abbrev pub str_field : Text → Fields → Option Text
str_field k fs = elim (lookup k fs) [ none ↦ none | some v ↦ as_str v ]

-- A struct is read from an object, or from an array of its fields.
unfoldable pub read_call : Value → Option ToolCall
unfolding lookup
read_call (object fs) =
    new_call (str_field (codes "id") fs) (str_field (codes "name") fs)
      (lookup (codes "arguments") fs)
read_call (array (cons id (cons name (cons arguments nil)))) =
    new_call (as_str id) (as_str name) (some arguments)
read_call _ = none

abbrev pub both : Option ToolCall → Option (List ToolCall) → Option (List ToolCall)
both (some c) (some calls) = some (c ∷ calls)
both (some c) none = none
both none calls = none

unfoldable pub read_items : Items → Option (List ToolCall)
unfolding read_call
read_items nil = some []
read_items (cons v items) = both (read_call v) (read_items items)

-- `serde_json::from_value(calls_json).unwrap_or_default()`
abbrev pub or_empty : Option (List ToolCall) → List ToolCall
or_empty none = []
or_empty (some calls) = calls

unfoldable pub read_calls : Value → List ToolCall
unfolding read_items
read_calls (array items) = or_empty (read_items items)
read_calls _ = []

abbrev pub text_or_empty : Option Text → Text
text_or_empty none = []
text_or_empty (some t) = t

module _ (serde : Serde) where
  abbrev plain_row : Text → Text → MessageRow
  plain_row role content = record {
    role = role;
    content = content;
    tool_calls = none;
    tool_call_id = none;
    is_error = none;
  }

  -- With the text that `append` makes of the calls.
  abbrev encode_as : Role → MessageContent → MessageRow
  encode_as user (plain t) = plain_row (codes "user") t
  encode_as assistant (plain t) = plain_row (codes "assistant") t
  encode_as assistant (assistant_with_tools text calls) =
      record (plain_row (codes "assistant") (text_or_empty text)) {
        tool_calls = some (serde.to_string (array (call_items calls)));
      }
  encode_as tool (tool_result id output is_error) = record (plain_row (codes "tool") output) {
    tool_call_id = some id;
    is_error = some is_error;
  }
  encode_as system (plain t) = plain_row (codes "assistant") t
  encode_as _ _ = plain_row (codes "assistant") []

  unfoldable pub encode : Message → MessageRow
  unfolding call_items
  encode m = encode_as m.role m.content

  -- `serde_json::from_str(&s).ok()` in `fetch_messages`
  abbrev pub parsed_calls : Option Text → Option Value
  parsed_calls none = none
  parsed_calls (some t) = elim (serde.from_str t) [ pass v ↦ some v | fail e ↦ none ]

  abbrev non_empty : Text → Option Text
  non_empty t = if is_empty t then none else some t

  abbrev pub assistant_message : Text → Option Value → Message
  assistant_message content none = record { role = assistant; content = plain content }
  assistant_message content (some calls) = record {
    role = assistant;
    content = assistant_with_tools (non_empty content) (read_calls calls);
  }

  abbrev flag_or_false : Option Bool → Bool
  flag_or_false none = false
  flag_or_false (some b) = b

  -- A role of another name, `system` among them, gives no message.
  unfoldable pub decode : MessageRow → Option Message
  unfolding read_calls eq
  decode row =
      if eq row.role (codes "user")
      then some (record { role = user; content = plain row.content })
      else if eq row.role (codes "assistant")
      then some (assistant_message row.content (parsed_calls row.tool_calls))
      else if eq row.role (codes "tool")
      then some (record {
        role = tool;
        content =
            tool_result (text_or_empty row.tool_call_id) row.content (flag_or_false row.is_error);
      })
      else none
