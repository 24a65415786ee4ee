-- ===== src/Providers/Gemini.antt =====
-- src/providers/gemini.rs but for the HTTP call: the request that is built of a history, and what a
-- response is read as. A response is taken as the fields that serde has filled.
pub mod Names
pub mod Tests
use pg_ask.Prelude.{
  ℕ, suc, ◌+◌, ◌==◌, ◌&&◌, Bool, true, false, Option, none, some, List, [], ◌∷◌, ◌++◌, is_empty,
  if◌then◌else◌, Text, codes, decimal, join,
}
use pg_ask.Errors.{AskError, empty_response, sql, Result, ok, err}
use pg_ask.Json.{
  Value, bool, string, number, Number, array, object, Items, nil, cons, Fields, end, field,
}
use pg_ask.Providers.{
  Role, system, user, assistant, tool, ToolCall, MessageContent, plain, assistant_with_tools,
  tool_result, Message, ToolSpec, TokenUsage, ProviderResponse, final, tool_calls,
}

abbrev pub one : Value → Items
one v = cons v nil

abbrev pub text_part : Text → Value
text_part t = object (field (codes "text") (string t) end)

-- `{ "role": role, "parts": parts }`
abbrev pub content : Text → Items → Value
content role parts =
    object (field (codes "role") (string role) (field (codes "parts") (array parts) end))

abbrev pub call_part : ToolCall → Value
call_part c = object (
    field (codes "functionCall")
      (object (field (codes "name") (string c.name) (field (codes "args") c.arguments end))) end)

unfoldable pub call_parts : List ToolCall → Items
call_parts [] = nil
call_parts (c ∷ calls) = cons (call_part c) (call_parts calls)

abbrev pub text_parts : Option Text → Items → Items
text_parts none rest = rest
text_parts (some t) rest = if is_empty t then rest else cons (text_part t) rest

abbrev pub cons_name : ℕ → Option Text → Option Text
cons_name c none = none
cons_name c (some name) = some (c ∷ name)

-- The part before the first `::` of `split_once("::")`
unfoldable pub before_colons : Text → Option Text
before_colons [] = none
before_colons (c ∷ []) = none
before_colons (c ∷ d ∷ s) =
    let rest = before_colons (d ∷ s) in if c == b':' && d == b':' then some [] else cons_name c rest

abbrev pub or_sql_query : Option Text → Text
or_sql_query none = codes "sql_query"
or_sql_query (some []) = codes "sql_query"
or_sql_query (some (c ∷ name)) = c ∷ name

unfoldable pub extract_function_name : Text → Text
unfolding before_colons
extract_function_name tool_call_id = or_sql_query (before_colons tool_call_id)

abbrev pub response_part : Text → Text → Bool → Value
response_part name output is_error = object (
    field (codes "functionResponse")
      (object (
        field (codes "name") (string name) (
          field (codes "response")
            (object (
              field (codes "output") (string output)
                (field (codes "is_error") (bool is_error) end)))
            end)))
      end)

abbrev wire_of : Role → MessageContent → Option Value
wire_of user (plain t) = some (content (codes "user") (one (text_part t)))
wire_of assistant (plain t) = some (content (codes "model") (one (text_part t)))
wire_of assistant (assistant_with_tools text calls) =
    some (content (codes "model") (text_parts text (call_parts calls)))
wire_of tool (tool_result id output is_error) =
    some (content (codes "user") (one (response_part (extract_function_name id) output is_error)))
wire_of _ _ = none

unfoldable pub message_to_wire : Message → Option Value
unfolding call_parts extract_function_name
message_to_wire m = wire_of m.role m.content

abbrev cons_some : Option Value → Items → Items
cons_some none items = items
cons_some (some v) items = cons v items

unfoldable pub contents : List Message → Items
unfolding message_to_wire
contents [] = nil
contents (m ∷ history) = cons_some (message_to_wire m) (contents history)

abbrev pub declaration : ToolSpec → Value
declaration t = object (
    field (codes "name") (string t.name) (
      field (codes "description") (string t.description)
        (field (codes "parameters") t.input_schema end)))

unfoldable pub declarations : List ToolSpec → Items
declarations [] = nil
declarations (t ∷ tools) = cons (declaration t) (declarations tools)

abbrev pub tools_field : List ToolSpec → Fields
tools_field [] = end
tools_field (t ∷ tools) =
    field (codes "tools")
      (array (
        one (object (field (codes "functionDeclarations") (array (declarations (t ∷ tools))) end))))
      end

-- The number is the JSON of `max_tokens`.
unfoldable pub build_request : Number → Text → List Message → List ToolSpec → Value
unfolding contents declarations
build_request max_tokens system_prompt history tools = object (
    field (codes "contents") (array (contents history)) (
      field (codes "systemInstruction")
        (object (field (codes "parts") (array (one (text_part system_prompt))) end))
        (field (codes "generationConfig")
          (object (field (codes "maxOutputTokens") (number max_tokens) end)) (tools_field tools))))

pub record FunctionCall : Type 0 where
  pub name : Text
  pub args : Value

pub record Part : Type 0 where
  pub text : Option Text
  pub function_call : Option FunctionCall

-- The parts of an absent content are none.
pub record Candidate : Type 0 where
  pub parts : List Part
  pub finish_reason : Option Text

pub record GeminiUsage : Type 0 where
  pub prompt_token_count : Option ℕ
  pub candidates_token_count : Option ℕ

pub record GenerateResponse : Type 0 where
  pub candidates : List Candidate
  pub usage_metadata : Option GeminiUsage

abbrev pub both_counts : Option ℕ → Option ℕ → Option TokenUsage
both_counts (some p) (some c) = some (record { prompt_tokens = p; completion_tokens = c })
both_counts (some p) none = none
both_counts none c = none

abbrev pub usage_of : Option GeminiUsage → Option TokenUsage
usage_of none = none
usage_of (some u) = both_counts u.prompt_token_count u.candidates_token_count

abbrev pub call_id : Text → ℕ → Text
call_id name idx = name ++ (codes "::call_" ++ decimal idx)

abbrev pub cons_call : ℕ → Option FunctionCall → List ToolCall → List ToolCall
cons_call idx none calls = calls
cons_call idx (some fc) calls =
    record { id = call_id fc.name idx; name = fc.name; arguments = fc.args } ∷ calls

-- The calls of the parts, the first of which has the index.
unfoldable pub calls_from : ℕ → List Part → List ToolCall
unfolding decimal
calls_from idx [] = []
calls_from idx (p ∷ parts) = cons_call idx p.function_call (calls_from (suc idx) parts)

abbrev pub cons_text : Option Text → List Text → List Text
cons_text none texts = texts
cons_text (some t) texts = if is_empty t then texts else t ∷ texts

unfoldable pub texts_of : List Part → List Text
texts_of [] = []
texts_of (p ∷ parts) = cons_text p.text (texts_of parts)

abbrev pub combined : List Text → Option Text
combined [] = none
combined (t ∷ texts) = some (join (codes "\n") (t ∷ texts))

abbrev pub reason_or_unknown : Option Text → Text
reason_or_unknown none = codes "UNKNOWN"
reason_or_unknown (some reason) = reason

abbrev pub concluded :
    Option TokenUsage → Option Text → Option Text → List ToolCall → Result ProviderResponse
concluded usage reason text (c ∷ calls) = ok (tool_calls text (c ∷ calls) usage)
concluded usage reason (some text) [] = ok (final text usage)
concluded usage reason none [] = err (
    sql (
      codes "Gemini returned no content (finishReason=" ++ (reason_or_unknown reason ++ codes ")")))

abbrev pub read_first : Option TokenUsage → List Candidate → Result ProviderResponse
read_first usage [] = err empty_response
read_first usage (c ∷ candidates) =
    concluded usage c.finish_reason (combined (texts_of c.parts)) (calls_from 0 c.parts)

unfoldable pub parse_response : GenerateResponse → Result ProviderResponse
unfolding calls_from texts_of join
parse_response resp = read_first (usage_of resp.usage_metadata) resp.candidates
