-- ===== src/Providers/Gemini/Names.antt =====
-- The name of a called function goes through the id of the call and back.
use pg_ask.Prelude.{
  ℕ, suc, ◌==◌, Bool, false, Option, none, some, List, [], ◌∷◌, ◌++◌, ◌≡◌, ◌≢◌, refl, sym, ap, ◌∙◌,
  subst, All, Text, codes, decimal,
}
use pg_ask.Errors.{ok}
use pg_ask.Providers.{tool, ToolCall, tool_result, TokenUsage, tool_calls}
use pg_ask.Providers.Gemini.{
  content, one, response_part, before_colons, or_sql_query, extract_function_name, message_to_wire,
  FunctionCall, Part, Candidate, GenerateResponse, usage_of, call_id, cons_call, calls_from,
  texts_of, combined, concluded, read_first, parse_response,
}

abbrev pub NoColon : Text → Type 0
NoColon name = All (λ c. (c == b':') ≡ false) name

before_colons-cons :
    (c : ℕ) (s t : Text)
    → (c == b':') ≡ false
    → before_colons s ≡ some t
    → before_colons (c ∷ s) ≡ some (c ∷ t)
unfolding before_colons
before_colons-cons c [] t plain h = absurd (cc)
before_colons-cons c (d ∷ s) t plain h = rw (plain, h) refl

before_colons-append :
    (name s : Text) → NoColon name → before_colons (name ++ (b':' ∷ b':' ∷ s)) ≡ some name
unfolding before_colons
before_colons-append [] s h = refl
before_colons-append (c ∷ name) s h =
    before_colons-cons c (name ++ (b':' ∷ b':' ∷ s)) name h.0 (before_colons-append name s h.1)

full_name : (name : Text) → name ≢ [] → or_sql_query (some name) ≡ name
full_name [] h = absurd (h refl)
full_name (c ∷ name) h = refl

extract_function_name-call_id :
    (name : Text) (idx : ℕ)
    → name ≢ []
    → NoColon name
    → extract_function_name (call_id name idx) ≡ name
unfolding extract_function_name
extract_function_name-call_id name idx full plain =
    ap or_sql_query (before_colons-append name (codes "call_" ++ decimal idx) plain)
    ∙ full_name name full

abbrev pub IsPlain : ToolCall → Type 0
IsPlain call = (call.name ≢ []) × NoColon call.name

-- A result of the call is sent under the name of the function that was called.
abbrev pub IsAnswered : ToolCall → Type 0
IsAnswered call =
    (output : Text) (is_error : Bool)
    → message_to_wire (record { role = tool; content = tool_result call.id output is_error })
      ≡ some (content (codes "user") (one (response_part call.name output is_error)))

cons_call-IsAnswered :
    (idx : ℕ) (fc : Option FunctionCall) (calls : List ToolCall)
    → All IsPlain (cons_call idx fc calls)
    → (All IsPlain calls → All IsAnswered calls)
    → All IsAnswered (cons_call idx fc calls)
unfolding message_to_wire
cons_call-IsAnswered idx none calls plain h = h plain
cons_call-IsAnswered idx (some fc) calls plain h = (
  (λ output is_error.
      ap (λ name. some (content (codes "user") (one (response_part name output is_error))))
        (extract_function_name-call_id fc.name idx plain.0.0 plain.0.1)),
  h plain.1,
)

calls_from-IsAnswered :
    (idx : ℕ) (parts : List Part)
    → All IsPlain (calls_from idx parts)
    → All IsAnswered (calls_from idx parts)
unfolding calls_from
calls_from-IsAnswered idx [] plain = tt
calls_from-IsAnswered idx (p ∷ parts) plain =
    cons_call-IsAnswered idx p.function_call (calls_from (suc idx) parts) plain
      (calls_from-IsAnswered (suc idx) parts)

concluded-calls :
    (usage : Option TokenUsage) (reason text : Option Text) (cs : List ToolCall) {t : Option Text}
    {calls : List ToolCall} {u : Option TokenUsage}
    → concluded usage reason text cs ≡ ok (tool_calls t calls u)
    → cs ≡ calls
concluded-calls usage reason text (c ∷ cs) h = cc
concluded-calls usage reason (some text) [] h = absurd (cc)
concluded-calls usage reason none [] h = absurd (cc)

read_first-IsAnswered :
    (usage : Option TokenUsage) (candidates : List Candidate) {t : Option Text}
    {calls : List ToolCall} {u : Option TokenUsage}
    → read_first usage candidates ≡ ok (tool_calls t calls u)
    → All IsPlain calls
    → All IsAnswered calls
read_first-IsAnswered usage [] h plain = absurd (cc)
read_first-IsAnswered usage (c ∷ candidates) h plain =
    let same =
      concluded-calls usage c.finish_reason (combined (texts_of c.parts)) (calls_from 0 c.parts)
        h in
    subst (All IsAnswered) same
      (calls_from-IsAnswered 0 c.parts (subst (All IsPlain) (sym same) plain))

-- The tool calls that a Gemini response is read as can be answered, if their names are not empty and
-- have no colon: whatever a tool gives for one, the message with its result goes out as the
-- response of the function that the call named.
pub parse_response-IsAnswered :
    (resp : GenerateResponse) (text : Option Text) (calls : List ToolCall)
    (usage : Option TokenUsage)
    → parse_response resp ≡ ok (tool_calls text calls usage)
    → All IsPlain calls
    → All IsAnswered calls
unfolding parse_response
parse_response-IsAnswered resp text calls usage h plain =
    read_first-IsAnswered (usage_of resp.usage_metadata) resp.candidates h plain
