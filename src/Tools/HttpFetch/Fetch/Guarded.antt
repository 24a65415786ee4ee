-- ===== src/Tools/HttpFetch/Fetch/Guarded.antt =====
-- What `HttpFetchTool::invoke` of src/tools/http_fetch.rs sends and what it shows.
use pg_ask.Prelude.{
  ℕ, ◌≤◌, ◌<◌, true, false, Option, none, some, [], ◌∷◌, ◌++◌, refl, ltb, Text, codes, char_count,
  take_chars, ellipsis, Bool-cases, inl, inr, ◌≡◌, char_count-take_chars, take_chars-prefix, arith,
}
use pg_ask.Errors.{
  AskError, missing_config, invalid_config, unsupported_provider, empty_response, provider_http,
  transport, bad_json, tool_failed, max_iterations, guard_rejected, sql, Result, ok, err,
}
use pg_ask.Checked.{Checked, pass, fail}
use pg_ask.Json.{Value, get_str, Serde}
use pg_ask.Tools.Output.{ToolOutput, shown, failure}
use pg_ask.Tools.HttpFetch.AllowList.{UrlParser, validate_url}
use pg_ask.Tools.HttpFetch.AllowList.Sound.{IsFetchable, validate_url_iff}
use pg_ask.Tools.HttpFetch.Fetch.{
  max_body_chars, Reply, Requests, HttpFetchTool, status_in, redirect_text, pretty, cap_body,
  render_reply, render_result, fetch, fetch_argument, invoke,
}

-- A text of at most 8000 characters as it is, and the first 8000 of a longer one with a mark.
pub data IsCapped : Text → Text → Type 0 where
  whole : {text : Text} → char_count text ≤ 8000 → IsCapped text text
  cut :
      {text : Text} (start rest : Text)
      → text ≡ start ++ rest
      → char_count start ≡ 8000
      → IsCapped text (start ++ (ellipsis ++ codes " [truncated]"))

-- What the model may be shown as a success: a redirect, which is not followed, or the body of a
-- reply with a status 2xx, printed again if it is JSON and cut off.
pub data Shows (serde : Serde) : Result Reply → ToolOutput → Type 0 where
  redirect :
      {r : Reply}
      → 300 ≤ r.status
      → r.status < 400
      → Shows serde (ok r) (shown (redirect_text r.status r.location))
  body :
      {r : Reply} {text : Text}
      → 200 ≤ r.status
      → r.status < 300
      → IsCapped (pretty serde r.body (serde.from_str r.body)) text
      → Shows serde (ok r) (shown text)
  refused : {r : Result Reply} {text : Text} → Shows serde r (failure text)

-- How a call of the tool goes: it sends nothing and fails, or it sends the one request that its
-- argument names, for a URL that may be fetched, and shows the reply.
pub data Fetched (urls : UrlParser) (serde : Serde) (tool : HttpFetchTool) (args : Value)
    (sent : Requests) : Result ToolOutput × Requests → Type 0 where
  no_url :
      {e : AskError}
      → get_str args (codes "url") ≡ none
      → Fetched urls serde tool args sent (err e, sent)
  rejected : {text : Text} → Fetched urls serde tool args sent (ok (failure text), sent)
  requested :
      {url : Text} {out : ToolOutput}
      → get_str args (codes "url") ≡ some url
      → IsFetchable urls url tool.allow_list tool.allow_private_hosts
      → Shows serde (tool.http.get_text_with_status url sent) out
      → Fetched urls serde tool args sent (ok out, sent ++ url ∷ [])

short_enough : (a b : ℕ) → ltb a b ≡ false → b ≤ a
short_enough a b h = ground arith

long_enough : (a b : ℕ) → ltb a b ≡ true → a ≤ b
long_enough a b h = ground arith

cap_body-IsCapped : (text : Text) → IsCapped text (cap_body text)
unfolding cap_body
cap_body-IsCapped text = elim (Bool-cases (ltb max_body_chars (char_count text))) [
  | inr e ↦ rw e (whole (short_enough _ _ e))
  | inl e ↦
      let (rest, p) = take_chars-prefix max_body_chars text in
      rw e (
        cut (take_chars max_body_chars text) rest p
          (char_count-take_chars max_body_chars text (long_enough _ _ e)))
]

status_low : (low high status : ℕ) → status_in low high status ≡ true → low ≤ status
status_low low high status e = ground arith

status_high : (low high status : ℕ) → status_in low high status ≡ true → status < high
status_high low high status e = ground arith

reply-Shows : (serde : Serde) (r : Reply) → Shows serde (ok r) (render_reply serde r)
unfolding render_reply
reply-Shows serde r = elim (Bool-cases (status_in 300 400 r.status)) [
  | inl e ↦ rw e (redirect (status_low 300 400 r.status e) (status_high 300 400 r.status e))
  | inr e ↦ elim (Bool-cases (status_in 200 300 r.status)) [
    | inl g ↦
        rw (e, g)
          (body (status_low 200 300 r.status g) (status_high 200 300 r.status g)
            (cap_body-IsCapped _))
    | inr g ↦ rw (e, g) refused
  ]
]

result-Shows : (serde : Serde) (r : Result Reply) → Shows serde r (render_result serde r)
unfolding render_result
result-Shows serde (ok r) = reply-Shows serde r
result-Shows serde (err (missing_config _)) = refused
result-Shows serde (err (invalid_config _ _)) = refused
result-Shows serde (err (unsupported_provider _)) = refused
result-Shows serde (err empty_response) = refused
result-Shows serde (err (provider_http _ _)) = refused
result-Shows serde (err (transport _)) = refused
result-Shows serde (err (bad_json _)) = refused
result-Shows serde (err (tool_failed _ _)) = refused
result-Shows serde (err (max_iterations _)) = refused
result-Shows serde (err (guard_rejected _)) = refused
result-Shows serde (err (sql _)) = refused

module _ (urls : UrlParser) (serde : Serde) (tool : HttpFetchTool) (args : Value)
    (sent : Requests) where
  fetched :
      (url : Text) (answer : Checked (Unit {0}))
      → get_str args (codes "url") ≡ some url
      → validate_url urls url tool.allow_list tool.allow_private_hosts ≡ answer
      → Fetched urls serde tool args sent (fetch urls serde tool url answer sent)
  unfolding fetch
  fetched url (fail message) given checked = rejected
  fetched url (pass u) given checked =
      requested given
        ((validate_url_iff urls url tool.allow_list tool.allow_private_hosts).0 checked)
        (result-Shows serde (tool.http.get_text_with_status url sent))

  argument_fetched :
      (argument : Option Text)
      → get_str args (codes "url") ≡ argument
      → Fetched urls serde tool args sent (fetch_argument urls serde tool argument sent)
  unfolding fetch_argument
  argument_fetched none given = no_url given
  argument_fetched (some url) given = fetched url _ given refl

  -- A call of http_fetch either sends nothing and fails, or it sends exactly one request, to the
  -- URL of its argument and only where that URL may be fetched; and it shows as a success only a
  -- redirect, which it does not follow, or the body of a reply with a status 2xx, cut off at 8000
  -- characters.
  pub invoke-Fetched : Fetched urls serde tool args sent (invoke urls serde tool args sent)
  unfolding invoke
  invoke-Fetched = argument_fetched (get_str args (codes "url")) refl
