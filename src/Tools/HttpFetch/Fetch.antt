-- ===== src/Tools/HttpFetch/Fetch.antt =====
-- `HttpFetchTool` of src/tools/http_fetch.rs: the check of the URL, the one request, and what the
-- model is shown of the reply. The client is an interface that answers by the requests so far.
pub mod Guarded
use pg_ask.Prelude.{
  ℕ, ◌≤◌, ◌<◌, Bool, true, false, not, ◌&&◌, Option, none, some, List, [], ◌∷◌, ◌++◌, refl,
  if◌then◌else◌, ltb, leb, Text, codes, decimal, char_count, take_chars, ellipsis, Bool-cases, inl,
  inr, ◌≡◌, char_count-take_chars, take_chars-prefix, arith,
}
use pg_ask.Errors.{
  AskError, missing_config, invalid_config, unsupported_provider, empty_response, provider_http,
  transport, bad_json, tool_failed, max_iterations, guard_rejected, sql, Result, ok, err, display,
  dash,
}
use pg_ask.Checked.{Checked, pass, fail}
use pg_ask.Json.{Value, get_str, Serde}
use pg_ask.Tools.Output.{ToolOutput, shown, failure}
use pg_ask.Tools.HttpFetch.AllowList.{UrlParser, validate_url}
use pg_ask.Tools.HttpFetch.AllowList.Sound.{IsFetchable, validate_url_iff}

abbrev pub max_body_chars : ℕ
max_body_chars = 8000

-- `(status, body, location)`
pub record Reply : Type 0 where
  pub status : ℕ
  pub body : Text
  pub location : Option Text

-- The URLs requested, in order.
abbrev pub Requests : Type 0
Requests = List Text

pub record HttpClient : Type 0 where
  pub get_text_with_status : Text → Requests → Result Reply

pub record HttpFetchTool : Type 0 where
  pub http : HttpClient
  pub allow_list : List Text
  pub allow_private_hosts : Bool

-- `(low..high).contains(&status)`
abbrev pub status_in : ℕ → ℕ → ℕ → Bool
status_in low high status = leb low status && ltb status high

abbrev pub location_or_none : Option Text → Text
location_or_none none = codes "<no Location header>"
location_or_none (some l) = l

abbrev pub redirect_text : ℕ → Option Text → Text
redirect_text status location =
    codes "HTTP "
    ++ (decimal status
        ++ (codes " redirect to: "
            ++ (location_or_none location
                ++ (10
                    ∷ (codes
                          "(Redirects are not auto-followed. If you trust this destination, call http_fetch again with the new URL"
                        ++ (dash ++ codes "it will be re-validated against the allow-list.)"))))))

abbrev pub status_text : ℕ → Text → Text
status_text status body = codes "HTTP " ++ (decimal status ++ (codes ": " ++ body))

-- `to_string_pretty` of a value that was parsed does not fail.
abbrev pub pretty : Serde → Text → Checked Value → Text
pretty serde body (pass value) = serde.to_string_pretty value
pretty serde body (fail e) = body

unfoldable pub cap_body : Text → Text
cap_body display =
    if ltb max_body_chars (char_count display)
    then take_chars max_body_chars display ++ (ellipsis ++ codes " [truncated]")
    else display

unfoldable pub render_reply : Serde → Reply → ToolOutput
unfolding cap_body decimal
render_reply serde r =
    if status_in 300 400 r.status
    then shown (redirect_text r.status r.location)
    else if not (status_in 200 300 r.status)
    then failure (status_text r.status r.body)
    else shown (cap_body (pretty serde r.body (serde.from_str r.body)))

unfoldable pub render_result : Serde → Result Reply → ToolOutput
unfolding render_reply decimal display
render_result serde (ok r) = render_reply serde r
render_result serde (err (provider_http status body)) = failure (status_text status body)
render_result serde (err e) = failure (codes "fetch failed: " ++ display e)

module _ (urls : UrlParser) (serde : Serde) (tool : HttpFetchTool) where
  unfoldable pub fetch : Text → Checked (Unit {0}) → Requests → Result ToolOutput × Requests
  unfolding render_result
  fetch url (fail message) sent = (ok (failure (codes "URL rejected: " ++ message)), sent)
  fetch url (pass u) sent =
      (ok (render_result serde (tool.http.get_text_with_status url sent)), sent ++ url ∷ [])

  unfoldable pub fetch_argument : Option Text → Requests → Result ToolOutput × Requests
  unfolding fetch validate_url
  fetch_argument none sent =
      (err (tool_failed (codes "http_fetch") (codes "missing required argument `url`")), sent)
  fetch_argument (some url) sent =
      fetch url (validate_url urls url tool.allow_list tool.allow_private_hosts) sent

  unfoldable pub invoke : Value → Requests → Result ToolOutput × Requests
  unfolding fetch_argument get_str
  invoke args sent = fetch_argument (get_str args (codes "url")) sent
