-- ===== src/Tools/HttpFetch/Tests.antt =====
-- Runs of the URL guard of src/tools/http_fetch.rs.
use pg_ask.Tools.HttpFetch.IpParser.{parse_ip}
use pg_ask.Prelude.{
  true, false, none, some, [], ◌∷◌, ◌≡◌, refl, ◌↔◌, codes, eq, trim, arith, if◌then◌else◌, any,
  starts_with, to_ascii_lowercase,
}
use pg_ask.Checked.{pass, fail}
use pg_ask.Errors.{ok}
use pg_ask.Json.{Value, Serde, string, object, field, end}
use pg_ask.Tools.HttpFetch.Fetch.{HttpFetchTool, invoke}
use pg_ask.Tools.HttpFetch.Fetch.Guarded.{Fetched, invoke-Fetched}
use pg_ask.Tools.HttpFetch.Ip.{v4_is_disallowed}
use pg_ask.Tools.HttpFetch.Ip.Ranges.{IsReserved, address, v4_is_disallowed_iff}
use pg_ask.Tools.HttpFetch.AllowList.{Url, UrlParser, EntryMatcher, matches, validate_url}
use pg_ask.Tools.HttpFetch.AllowList.Sound.{IsFetchable, validate_url_iff, bracket_host_unguarded}

-- A parser that knows one URL with a name and one with an IPv6 address.
abbrev urls : UrlParser
urls = record {
  parse = λ s.
      if eq s (codes "https://api.example.com/v1")
      then pass (record {
        scheme = codes "https";
        host_str = some (codes "api.example.com");
        path = codes "/v1";
      })
      else if eq s (codes "http://[::1]/")
      then pass
          (record { scheme = codes "http"; host_str = some (codes "[::1]"); path = codes "/" })
      else fail (codes "relative URL without a base");
}

abbrev entry : EntryMatcher
entry = record { host = codes "api.example.com"; path_prefix = some (codes "/v1"); scheme = none }

abbrev request : Url
request = record {
  scheme = codes "https";
  host_str = some (codes "API.example.com");
  path = codes "/v1/items";
}

v4_is_disallowed_iff_example :
    (v4_is_disallowed 100 127 255 255 ≡ true) ↔ IsReserved (address 100 127 255 255)
v4_is_disallowed_iff_example =
    v4_is_disallowed_iff 100 127 255 255 (omega arith) (omega arith) (omega arith) (omega arith)

validate_url_test :
    validate_url urls (codes "https://api.example.com/v1") (codes "api.example.com" ∷ []) false
    ≡ pass tt
unfolding validate_url eq parse_ip any trim starts_with matches to_ascii_lowercase
validate_url_test = refl

validate_url_iff_example :
    (validate_url urls (codes "https://api.example.com/v1") (codes "api.example.com" ∷ []) false
      ≡ pass tt)
    ↔ IsFetchable urls (codes "https://api.example.com/v1") (codes "api.example.com" ∷ []) false
validate_url_iff_example =
    validate_url_iff urls (codes "https://api.example.com/v1") (codes "api.example.com" ∷ []) false

bracket_host_unguarded_example :
    validate_url urls (codes "http://[::1]/") (codes "[::1]" ∷ []) false
    ≡ validate_url urls (codes "http://[::1]/") (codes "[::1]" ∷ []) true
unfolding eq
bracket_host_unguarded_example =
    bracket_host_unguarded urls (codes "http://[::1]/") (codes "[::1]" ∷ [])
      (record { scheme = codes "http"; host_str = some (codes "[::1]"); path = codes "/" })
      (codes "::1]") refl refl

abbrev serde : Serde
serde = record {
  to_string = λ v. codes "0";
  to_string_pretty = λ v. codes "0";
  from_str = λ s. fail (codes "expected value");
}

abbrev tool : HttpFetchTool
tool = record {
  http = record {
    get_text_with_status =
        λ url sent. ok (record { status = 200; body = codes "pong"; location = none });
  };
  allow_list = codes "api.example.com" ∷ [];
  allow_private_hosts = false;
}

abbrev args : Value
args = object (field (codes "url") (string (codes "https://api.example.com/v1")) end)

abbrev other_args : Value
other_args = object (field (codes "url") (string (codes "http://[::1]/")) end)

-- The first URL is requested, the second is on no list.
invoke_requests_test : (invoke urls serde tool args []).1 ≡ codes "https://api.example.com/v1" ∷ []
unfolding invoke eq parse_ip any trim starts_with matches to_ascii_lowercase
invoke_requests_test = refl

invoke_silent_test : (invoke urls serde tool other_args []).1 ≡ []
unfolding invoke eq parse_ip any trim starts_with matches to_ascii_lowercase
invoke_silent_test = refl

invoke-Fetched_example : Fetched urls serde tool args [] (invoke urls serde tool args [])
invoke-Fetched_example = invoke-Fetched urls serde tool args []
