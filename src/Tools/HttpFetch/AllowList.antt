-- ===== src/Tools/HttpFetch/AllowList.antt =====
-- `EntryMatcher` and `validate_url` of src/tools/http_fetch.rs. The `url` crate's parser is not
-- code of the repository: it is the parameter `UrlParser`.
pub mod Sound
use pg_ask.Prelude.{
  is_empty, ℕ, zero, suc, Bool, true, false, not, ◌&&◌, ◌||◌, Option, none, some, List, [], ◌∷◌,
  ◌++◌, ◌==◌, if◌then◌else◌, any, Text, codes, eq, eq_ignore_ascii_case, to_ascii_lowercase,
  starts_with, trim,
}
use pg_ask.Checked.{Checked, pass, fail, ◌>>=◌, ◌>>◌}
use pg_ask.Tools.HttpFetch.Ip.{IpAddr, is_disallowed_ip, display_ip}
use pg_ask.Tools.HttpFetch.IpParser.{parse_ip}

-- What is read of a `url::Url`: `scheme()`, `host_str()` and `path()`.
pub record Url : Type 0 where
  pub scheme : Text
  pub host_str : Option Text
  pub path : Text

-- `Url::parse`, its error by its message
pub record UrlParser : Type 0 where
  pub parse : Text → Checked Url

pub record EntryMatcher : Type 0 where
  pub host : Text
  pub path_prefix : Option Text
  pub scheme : Option Text

-- `trimmed.contains("://")`
unfoldable pub has_scheme : Text → Bool
has_scheme [] = false
has_scheme (c ∷ s) = starts_with (c ∷ s) (codes "://") || has_scheme s

-- `trimmed.split(['/', '?', '#']).next()`
unfoldable pub host_only : Text → Text
host_only [] = []
host_only (c ∷ s) =
    let rest = host_only s in if c == b'/' || c == b'?' || c == b'#' then [] else c ∷ rest

entry_of_url : Url → Checked EntryMatcher
entry_of_url u = elim u.host_str [
  | none ↦ fail (codes "allow-list entry has no host")
  | some host ↦ pass (record {
    host = to_ascii_lowercase host;
    path_prefix = if is_empty u.path || eq u.path (codes "/") then none else some u.path;
    scheme = some u.scheme;
  })
]

bad_entry : Checked Url → Checked EntryMatcher
bad_entry (pass u) = entry_of_url u
bad_entry (fail e) = fail (codes "bad allow-list entry: " ++ e)

-- `EntryMatcher::matches`
scheme_matches : Option Text → Url → Bool
scheme_matches none request = true
scheme_matches (some scheme) request = eq_ignore_ascii_case scheme request.scheme

host_matches : Text → Option Text → Bool
host_matches host none = false
host_matches host (some h) = eq (to_ascii_lowercase h) host

path_matches : Option Text → Url → Bool
path_matches none request = true
path_matches (some prefix) request = starts_with request.path prefix

unfoldable pub matches : EntryMatcher → Url → Bool
unfolding scheme_matches host_matches path_matches
matches m request =
    if not (scheme_matches m.scheme request)
    then false
    else if not (host_matches m.host request.host_str)
    then false
    else if not (path_matches m.path_prefix request)
    then false
    else true

require_scheme : Url → Checked (Unit {0})
require_scheme u =
    if eq u.scheme (codes "http") || eq u.scheme (codes "https")
    then pass tt
    else fail (codes "scheme `" ++ (u.scheme ++ codes "` is not allowed (http/https only)"))

require_host : Url → Checked Text
require_host u = elim u.host_str [ none ↦ fail (codes "URL has no host") | some h ↦ pass h ]

-- The private-network guard, on a host that is a literal address.
guard_ip : Option IpAddr → Checked (Unit {0})
guard_ip none = pass tt
guard_ip (some ip) =
    if is_disallowed_ip ip
    then fail (
        codes "literal-IP host `"
        ++ (display_ip ip
            ++ codes
                "` is in a private / loopback / reserved range; set `pg_ask.allow_private_hosts = on` to permit"))
    else pass tt

guard_host : Bool → Text → Checked (Unit {0})
guard_host true host = pass tt
guard_host false host = guard_ip (parse_ip host)

module _ (urls : UrlParser) where
  -- `EntryMatcher::parse`
  unfoldable pub parse_entry : Text → Checked EntryMatcher
  unfolding has_scheme host_only entry_of_url bad_entry
  parse_entry entry =
      let trimmed = trim entry in
      if is_empty trimmed
      then fail (codes "empty allow-list entry")
      else if not (has_scheme trimmed)
      then pass (record {
        host = to_ascii_lowercase (host_only trimmed);
        path_prefix = none;
        scheme = none;
      })
      else bad_entry (urls.parse trimmed)

  -- The closure of `allow_list.iter().any(…)`
  pub entry_allows : Url → Text → Bool
  entry_allows request entry = elim (parse_entry entry) [
    | pass m ↦ matches m request
    | fail e ↦ false
  ]

  require_match : List Text → Text → Url → Checked (Unit {0})
  require_match allow_list raw u =
      if is_empty allow_list
      then fail (codes "allow-list is empty (set `pg_ask.http_allow_list`)")
      else if not (any (entry_allows u) allow_list)
      then fail (b'`' ∷ (raw ++ codes "` does not match any allow-list entry"))
      else pass tt

  parsed_or_fail : Checked Url → Checked Url
  parsed_or_fail (pass u) = pass u
  parsed_or_fail (fail e) = fail (codes "invalid URL: " ++ e)

  unfoldable pub validate_url : Text → List Text → Bool → Checked (Unit {0})
  unfolding parsed_or_fail require_scheme require_host guard_host guard_ip require_match
      entry_allows parse_entry
  validate_url raw allow_list allow_private_hosts = do
    parsed ← parsed_or_fail (urls.parse raw)
    require_scheme parsed
    host ← require_host parsed
    guard_host allow_private_hosts host
    require_match allow_list raw parsed
