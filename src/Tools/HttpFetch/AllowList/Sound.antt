-- ===== src/Tools/HttpFetch/AllowList/Sound.antt =====
-- What `validate_url` of src/tools/http_fetch.rs lets through, for any parser of URLs.
use pg_ask.Prelude.{
  Bool, true, false, Option, none, some, List, [], ◌∷◌, ◌++◌, ◌≡◌, refl, arith, ◌⊎◌, inl, inr, ◌↔◌,
  Option-cases, Bool-cases, Any, any_iff, here, there, Text, codes, eq, eq_iff,
  eq_ignore_ascii_case, to_ascii_lowercase, starts_with_iff,
}
use pg_ask.Checked.{Checked, pass, fail, >>-eq-pass, >>=-eq-pass, Checked-cases}
use pg_ask.Tools.HttpFetch.Ip.{IpAddr, is_disallowed_ip}
use pg_ask.Tools.HttpFetch.IpParser.{parse_ip, parse_ip_bracket}
use pg_ask.Tools.HttpFetch.AllowList.{
  Url, UrlParser, EntryMatcher, scheme_matches, host_matches, path_matches, matches, require_scheme,
  require_host, guard_ip, guard_host, parse_entry, entry_allows, require_match, parsed_or_fail,
  validate_url,
}

-- The request is for the entry's host as a whole, under its scheme and its path prefix if it has
-- them.
pub record Admits (m : EntryMatcher) (u : Url) : Type 0 where
  pub host : Text
  pub has_host : u.host_str ≡ some host
  pub same_host : to_ascii_lowercase host ≡ m.host
  pub scheme : (s : Text) → m.scheme ≡ some s → eq_ignore_ascii_case s u.scheme ≡ true
  pub path : (p : Text) → m.path_prefix ≡ some p → (r : Text) × (u.path ≡ p ++ r)

scheme_reads :
    (o : Option Text) (u : Url)
    → scheme_matches o u ≡ true
    → (s : Text) → o ≡ some s
    → eq_ignore_ascii_case s u.scheme ≡ true
unfolding scheme_matches
scheme_reads o u h s e = rw e at h

path_reads :
    (o : Option Text) (u : Url)
    → path_matches o u ≡ true
    → (p : Text) → o ≡ some p
    → (r : Text) × (u.path ≡ p ++ r)
unfolding path_matches
path_reads o u h p e = (starts_with_iff u.path p).0 (rw e at h)

host_reads :
    (m : Text) (o : Option Text)
    → host_matches m o ≡ true
    → (h : Text) × (o ≡ some h) × (to_ascii_lowercase h ≡ m)
unfolding host_matches
host_reads m none e = cc
host_reads m (some h) e = (h, refl, (eq_iff (to_ascii_lowercase h) m).0 e)

scheme_writes :
    (o : Option Text) (u : Url)
    → ((s : Text) → o ≡ some s → eq_ignore_ascii_case s u.scheme ≡ true)
    → scheme_matches o u ≡ true
unfolding scheme_matches
scheme_writes none u h = refl
scheme_writes (some s) u h = h s refl

path_writes :
    (o : Option Text) (u : Url)
    → ((p : Text) → o ≡ some p → (r : Text) × (u.path ≡ p ++ r))
    → path_matches o u ≡ true
unfolding path_matches
path_writes none u h = refl
path_writes (some p) u h = (starts_with_iff u.path p).1 (h p refl)

host_writes :
    (m h : Text) (o : Option Text) → o ≡ some h → to_ascii_lowercase h ≡ m → host_matches m o ≡ true
unfolding host_matches
host_writes m h o e f = rw e ((eq_iff (to_ascii_lowercase h) m).1 f)

matches_parts :
    (m : EntryMatcher) (u : Url)
    → matches m u ≡ true
    → (scheme_matches m.scheme u ≡ true)
      × (host_matches m.host u.host_str ≡ true)
      × (path_matches m.path_prefix u ≡ true)
unfolding matches
matches_parts m u h = ground arith

-- `EntryMatcher::matches` accepts a request exactly when its host is the entry's host, compared
-- whole and without case, the entry's scheme, if it has one, is the request's, and the entry's
-- path, if it has one, is a prefix of the request's.
pub matches_iff : (m : EntryMatcher) (u : Url) → (matches m u ≡ true) ↔ Admits m u
unfolding matches
matches_iff m u = (
  λ h.
      let (s, k, p) = matches_parts m u h in
      let (host, e, f) = host_reads m.host u.host_str k in
      record {
        host = host;
        has_host = e;
        same_host = f;
        scheme = scheme_reads m.scheme u s;
        path = path_reads m.path_prefix u p;
      },
  λ a. rw (
    scheme_writes m.scheme u a.scheme,
    host_writes m.host a.host u.host_str a.has_host a.same_host,
    path_writes m.path_prefix u a.path,
  ),
)

abbrev IsHttp : Text → Type 0
IsHttp s = (s ≡ codes "http") ⊎ (s ≡ codes "https")

scheme-IsHttp : (u : Url) → require_scheme u ≡ pass tt → IsHttp u.scheme
unfolding require_scheme
scheme-IsHttp u h = elim (Bool-cases (eq u.scheme (codes "http"))) [
  | inl e ↦ inl ((eq_iff _ _).0 e)
  | inr e ↦ inr ((eq_iff _ _).0 (ground arith))
]

http_scheme : (u : Url) → IsHttp u.scheme → require_scheme u ≡ pass tt
unfolding require_scheme
http_scheme u (inl e) = rw ((eq_iff _ _).1 e)
http_scheme u (inr e) = rw ((eq_iff u.scheme (codes "https")).1 e) (ground arith)

host_found : (u : Url) (h : Text) → require_host u ≡ pass h → u.host_str ≡ some h
unfolding require_host
host_found u h e = ground arith

host_give : (u : Url) (h : Text) → u.host_str ≡ some h → require_host u ≡ pass h
unfolding require_host
host_give u h e = ground arith

-- A literal address is outside the refused ranges, unless the operator allows private hosts.
abbrev pub IsReachable : Bool → Text → Type 0
IsReachable allow_private_hosts host =
    allow_private_hosts ≡ false
    → (ip : IpAddr) → parse_ip host ≡ some ip
    → is_disallowed_ip ip ≡ false

guard_reads :
    (allow : Bool) (host : Text) → guard_host allow host ≡ pass tt → IsReachable allow host
unfolding guard_host guard_ip
guard_reads true host h e ip p = cc
guard_reads false host h e ip p = ground (arith, rw p at h)

guard_writes :
    (allow : Bool) (host : Text) → IsReachable allow host → guard_host allow host ≡ pass tt
unfolding guard_host guard_ip
guard_writes true host r = refl
guard_writes false host r = elim (Option-cases (parse_ip host)) [
  | inl (ip, e) ↦ rw (e, r refl ip e)
  | inr e ↦ rw e
]

module _ (urls : UrlParser) where
  -- The entry can be read, and admits the request.
  abbrev pub Allows : Url → Text → Type 0
  Allows u entry = (m : EntryMatcher) × (parse_entry urls entry ≡ pass m) × Admits m u

  entry_reads : (u : Url) (entry : Text) → entry_allows urls u entry ≡ true → Allows u entry
  unfolding entry_allows
  entry_reads u entry h = elim (Checked-cases (parse_entry urls entry)) [
    | inl (m, e) ↦ (m, e, (matches_iff m u).0 (rw (e, entry_allows) at h))
    | inr (f, e) ↦ absurd (let k = rw (e, entry_allows) at h in cc)
  ]

  entry_writes : (u : Url) (entry : Text) → Allows u entry → entry_allows urls u entry ≡ true
  unfolding entry_allows
  entry_writes u entry (m, e, a) = rw (e, entry_allows) ((matches_iff m u).1 a)

  some_reads :
      (u : Url) {l : List Text} → Any (λ e. entry_allows urls u e ≡ true) l → Any (Allows u) l
  some_reads u (here h) = here (entry_reads u _ h)
  some_reads u (there h) = there (some_reads u h)

  some_writes :
      (u : Url) {l : List Text} → Any (Allows u) l → Any (λ e. entry_allows urls u e ≡ true) l
  some_writes u (here h) = here (entry_writes u _ h)
  some_writes u (there h) = there (some_writes u h)

  list_reads :
      (l : List Text) (raw : Text) (u : Url)
      → require_match urls l raw u ≡ pass tt
      → Any (Allows u) l
  unfolding require_match
  list_reads l raw u h = some_reads u ((any_iff (entry_allows urls u) l).0 (ground arith))

  list_writes :
      (l : List Text) (raw : Text) (u : Url)
      → Any (Allows u) l
      → require_match urls l raw u ≡ pass tt
  unfolding require_match
  list_writes [] raw u a = elim a [ ]
  list_writes (e ∷ l) raw u a = rw ((any_iff (entry_allows urls u) (e ∷ l)).1 (some_writes u a))

  -- An http or https URL with a host that is no refused literal address, allowed by an entry.
  pub record IsFetchable (raw : Text) (allow_list : List Text) (allow_private_hosts : Bool)
      : Type 0 where
    pub url : Url
    pub parsed : urls.parse raw ≡ pass url
    pub http : IsHttp url.scheme
    pub host : Text
    pub has_host : url.host_str ≡ some host
    pub reachable : IsReachable allow_private_hosts host
    pub allowed : Any (Allows url) allow_list

  parse_reads : (c : Checked Url) (u : Url) → parsed_or_fail urls c ≡ pass u → c ≡ pass u
  unfolding parsed_or_fail
  parse_reads (pass u') u h = h
  parse_reads (fail e) u h = cc

  module _ (raw : Text) (allow_list : List Text) (allow_private_hosts : Bool) where
    validated :
        validate_url urls raw allow_list allow_private_hosts ≡ pass tt
        → IsFetchable raw allow_list allow_private_hosts
    unfolding validate_url
    validated h =
        let (u, p, h1) = >>=-eq-pass (parsed_or_fail urls (urls.parse raw)) _ h in
        let (s, h2) = >>-eq-pass (require_scheme u) _ h1 in
        let (host, k, h3) = >>=-eq-pass (require_host u) _ h2 in
        let (g, m) = >>-eq-pass (guard_host allow_private_hosts host) _ h3 in
        record {
          url = u;
          parsed = parse_reads _ u p;
          http = scheme-IsHttp u s;
          host = host;
          has_host = host_found u host k;
          reachable = guard_reads allow_private_hosts host g;
          allowed = list_reads allow_list raw u m;
        }

    fetchable :
        IsFetchable raw allow_list allow_private_hosts
        → validate_url urls raw allow_list allow_private_hosts ≡ pass tt
    unfolding validate_url parsed_or_fail
    fetchable f =
        rw
          (
            f.parsed,
            http_scheme f.url f.http,
            host_give f.url f.host f.has_host,
            guard_writes allow_private_hosts f.host f.reachable,
          )
          (list_writes allow_list raw f.url f.allowed)

    -- `validate_url` passes exactly the URLs that parse, have scheme http or https and a host, whose
    -- host is not a literal address in a refused range (unless private hosts are allowed), and that
    -- some entry of the allow-list admits.
    pub validate_url_iff :
        (validate_url urls raw allow_list allow_private_hosts ≡ pass tt)
        ↔ IsFetchable raw allow_list allow_private_hosts
    validate_url_iff = (validated, fetchable)

  -- Where the parser of URLs writes the host in brackets, as it does with every IPv6 address, the
  -- private-network guard never refuses: the answer is the same with the guard on and off.
  pub bracket_host_unguarded :
      (raw : Text) (allow_list : List Text) (u : Url) (h : Text)
      → urls.parse raw ≡ pass u
      → u.host_str ≡ some (b'[' ∷ h)
      → validate_url urls raw allow_list false ≡ validate_url urls raw allow_list true
  unfolding validate_url parsed_or_fail require_host guard_host guard_ip
  bracket_host_unguarded raw allow_list u h e f = rw (e, f, parse_ip_bracket h)
