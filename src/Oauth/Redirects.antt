-- ===== src/Oauth/Redirects.antt =====
-- internal/oauth/redirects.go, with sourceAllowed and validateClientRedirectURL of
-- internal/oauth/oauth.go: which redirect addresses and which sources are accepted. Go's net
-- packages
-- are an interface.
use mcp_hugo_server_go.Base.{
  ℕ, ◌+◌, Bool, true, false, not, ◌&&◌, ◌||◌, List, [], ◌∷◌, ◌++◌, any, Option, none, some, ltb,
  nat_beq, if◌then◌else◌,
}
use mcp_hugo_server_go.Base.Keys.{text_eq, ◌==◌}
use mcp_hugo_server_go.Base.Text.{Text, codes, trim_space, has_prefix}

-- `url.URL`, with what `Hostname` and `String` return of it
pub record Url : Type 0 where
  pub scheme : Text
  pub host : Text
  pub hostname : Text
  pub path : Text
  pub raw_query : Text
  pub fragment : Text
  pub has_user : Bool
  pub url_text : Text

-- `url.Parse`, `strings.ToLower`, `strings.EqualFold`, and `net.ParseIP`, `net.ParseCIDR`,
-- `Contains`
-- and `IsLoopback`, where an address stands as a text
pub record Network : Type 0 where
  pub parse_url : Text → Option Url
  pub to_lower : Text → Text
  pub equal_fold : Text → Text → Bool
  pub parse_ip : Text → Option Text
  pub parse_cidr : Text → Option Text
  pub cidr_contains : Text → Text → Bool
  pub is_loopback : Text → Bool

abbrev pub star : ℕ
star = b'*'

-- `strings.Count(s, "*")`
unfoldable pub count_stars : Text → ℕ
count_stars [] = 0
count_stars (c ∷ s) = (if nat_beq c star then 1 else 0) + count_stars s

-- `strings.HasSuffix(s, "*")`
unfoldable pub ends_in_star : Text → Bool
ends_in_star [] = false
ends_in_star (c ∷ []) = nat_beq c star
ends_in_star (c ∷ d ∷ s) = ends_in_star (d ∷ s)

unfoldable pub drop_last : Text → Text
drop_last [] = []
drop_last (c ∷ []) = []
drop_last (c ∷ d ∷ s) = c ∷ drop_last (d ∷ s)

-- `strings.TrimSuffix(s, "*")`
abbrev pub trim_star : Text → Text
trim_star s = if ends_in_star s then drop_last s else s

-- `querySuffix`
unfoldable pub query_suffix : Text → Text
query_suffix q = if q == [] then [] else codes "?" ++ q

-- `fragmentSuffix`
unfoldable pub fragment_suffix : Text → Text
fragment_suffix f = if f == [] then [] else codes "#" ++ f

-- `normalizeRedirectURL`
unfoldable pub normalize_redirect : Url → Text
normalize_redirect u =
    u.scheme
    ++ (codes "://"
        ++ (u.host ++ (u.path ++ (query_suffix u.raw_query ++ fragment_suffix u.fragment))))

-- `u.Scheme == "" || u.Host == ""`
abbrev pub is_relative : Url → Bool
is_relative u = u.scheme == [] || u.host == []

module _ (net : Network) where
  open net use {parse_url, to_lower, equal_fold, parse_ip, parse_cidr, cidr_contains, is_loopback}

  -- `isLoopbackHost`
  unfoldable pub is_loopback_host : Text → Bool
  is_loopback_host name =
      if to_lower (trim_space name) == codes "localhost"
      then true
      else elim (parse_ip (to_lower (trim_space name))) [ none ↦ false | some ip ↦ is_loopback ip ]

  -- The tests of `validateRegisteredRedirectURI` on the parsed address
  abbrev pub registered_url : Option Url → Bool
  registered_url none = false
  registered_url (some u) =
      if is_relative u
      then false
      else if u.has_user || not (u.fragment == [])
      then false
      else if u.scheme == codes "https"
      then not (ltb 0 (count_stars u.host))
      else if u.scheme == codes "http"
      then is_loopback_host u.hostname
      else false

  -- `validateRegisteredRedirectURI`; true is the nil error.
  unfoldable pub validate_registered_redirect : Text → Bool
  validate_registered_redirect uri =
      let raw = trim_space uri in
      if raw == []
      then false
      else if ltb 1 (count_stars raw)
      then false
      else if ltb 0 (count_stars raw) && not (ends_in_star raw)
      then false
      else registered_url (parse_url (trim_star raw))

  -- The tests for a registered address that ends in a star
  unfoldable pub match_wildcard : Url → Url → Bool
  match_wildcard registered actual =
      if not (registered.scheme == codes "https")
      then false
      else if not
          (has_prefix actual.path (if registered.path == [] then codes "/" else registered.path))
      then false
      else registered.raw_query == [] || registered.raw_query == actual.raw_query

  unfoldable pub match_urls : Bool → Option Url → Option Url → Bool
  match_urls wildcard none actual = false
  match_urls wildcard (some registered) none = false
  match_urls wildcard (some registered) (some actual) =
      if is_relative registered || is_relative actual
      then false
      else if not (registered.scheme == actual.scheme)
          || not (equal_fold registered.host actual.host)
      then false
      else if wildcard
      then match_wildcard registered actual
      else normalize_redirect registered == normalize_redirect actual

  -- `matchRedirectURI`
  unfoldable pub match_redirect : Text → Text → Bool
  match_redirect registered actual =
      if trim_space registered == [] || trim_space actual == []
      then false
      else match_urls (ends_in_star (trim_space registered))
          (parse_url (trim_star (trim_space registered))) (parse_url (trim_space actual))

  -- The part of `validateClientRedirectURL` for the registered addresses of a client
  abbrev pub redirect_registered_url : List Text → Option Url → Bool
  redirect_registered_url uris none = false
  redirect_registered_url uris (some u) =
      if is_relative u then false else any (λ r. match_redirect r u.url_text) uris

  unfoldable pub redirect_registered : List Text → Text → Bool
  redirect_registered uris uri = redirect_registered_url uris (parse_url (trim_space uri))

  -- `_, cidr, err := net.ParseCIDR(...)`, and `cidr.Contains(ip)` where there is no error
  abbrev pub cidr_accepts : Text → Option Text → Bool
  cidr_accepts ip none = false
  cidr_accepts ip (some cidr) = cidr_contains cidr ip

  -- `sourceAllowed`
  unfoldable pub source_allowed : List Text → Text → Bool
  source_allowed cidrs source = elim (parse_ip (trim_space source)) [
    | none ↦ false
    | some ip ↦ any (λ raw. cidr_accepts ip (parse_cidr (trim_space raw))) cidrs
  ]
