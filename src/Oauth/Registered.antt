-- ===== src/Oauth/Registered.antt =====
-- What a client that registered itself can get, and where its codes are sent.
use mathlib.Core.Path.{subst}
use mcp_hugo_server_go.Base.{
  ◌≤◌, ◌≡◌, refl, sym, ◌⊎◌, Bool, true, false, not, List, Option, none, some, arith, or_map,
  nat_beq, length, if◌then◌else◌,
}
use mcp_hugo_server_go.Base.Keys.{text_eq}
use mcp_hugo_server_go.Base.Map.{lookup, insert, lookup-insert_self}
use mcp_hugo_server_go.Base.Result.{Result, ok, err}
use mcp_hugo_server_go.Base.Text.{Text, codes, trim_space, text_beq_iff}
use mcp_hugo_server_go.Scope.{read, rank}
use mcp_hugo_server_go.Oauth.Redirects.{
  Url, Network, ends_in_star, trim_star, registered_url, validate_registered_redirect, match_urls,
  match_redirect, is_loopback_host,
}
use mcp_hugo_server_go.Oauth.Types.{Client, Service, OauthError, lookup_client}
use mcp_hugo_server_go.Oauth.Codes.{resolve_client_scope}
use mcp_hugo_server_go.Oauth.Clients.{public_client, store_client, register_client, all_valid}
use mcp_hugo_server_go.Oauth.Redeem.{resolve_client_scope-le}

-- The address is `https`, or `http` on the host of a registered address on the machine itself.
abbrev pub IsSafe : Network → Text → Url → Type 0
IsSafe net registered v =
    (v.scheme ≡ codes "https")
    ⊎ ((v.scheme ≡ codes "http")
        × ((u : Url) × (net.parse_url (trim_star (trim_space registered)) ≡ some u)
            × (is_loopback_host net u.hostname ≡ true)
            × (net.equal_fold u.host v.host ≡ true)))

urls_safe :
    (net : Network) (wildcard : Bool) (u v : Url)
    → registered_url net (some u) ≡ true
    → match_urls net wildcard (some u) (some v) ≡ true
    → (v.scheme ≡ codes "https")
      ⊎ ((v.scheme ≡ codes "http")
          × (is_loopback_host net u.hostname ≡ true)
          × (net.equal_fold u.host v.host ≡ true))
unfolding match_urls
urls_safe net wildcard u v h k = ground (
  arith,
  text_beq_iff u.scheme v.scheme,
  text_beq_iff u.scheme (codes "https"),
  text_beq_iff u.scheme (codes "http"),
)

module _ (net : Network) (registered actual : Text) where
  registered_known :
      validate_registered_redirect net registered ≡ true
      → registered_url net (net.parse_url (trim_star (trim_space registered))) ≡ true
  unfolding validate_registered_redirect
  registered_known h = ground arith

  matched_urls :
      match_redirect net registered actual ≡ true
      → match_urls net
          (ends_in_star (trim_space registered))
          (net.parse_url (trim_star (trim_space registered)))
          (net.parse_url (trim_space actual))
        ≡ true
  unfolding match_redirect
  matched_urls h = ground arith

  urls_parsed :
      (wildcard : Bool) (m n : Option Url)
      → registered_url net m ≡ true
      → match_urls net wildcard m n ≡ true
      → (u : Url) × (m ≡ some u)
        × ((v : Url) × (n ≡ some v)
            × ((v.scheme ≡ codes "https")
                ⊎ ((v.scheme ≡ codes "http")
                    × (is_loopback_host net u.hostname ≡ true)
                    × (net.equal_fold u.host v.host ≡ true))))
  urls_parsed wildcard none n h k = cc
  urls_parsed wildcard (some u) none h k = unfold match_urls in cc
  urls_parsed wildcard (some u) (some v) h k = (u, refl, (v, refl, urls_safe net wildcard u v h k))

  -- An address that matches a registered one that was accepted is `https`, or it is `http` and its
  -- host equals, but for case, the host of the registered address, which passes the test for a
  -- loopback host.
  pub match_redirect-IsSafe :
      validate_registered_redirect net registered ≡ true
      → match_redirect net registered actual ≡ true
      → (v : Url) × (net.parse_url (trim_space actual) ≡ some v) × IsSafe net registered v
  match_redirect-IsSafe h k =
      let (u, e, (v, f, safe)) = urls_parsed _ _ _ (registered_known h) (matched_urls k) in
      (
        v,
        f,
        or_map
            (λ (p : (v.scheme ≡ codes "http")
                × (is_loopback_host net u.hostname ≡ true)
                × (net.equal_fold u.host v.host ≡ true)).
              (p.0, (u, e, p.1, p.2)))
            safe,
      )

-- The guards of a registration, where it is not refused.
guards_passed :
    (s : Service) (a b c : Bool) (x y z : OauthError) (q : Service × Result OauthError Text)
    {out : Text}
    → (if not a then (s, err x) else if b then (s, err y) else if not c then (s, err z) else q).1
      ≡ ok out
    → (if not a then (s, err x) else if b then (s, err y) else if not c then (s, err z) else q) ≡ q
guards_passed s false b c x y z q h = cc
guards_passed s true true c x y z q h = cc
guards_passed s true false false x y z q h = cc
guards_passed s true false true x y z q h = refl

module _ (net : Network) (s : Service) (uris : List Text) (id : Text) where
  stored_client : lookup_client (store_client s uris (some id)).0 id ≡ some (public_client uris)
  unfolding lookup_client
  stored_client =
      let e : lookup id (insert id (public_client uris) s.clients) ≡ some (public_client uris) =
        lookup-insert_self _ _ _ in
      rw (e, lookup_client)

  registered_client :
      {out : Text}
      → (register_client net s uris (some id)).1 ≡ ok out
      → lookup_client (register_client net s uris (some id)).0 id ≡ some (public_client uris)
  unfolding register_client
  registered_client h =
      subst
        (λ (q : Service × Result OauthError Text). lookup_client q.0 id ≡ some (public_client uris))
        (sym (
          guards_passed s s.cfg.dynamic_client_enabled (nat_beq (length uris) 0)
            (all_valid net uris) _ _ _ (store_client s uris (some id)) h))
        stored_client

  -- Right after its registration, a client that registered itself gets no scope that ranks above
  -- "read", whatever it requests.
  pub register_client_reads :
      (requested scope : Text) {out : Text}
      → (register_client net s uris (some id)).1 ≡ ok out
      → resolve_client_scope (register_client net s uris (some id)).0 id requested ≡ ok scope
      → rank scope ≤ rank read
  register_client_reads requested scope h k =
      let (c, l, on_record, on, le) =
        resolve_client_scope-le (register_client net s uris (some id)).0 id requested scope k in
      let same : c ≡ public_client uris = cc (l, registered_client h) in
      subst (λ (x : Client). rank scope ≤ rank x.max_scope) same le
