-- ===== src/Oauth/Grant.antt =====
-- From an authorization code to a bearer token that is accepted.
use mathlib.Core.Path.{subst}
use mcp_hugo_server_go.Base.{
  ℕ, ◌+◌, ◌≤◌, ◌<◌, ◌≡◌, ◌≢◌, refl, sym, ◌⊎◌, [], Option, none, some, arith, lt→ltb,
}
use mcp_hugo_server_go.Base.Keys.{text_eq}
use mcp_hugo_server_go.Base.Map.{lookup, lookup-insert_self}
use mcp_hugo_server_go.Base.Result.{Result, ok, err}
use mcp_hugo_server_go.Base.Text.{Text, trim_space, text_beq_iff, text_beq_ne}
use mcp_hugo_server_go.Scope.{canonical_scope}
use mcp_hugo_server_go.Scope.Alias.{canonical-canonical}
use mcp_hugo_server_go.Tokens.{add_access_token, add_refresh_token, validate_access_token_details}
use mcp_hugo_server_go.Oauth.Redirects.{Network}
use mcp_hugo_server_go.Oauth.Types.{
  Service, TokenResponse, Crypto, OauthError, lookup_client, code_challenge_s256, validate_pkce,
}
use mcp_hugo_server_go.Oauth.Codes.{
  AuthorizeRequest, CodeRequest, check_code, new_code, store_code, issue_scoped, issue_checked,
  issue_auth_code, issue_bearer_pair, resolve_client_scope, pair_response,
}
use mcp_hugo_server_go.Oauth.Exchange.{
  redeem_checked, redeem, take_code, exchange_authorization_code, validate_bearer,
  validate_bearer_details,
}
use mcp_hugo_server_go.Oauth.Redeem.{IsAuthenticated, exchange_known}

issue_scoped_ok :
    (s : Service) (r : AuthorizeRequest) (q : Result OauthError Text) (now : ℕ) (code : Text)
    {out : Text}
    → (issue_scoped s r q now (some code)).1 ≡ ok out
    → (scope : Text) × (q ≡ ok scope)
      × (issue_scoped s r q now (some code) ≡ store_code s r scope now (some code))
issue_scoped_ok s r (err e) now code h = cc
issue_scoped_ok s r (ok scope) now code h = (scope, refl, refl)

issue_checked_ok :
    (s : Service) (r : AuthorizeRequest) (m : Option OauthError) (now : ℕ) (code : Text)
    {out : Text}
    → (issue_checked s r m now (some code)).1 ≡ ok out
    → (scope : Text) × (resolve_client_scope s r.request_client r.request_scope ≡ ok scope)
      × (issue_checked s r m now (some code) ≡ store_code s r scope now (some code))
issue_checked_ok s r (some e) now code h = cc
issue_checked_ok s r none now code h = issue_scoped_ok s r _ now code h

module _ (crypto : Crypto) where
  -- The request sends what the code was issued for.
  abbrev pub Matches : AuthorizeRequest → CodeRequest → Type 0
  Matches r q =
      (q.client_id ≡ r.request_client)
      × (q.sent_redirect ≡ r.redirect_uri)
      × (r.redirect_uri ≢ [])
      × ((r.challenge ≡ [])
          ⊎ ((q.code_verifier ≢ []) × (code_challenge_s256 crypto q.code_verifier ≡ r.challenge)))

  check_code_passes :
      (s : Service) (r : AuthorizeRequest) (q : CodeRequest) (scope : Text) (now now' : ℕ)
      → Matches r q
      → now' ≤ now + s.cfg.auth_code_ttl
      → check_code crypto (new_code s r scope now) q now' ≡ none
  unfolding check_code validate_pkce
  check_code_passes s r q scope now now' (a, b, c, d) le = ground (
    arith,
    text_beq_iff q.client_id r.request_client,
    text_beq_iff q.sent_redirect r.redirect_uri,
    text_beq_iff q.sent_redirect [],
    text_beq_iff r.challenge [],
    text_beq_iff q.code_verifier [],
    text_beq_iff (code_challenge_s256 crypto q.code_verifier) r.challenge,
  )

  -- The token of the response is accepted with the scope of the response.
  abbrev pub IsAccepted : ℕ → Text → Service × Result OauthError TokenResponse → Type 0
  IsAccepted now scope (s, out) =
      (y : TokenResponse) × (out ≡ ok y)
      × (y.granted_scope ≡ scope)
      × (validate_bearer crypto s y.access_token now ≡ some scope)

  pair-IsAccepted :
      (s : Service) (client scope : Text) (now later : ℕ) (access refresh : Text)
      → canonical_scope scope ≡ scope
      → trim_space client ≢ []
      → later < now + s.cfg.access_token_ttl
      → IsAccepted later scope
          (issue_bearer_pair crypto s client scope now (some access) (some refresh))
  unfolding issue_bearer_pair validate_bearer validate_bearer_details validate_access_token_details
      add_access_token add_refresh_token
  pair-IsAccepted s client scope now later access refresh canonical named soon = (
    pair_response crypto s access refresh scope,
    refl,
    refl,
    rw (lookup-insert_self, lt→ltb _ _ soon, text_beq_ne _ _ named, canonical),
  )

  redeem_fresh :
      (s t : Service) (r : AuthorizeRequest) (q : CodeRequest) (scope : Text) (now now' later : ℕ)
      (access refresh : Text)
      → Matches r q
      → now' ≤ now + s.cfg.auth_code_ttl
      → trim_space q.client_id ≢ []
      → later < now' + t.cfg.access_token_ttl
      → IsAccepted later
          (canonical_scope scope)
          (redeem crypto t (some (new_code s r scope now)) q now' (some access) (some refresh))
  unfolding redeem
  redeem_fresh s t r q scope now now' later access refresh m le named soon =
      subst
        (λ c.
          IsAccepted later (canonical_scope scope) (
            redeem_checked crypto t (new_code s r scope now) q c now' (some access) (some refresh)))
        (sym (check_code_passes s r q scope now now' m le))
        (pair-IsAccepted t q.client_id (canonical_scope scope) now' later access refresh
          (canonical-canonical scope) named soon)

  exchange_stored :
      (s : Service) (r : AuthorizeRequest) (q : CodeRequest) (scope : Text) (now now' later : ℕ)
      (access refresh : Text)
      → IsAuthenticated crypto s q
      → Matches r q
      → now' ≤ now + s.cfg.auth_code_ttl
      → trim_space q.client_id ≢ []
      → later < now' + s.cfg.access_token_ttl
      → IsAccepted later (canonical_scope scope) (
          exchange_authorization_code crypto
            (store_code s r scope now (some q.code)).0
            q
            now'
            (some access)
            (some refresh))
  exchange_stored s r q scope now now' later access refresh (c, l, k) m le named soon =
      let s' = (store_code s r scope now (some q.code)).0 in
      let known : lookup_client s' q.client_id ≡ some c = unfold lookup_client in l in
      let t = take_code crypto s' q.code in
      let found : lookup q.code s'.auth_codes ≡ some (new_code s r scope now) =
        lookup-insert_self _ _ _ in
      subst (IsAccepted later (canonical_scope scope))
        (sym (exchange_known crypto s' q now' (some access) (some refresh) c known k))
        (subst
          (λ f.
            IsAccepted later (canonical_scope scope)
              (redeem crypto t f q now' (some access) (some refresh)))
          (sym found) (redeem_fresh s t r q scope now now' later access refresh m le named soon))

  -- A code that was issued is exchanged in time by an authenticated client, whose identifier is not
  -- blank and which sends the same address and, where there is a challenge, its verifier, when
  -- random tokens are available: the client gets the canonical form of the scope the code was issued
  -- for, and until it expires the access token is accepted with that scope.
  pub exchange-issue :
      (net : Network) (s : Service) (r : AuthorizeRequest) (q : CodeRequest) (now now' later : ℕ)
      (access refresh : Text) {out : Text}
      → (issue_auth_code net s r now (some q.code)).1 ≡ ok out
      → IsAuthenticated crypto s q
      → Matches r q
      → trim_space q.client_id ≢ []
      → now' ≤ now + s.cfg.auth_code_ttl
      → later < now' + s.cfg.access_token_ttl
      → (scope : Text) × (resolve_client_scope s r.request_client r.request_scope ≡ ok scope)
        × IsAccepted later (canonical_scope scope) (
            exchange_authorization_code crypto
              (issue_auth_code net s r now (some q.code)).0
              q
              now'
              (some access)
              (some refresh))
  unfolding issue_auth_code
  exchange-issue net s r q now now' later access refresh h (c, l, k) m named le soon =
      let (scope, e, made) = issue_checked_ok s r _ now q.code h in
      (
        scope,
        e,
        subst
            (λ (p : Service × Result OauthError Text).
              IsAccepted later (canonical_scope scope)
                (exchange_authorization_code crypto p.0 q now' (some access) (some refresh)))
            (sym made)
            (exchange_stored s r q scope now now' later access refresh (c, l, k) m le named soon),
      )
