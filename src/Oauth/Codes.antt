-- ===== src/Oauth/Codes.antt =====
-- internal/oauth/oauth.go: scopes of clients, authorization codes and their exchange for tokens,
-- refresh tokens and bearer tokens, on the store in memory. Go's net
-- packages are an interface.
use mcp_hugo_server_go.Base.{ℕ, ◌+◌, not, ◌&&◌, ◌||◌, [], Option, none, some, ltb, if◌then◌else◌}
use mcp_hugo_server_go.Base.Keys.{text_eq, ◌==◌}
use mcp_hugo_server_go.Base.Map.{insert}
use mcp_hugo_server_go.Base.Result.{Result, ok, err}
use mcp_hugo_server_go.Base.Text.{Text, codes, byte_length}
use mcp_hugo_server_go.Scope.{requested_scope, allowed_scope, ScopeError}
use mcp_hugo_server_go.Tokens.{add_access_token, add_refresh_token}
use mcp_hugo_server_go.Oauth.Redirects.{Network, source_allowed, redirect_registered}
use mcp_hugo_server_go.Oauth.Types.{
  OauthConfig, Client, AuthCode, Service, TokenResponse, Crypto, OauthError, access_denied,
  unsupported_response_type, missing_state, pkce_mandatory, unsupported_challenge, challenge_length,
  invalid_redirect_uri, unauthorized_client, invalid_scope, invalid_client, invalid_code,
  redirect_mismatch, pkce_failed, server_error, lookup_client, hash_token, validate_pkce,
}

-- The scope a client gets: the requested one, or its maximum for none or more
abbrev pub clamped : Client → Result ScopeError Text → Result OauthError Text
clamped c (err e) = err invalid_scope
clamped c (ok requested) =
    let scope = if requested == [] then c.max_scope else requested in
    ok (if allowed_scope scope c.max_scope then scope else c.max_scope)

-- `resolveClientScope`
unfoldable pub resolve_client_scope : Service → Text → Text → Result OauthError Text
resolve_client_scope s id requested = elim (lookup_client s id) [
  | none ↦ err unauthorized_client
  | some c ↦ clamped c (requested_scope requested)
]

-- The parameters of a request to authorize
pub record AuthorizeRequest : Type 0 where
  pub source_ip : Text
  pub response_type : Text
  pub request_client : Text
  pub redirect_uri : Text
  pub state : Text
  pub request_scope : Text
  pub challenge : Text
  pub challenge_method : Text

-- The tests on the challenge; `none` where they pass
unfoldable pub check_challenge : OauthConfig → AuthorizeRequest → Option OauthError
check_challenge cfg r =
    if r.challenge == []
    then if cfg.require_pkce then some pkce_mandatory else none
    else if not (r.challenge_method == codes "S256")
    then some unsupported_challenge
    else if ltb (byte_length r.challenge) 43 || ltb 128 (byte_length r.challenge)
    then some challenge_length
    else none

unfoldable pub check_request : Network → Service → AuthorizeRequest → Option OauthError
check_request net s r =
    if not (source_allowed net s.cfg.trusted_cidrs r.source_ip)
    then some access_denied
    else if not (r.response_type == codes "code")
    then some unsupported_response_type
    else if r.state == []
    then some missing_state
    else check_challenge s.cfg r

-- `validateClientRedirect`
unfoldable pub check_redirect : Network → Service → AuthorizeRequest → Option OauthError
check_redirect net s r = elim (lookup_client s r.request_client) [
  | none ↦ some unauthorized_client
  | some c ↦
      if redirect_registered net c.redirect_uris r.redirect_uri
      then none
      else some invalid_redirect_uri
]

-- The code that is put on record
abbrev pub new_code : Service → AuthorizeRequest → Text → ℕ → AuthCode
new_code s r scope now = record {
  code_client = r.request_client;
  code_redirect = r.redirect_uri;
  code_scope = scope;
  code_expires = now + s.cfg.auth_code_ttl;
  code_challenge = r.challenge;
  code_challenge_method = r.challenge_method;
}

abbrev pub store_code :
    Service → AuthorizeRequest → Text → ℕ → Option Text → Service × Result OauthError Text
store_code s r scope now none = (s, err (server_error (codes "generate authorization code")))
store_code s r scope now (some code) =
    (record s { auth_codes = insert code (new_code s r scope now) s.auth_codes }, ok code)

abbrev pub issue_scoped :
    Service
    → AuthorizeRequest
    → Result OauthError Text
    → ℕ
    → Option Text
    → Service × Result OauthError Text
issue_scoped s r (err e) now random = (s, err e)
issue_scoped s r (ok scope) now random = store_code s r scope now random

abbrev pub issue_checked :
    Service
    → AuthorizeRequest
    → Option OauthError
    → ℕ
    → Option Text
    → Service × Result OauthError Text
issue_checked s r (some e) now random = (s, err e)
issue_checked s r none now random =
    issue_scoped s r (resolve_client_scope s r.request_client r.request_scope) now random

abbrev pub first_error : Option OauthError → Option OauthError → Option OauthError
first_error none b = b
first_error (some e) b = some e

-- `issueAuthCode`
unfoldable pub issue_auth_code :
    Network → Service → AuthorizeRequest → ℕ → Option Text → Service × Result OauthError Text
issue_auth_code net s r now random =
    issue_checked s r (first_error (check_request net s r) (check_redirect net s r)) now random

-- A request to exchange a code
pub record CodeRequest : Type 0 where
  pub client_id : Text
  pub client_secret : Text
  pub sent_redirect : Text
  pub code : Text
  pub code_verifier : Text

module _ (crypto : Crypto) where
  abbrev pub pair_response : Service → Text → Text → Text → TokenResponse
  pair_response s access refresh scope = record {
    access_token = access;
    expires_in = s.cfg.access_token_ttl;
    refresh_token = refresh;
    refresh_expires_in = s.cfg.refresh_token_ttl;
    granted_scope = scope;
  }

  abbrev pub with_refresh :
      Service → Text → Text → ℕ → Text → Option Text → Service × Result OauthError TokenResponse
  with_refresh s client scope now access none =
      (s, err (server_error (codes "generate refresh token")))
  with_refresh s client scope now access (some refresh) = (
    record s {
      store =
          add_refresh_token s.store (hash_token crypto refresh) client scope
            (now + s.cfg.refresh_token_ttl);
    },
    ok (pair_response s access refresh scope),
  )

  -- `issueBearerPair`
  unfoldable pub issue_bearer_pair :
      Service
      → Text
      → Text
      → ℕ
      → Option Text
      → Option Text
      → Service × Result OauthError TokenResponse
  issue_bearer_pair s client scope now random_access random_refresh = elim random_access [
    | none ↦ (s, err (server_error (codes "generate access token")))
    | some access ↦
        with_refresh
          (record s {
            store =
                add_access_token s.store (hash_token crypto access) scope client
                  (now + s.cfg.access_token_ttl);
          })
          client scope now access random_refresh
  ]

  -- The tests on a code that was found; `none` where they pass
  unfoldable pub check_code : AuthCode → CodeRequest → ℕ → Option OauthError
  check_code data_ r now =
      if ltb data_.code_expires now
      then some invalid_code
      else if not (r.client_id == data_.code_client)
      then some invalid_client
      else if r.sent_redirect == [] || not (r.sent_redirect == data_.code_redirect)
      then some redirect_mismatch
      else if not (data_.code_challenge == [])
          && not (validate_pkce crypto data_.code_challenge r.code_verifier)
      then some pkce_failed
      else none
