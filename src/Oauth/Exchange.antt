-- ===== src/Oauth/Exchange.antt =====
-- internal/oauth/oauth.go: the exchange of codes and refresh tokens, bearer tokens, and the purge.
use mathlib.Core.Option
use mcp_hugo_server_go.Base.{
  ℕ, ◌+◌, Bool, not, ◌&&◌, [], ◌∷◌, any, Option, none, some, ltb, length, if◌then◌else◌,
}
use mcp_hugo_server_go.Base.Keys.{text_eq, ◌==◌}
use mcp_hugo_server_go.Base.Map.{Map, lookup, remove, keep}
use mcp_hugo_server_go.Base.Result.{Result, ok, err}
use mcp_hugo_server_go.Base.Text.{Text, codes, trim_space}
use mcp_hugo_server_go.Scope.{canonical_scope, is_legacy_scope}
use mcp_hugo_server_go.Tokens.{
  TokenStore, AccessEntry, validate_access_token_details, exchange_refresh_token,
}
use mcp_hugo_server_go.Oauth.Types.{
  Client, AuthCode, AgentRegistration, Service, TokenResponse, Crypto, OauthError,
  unauthorized_client, invalid_client, invalid_code, invalid_refresh, server_error, lookup_client,
  hash_token, secret_accepted,
}
use mcp_hugo_server_go.Oauth.Codes.{CodeRequest, check_code, issue_bearer_pair, pair_response}

-- The loop of `PurgeExpired` over the registrations; the state is the claim tokens.
unfoldable pub purge_claim_tokens : ℕ → Map Text AgentRegistration → Map Text Text → Map Text Text
purge_claim_tokens now [] tokens = tokens
purge_claim_tokens now ((assertion, reg) ∷ regs) tokens =
    purge_claim_tokens now regs
      (if ltb reg.assertion_expires now then remove reg.claim_token tokens else tokens)

-- `PurgeExpired`
unfoldable pub purge_expired : Service → ℕ → Service
purge_expired s now = record s {
  auth_codes = keep (λ _ c. not (ltb c.code_expires now)) s.auth_codes;
  agent_claim_tokens = purge_claim_tokens now s.agent_regs s.agent_claim_tokens;
  agent_regs = keep (λ _ r. not (ltb r.assertion_expires now)) s.agent_regs;
  agent_claims = keep (λ _ c. not (ltb c.attempt_expires now)) s.agent_claims;
}

module _ (crypto : Crypto) where
  abbrev pub redeem_checked :
      Service
      → AuthCode
      → CodeRequest
      → Option OauthError
      → ℕ
      → Option Text
      → Option Text
      → Service × Result OauthError TokenResponse
  redeem_checked s found r (some e) now access refresh = (s, err e)
  redeem_checked s found r none now access refresh =
      issue_bearer_pair crypto s r.client_id (canonical_scope found.code_scope) now access refresh

  -- The part of `exchangeAuthorizationCode` after the code was taken off the record
  unfoldable pub redeem :
      Service
      → Option AuthCode
      → CodeRequest
      → ℕ
      → Option Text
      → Option Text
      → Service × Result OauthError TokenResponse
  redeem s none r now access refresh = (s, err invalid_code)
  redeem s (some found) r now access refresh =
      redeem_checked s found r (check_code crypto found r now) now access refresh

  abbrev pub take_code : Service → Text → Service
  take_code s code = record s { auth_codes = remove code s.auth_codes }

  -- `exchangeAuthorizationCode`
  unfoldable pub exchange_authorization_code :
      Service
      → CodeRequest
      → ℕ
      → Option Text
      → Option Text
      → Service × Result OauthError TokenResponse
  exchange_authorization_code s r now access refresh = elim (lookup_client s r.client_id) [
    | none ↦ (s, err invalid_client)
    | some c ↦
        if secret_accepted crypto c r.client_secret
        then redeem (take_code s r.code) (lookup r.code s.auth_codes) r now access refresh
        else (s, err invalid_client)
  ]

  -- The response to a refresh, where the store exchanged the token
  abbrev pub refreshed :
      Service → Text → Text → TokenStore × Option Text → Service × Result OauthError TokenResponse
  refreshed s access next (store, none) = (record s { store = store }, err invalid_refresh)
  refreshed s access next (store, some scope) =
      (record s { store = store }, ok (pair_response crypto s access next (canonical_scope scope)))

  abbrev pub exchange_with :
      Service
      → Text
      → Text
      → ℕ
      → Option Text
      → Option Text
      → Service × Result OauthError TokenResponse
  exchange_with s client token now none refresh =
      (s, err (server_error (codes "generate access token")))
  exchange_with s client token now (some access) none =
      (s, err (server_error (codes "generate refresh token")))
  exchange_with s client token now (some access) (some next) = refreshed s access next (
      exchange_refresh_token s.store (hash_token crypto token) client
        (record {
          new_refresh_token = hash_token crypto next;
          new_access_token = hash_token crypto access;
          access_expires_at = now + s.cfg.access_token_ttl;
          refresh_expires_at = now + s.cfg.refresh_token_ttl;
        })
        now)

  -- `len(c.GrantTypes) > 0 && !slices.Contains(c.GrantTypes, "refresh_token")`
  abbrev pub refuses_refresh : Client → Bool
  refuses_refresh c =
      ltb 0 (length c.grant_types) && not (any (λ g. g == codes "refresh_token") c.grant_types)

  -- `exchangeRefreshToken`
  unfoldable pub exchange_refresh :
      Service
      → Text
      → Text
      → Text
      → ℕ
      → Option Text
      → Option Text
      → Service × Result OauthError TokenResponse
  exchange_refresh s client secret token now access refresh = elim (lookup_client s client) [
    | none ↦ (s, err invalid_client)
    | some c ↦
        if not (secret_accepted crypto c secret)
        then (s, err invalid_client)
        else if refuses_refresh c
        then (s, err unauthorized_client)
        else exchange_with s client token now access refresh
  ]

  abbrev pub bearer_answer : Option AccessEntry → Option (Text × Bool)
  bearer_answer none = none
  bearer_answer (some e) =
      if trim_space e.principal == []
      then none
      else some (canonical_scope e.scope, is_legacy_scope e.scope)

  -- `ValidateBearerDetails`, for a store that knows the principal of a token
  unfoldable pub validate_bearer_details : Service → Text → ℕ → Option (Text × Bool)
  validate_bearer_details s token now =
      bearer_answer (validate_access_token_details s.store (hash_token crypto token) now)

  -- `ValidateBearer`
  unfoldable pub validate_bearer : Service → Text → ℕ → Option Text
  validate_bearer s token now =
      Option.map (λ (p : Text × Bool). p.0) (validate_bearer_details s token now)
