-- ===== src/Oauth/Types.antt =====
-- internal/oauth/oauth.go and agent_auth.go: the state of the service, and its errors.
use mcp_hugo_server_go.Base.{
  ℕ, Bool, true, false, not, ◌&&◌, ◌||◌, List, [], ◌++◌, Option, none, some, if◌then◌else◌,
}
use mcp_hugo_server_go.Base.Keys.{text_eq, ◌==◌}
use mcp_hugo_server_go.Base.Map.{Map, lookup}
use mcp_hugo_server_go.Base.Text.{Text, codes, has_prefix}
use mcp_hugo_server_go.Tokens.{TokenStore}

-- The fields of `config.OAuthConfig` that are read here
pub record OauthConfig : Type 0 where
  pub auth_code_ttl : ℕ
  pub access_token_ttl : ℕ
  pub refresh_token_ttl : ℕ
  pub require_pkce : Bool
  pub allow_reader_self_registration : Bool
  pub dynamic_client_enabled : Bool
  pub trusted_cidrs : List Text

-- `client`
pub record Client : Type 0 where
  pub redirect_uris : List Text
  pub grant_types : List Text
  pub secret_hash : Text
  pub max_scope : Text
  pub enabled : Bool

-- `authCode`
pub record AuthCode : Type 0 where
  pub code_client : Text
  pub code_redirect : Text
  pub code_scope : Text
  pub code_expires : ℕ
  pub code_challenge : Text
  pub code_challenge_method : Text

-- `agentRegistration`
pub record AgentRegistration : Type 0 where
  pub registration_id : Text
  pub assertion_token : Text
  pub issued_scope : Text
  pub claim_token : Text
  pub assertion_expires : ℕ
  pub claim_expires : ℕ
  pub claimed : Bool

-- `agentClaim`
pub record AgentClaim : Type 0 where
  pub claim_registration : Text
  pub claim_attempt_id : Text
  pub attempt_expires : ℕ

-- `Service`
pub record Service : Type 0 where
  pub cfg : OauthConfig
  pub store : TokenStore
  pub clients : Map Text Client
  pub auth_codes : Map Text AuthCode
  pub agent_regs : Map Text AgentRegistration
  pub agent_claim_tokens : Map Text Text
  pub agent_claims : Map Text AgentClaim

-- `TokenResponse`, without the constant token type; a field that is left out is empty or 0.
pub record TokenResponse : Type 0 where
  pub access_token : Text
  pub expires_in : ℕ
  pub refresh_token : Text
  pub refresh_expires_in : ℕ
  pub granted_scope : Text

-- SHA-256, and the encodings of its results in hexadecimal and in URL-safe base64.
pub record Crypto : Type 0 where
  pub sha256 : Text → Text
  pub hex_encode : Text → Text
  pub base64_url : Text → Text

-- The errors of the service; a failure of the random generator carries its text, without its cause.
pub data OauthError : Type 0 where
  access_denied unsupported_response_type missing_state pkce_mandatory unsupported_challenge
        challenge_length invalid_redirect_uri unauthorized_client invalid_scope invalid_client
        invalid_code redirect_mismatch pkce_failed invalid_refresh assertion_not_found
        assertion_expired claim_required invalid_claim_token claim_expired registration_disabled
        redirects_missing :
      OauthError
  server_error : Text → OauthError

-- The texts of the errors
unfoldable pub message : OauthError → Text
message access_denied = codes "access_denied: authorize source is not trusted"
message unsupported_response_type = codes "unsupported_response_type"
message missing_state = codes "invalid_request: missing state parameter"
message pkce_mandatory = codes "invalid_request: pkce_mandatory"
message unsupported_challenge = codes "invalid_request: unsupported code_challenge_method"
message challenge_length = codes "invalid_request: code_challenge length invalid"
message invalid_redirect_uri = codes "invalid_redirect_uri"
message unauthorized_client = codes "unauthorized_client"
message invalid_scope = codes "invalid_scope"
message invalid_client = codes "invalid_client"
message invalid_code = codes "invalid_grant: invalid or expired code"
message redirect_mismatch = codes "invalid_grant: redirect_uri mismatch"
message pkce_failed = codes "invalid_grant: pkce verification failed"
message invalid_refresh = codes "invalid_grant: invalid or expired refresh token"
message assertion_not_found = codes "invalid_grant: assertion_not_found"
message assertion_expired = codes "invalid_grant"
message claim_required = codes "invalid_grant: claim_required"
message invalid_claim_token = codes "invalid_claim_token"
message claim_expired = codes "claim_expired"
message registration_disabled = codes "invalid_request: dynamic_client_registration_disabled"
message redirects_missing = codes "invalid_request: redirect_uris missing or empty"
message (server_error detail) = codes "server_error: " ++ detail

-- `oauthTokenErrorCode`
unfoldable pub token_error_code : OauthError → Text
token_error_code e =
    if has_prefix (message e) (codes "unsupported_grant_type")
    then codes "unsupported_grant_type"
    else if has_prefix (message e) (codes "invalid_client")
    then codes "invalid_client"
    else if has_prefix (message e) (codes "invalid_grant")
    then codes "invalid_grant"
    else if has_prefix (message e) (codes "invalid_scope")
    then codes "invalid_scope"
    else if has_prefix (message e) (codes "server_error")
    then codes "server_error"
    else codes "invalid_request"

-- `oauthTokenErrorStatus`
unfoldable pub token_error_status : OauthError → ℕ
token_error_status e =
    if has_prefix (message e) (codes "server_error")
    then 500
    else if has_prefix (message e) (codes "invalid_client")
    then 401
    else 400

-- `oauthAuthorizeErrorCode`
unfoldable pub authorize_error_code : OauthError → Text
authorize_error_code e =
    if has_prefix (message e) (codes "server_error")
    then codes "server_error"
    else if has_prefix (message e) (codes "unsupported_response_type")
    then codes "unsupported_response_type"
    else if has_prefix (message e) (codes "access_denied")
    then codes "access_denied"
    else if has_prefix (message e) (codes "unauthorized_client")
    then codes "unauthorized_client"
    else if has_prefix (message e) (codes "invalid_scope")
    then codes "invalid_scope"
    else codes "invalid_request"

-- `oauthAuthorizeErrorStatus`
unfoldable pub authorize_error_status : OauthError → ℕ
authorize_error_status e =
    if has_prefix (message e) (codes "server_error")
    then 500
    else if has_prefix (message e) (codes "access_denied")
    then 403
    else if has_prefix (message e) (codes "unauthorized_client")
    then 401
    else 400

-- `lookupClient`
unfoldable pub lookup_client : Service → Text → Option Client
lookup_client s id = elim (lookup id s.clients) [
  | none ↦ none
  | some c ↦ if c.enabled then some c else none
]

module _ (crypto : Crypto) where
  open crypto use {sha256, hex_encode, base64_url}

  -- `HashToken`
  unfoldable pub hash_token : Text → Text
  hash_token token = hex_encode (sha256 token)

  -- `CodeChallengeS256`
  unfoldable pub code_challenge_s256 : Text → Text
  code_challenge_s256 verifier = base64_url (sha256 verifier)

  -- `ValidatePKCE`
  unfoldable pub validate_pkce : Text → Text → Bool
  validate_pkce challenge verifier =
      if challenge == [] || verifier == [] then false else code_challenge_s256 verifier == challenge

  -- The test of the secret of a client that has one
  unfoldable pub secret_accepted : Client → Text → Bool
  secret_accepted c secret =
      if c.secret_hash == [] then true else not (secret == []) && hash_token secret == c.secret_hash
