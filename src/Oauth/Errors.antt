-- ===== src/Oauth/Errors.antt =====
-- What a client is told of an error.
use mcp_hugo_server_go.Base.{ℕ, ◌≡◌, refl, ◌⊎◌, inl, inr}
use mcp_hugo_server_go.Base.Text.{Text, codes, has_prefix}
use mcp_hugo_server_go.Oauth.Types.{
  registration_disabled, redirects_missing, OauthError, access_denied, unsupported_response_type,
  missing_state, pkce_mandatory, unsupported_challenge, challenge_length, invalid_redirect_uri,
  unauthorized_client, invalid_scope, invalid_client, invalid_code, redirect_mismatch, pkce_failed,
  invalid_refresh, assertion_not_found, assertion_expired, claim_required, invalid_claim_token,
  claim_expired, server_error, message, token_error_code, token_error_status,
}

-- The code and the status agree: 401 stands with "invalid_client" only, 500 with "server_error"
-- only, and every other code comes with 400.
abbrev pub Agree : Text → ℕ → Type 0
Agree code status =
    ((code ≡ codes "invalid_client") × (status ≡ 401))
    ⊎ (((code ≡ codes "server_error") × (status ≡ 500))
        ⊎ ((status ≡ 400)
            × ((code ≡ codes "invalid_grant")
                ⊎ ((code ≡ codes "invalid_scope") ⊎ (code ≡ codes "invalid_request")))))

-- Every error of the token endpoint has the status its code calls for.
pub token_error-Agree : (e : OauthError) → Agree (token_error_code e) (token_error_status e)
unfolding token_error_code token_error_status message has_prefix
token_error-Agree invalid_client = inl (refl, refl)
token_error-Agree (server_error detail) = inr (inl (refl, refl))
token_error-Agree invalid_scope = inr (inr (refl, inr (inl refl)))
token_error-Agree invalid_code = inr (inr (refl, inl refl))
token_error-Agree redirect_mismatch = inr (inr (refl, inl refl))
token_error-Agree pkce_failed = inr (inr (refl, inl refl))
token_error-Agree invalid_refresh = inr (inr (refl, inl refl))
token_error-Agree assertion_not_found = inr (inr (refl, inl refl))
token_error-Agree assertion_expired = inr (inr (refl, inl refl))
token_error-Agree claim_required = inr (inr (refl, inl refl))
token_error-Agree access_denied = inr (inr (refl, inr (inr refl)))
token_error-Agree unsupported_response_type = inr (inr (refl, inr (inr refl)))
token_error-Agree missing_state = inr (inr (refl, inr (inr refl)))
token_error-Agree pkce_mandatory = inr (inr (refl, inr (inr refl)))
token_error-Agree unsupported_challenge = inr (inr (refl, inr (inr refl)))
token_error-Agree challenge_length = inr (inr (refl, inr (inr refl)))
token_error-Agree invalid_redirect_uri = inr (inr (refl, inr (inr refl)))
token_error-Agree unauthorized_client = inr (inr (refl, inr (inr refl)))
token_error-Agree invalid_claim_token = inr (inr (refl, inr (inr refl)))
token_error-Agree claim_expired = inr (inr (refl, inr (inr refl)))
token_error-Agree registration_disabled = inr (inr (refl, inr (inr refl)))
token_error-Agree redirects_missing = inr (inr (refl, inr (inr refl)))
