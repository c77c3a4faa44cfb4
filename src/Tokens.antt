-- ===== src/Tokens.antt =====
-- internal/storage/store.go: the store of tokens in memory. Tokens are given by their hashes. Times
-- are natural numbers, so `time.Now().Before(e.expiresAt)` is `now < expires`.
pub mod Rotation
use mcp_hugo_server_go.Base.{
  ℕ, Bool, true, false, not, ◌&&◌, List, [], Option, none, some, ltb, if◌then◌else◌,
}
use mcp_hugo_server_go.Base.Keys.{text_eq, ◌==◌}
use mcp_hugo_server_go.Base.Map.{Map, lookup, insert, remove, keep, keep_if}
use mcp_hugo_server_go.Base.Text.{Text}

-- `memoryEntry`, which is also `AccessTokenDetails`
pub record AccessEntry : Type 0 where
  pub principal : Text
  pub scope : Text
  pub expires : ℕ

-- `memoryRefreshEntry`
pub record RefreshEntry : Type 0 where
  pub client_id : Text
  pub refresh_scope : Text
  pub refresh_expires : ℕ

-- `memoryStore`
pub record TokenStore : Type 0 where
  pub tokens : Map Text AccessEntry
  pub refresh_tokens : Map Text RefreshEntry

-- `NewMemory`
abbrev pub new_memory : TokenStore
new_memory = record { tokens = []; refresh_tokens = [] }

-- `AddAccessToken`
unfoldable pub add_access_token : TokenStore → Text → Text → Text → ℕ → TokenStore
add_access_token s token scope principal expires = record s {
  tokens =
      insert token (record { principal = principal; scope = scope; expires = expires }) s.tokens;
}

-- `!ok || !time.Now().Before(e.expiresAt)`, negated
abbrev pub is_current : ℕ → AccessEntry → Bool
is_current now e = ltb now e.expires

-- `ValidateAccessTokenDetails`
unfoldable pub validate_access_token_details : TokenStore → Text → ℕ → Option AccessEntry
validate_access_token_details s token now = keep_if (is_current now) (lookup token s.tokens)

abbrev pub scope_of : Option AccessEntry → Option Text
scope_of none = none
scope_of (some e) = some e.scope

-- `ValidateAccessToken`
unfoldable pub validate_access_token : TokenStore → Text → ℕ → Option Text
validate_access_token s token now = scope_of (keep_if (is_current now) (lookup token s.tokens))

-- `AddRefreshToken`
unfoldable pub add_refresh_token : TokenStore → Text → Text → Text → ℕ → TokenStore
add_refresh_token s token client scope expires = record s {
  refresh_tokens =
      insert token (record { client_id = client; refresh_scope = scope; refresh_expires = expires })
        s.refresh_tokens;
}

-- `!ok || e.clientID != clientID || !time.Now().Before(e.expiresAt)`, negated
abbrev pub is_usable : Text → ℕ → RefreshEntry → Bool
is_usable client now e = e.client_id == client && ltb now e.refresh_expires

abbrev pub refresh_scope_of : Option RefreshEntry → Option Text
refresh_scope_of none = none
refresh_scope_of (some e) = some e.refresh_scope

-- `ValidateRefreshToken`
unfoldable pub validate_refresh_token : TokenStore → Text → Text → ℕ → Option Text
validate_refresh_token s token client now =
    refresh_scope_of (keep_if (is_usable client now) (lookup token s.refresh_tokens))

-- The new tokens and their times of expiry
pub record NewTokens : Type 0 where
  pub new_refresh_token : Text
  pub new_access_token : Text
  pub access_expires_at : ℕ
  pub refresh_expires_at : ℕ

unfoldable pub exchanged :
    TokenStore → Text → Text → NewTokens → Option RefreshEntry → TokenStore × Option Text
unfolding add_access_token add_refresh_token
exchanged s old client n none = (s, none)
exchanged s old client n (some e) = (
  add_refresh_token
      (add_access_token (record s { refresh_tokens = remove old s.refresh_tokens })
        n.new_access_token e.refresh_scope client n.access_expires_at)
      n.new_refresh_token client e.refresh_scope n.refresh_expires_at,
  some e.refresh_scope,
)

-- `ExchangeRefreshToken`; `none` is `ok == false`, and the memory reports no errors.
unfoldable pub exchange_refresh_token :
    TokenStore → Text → Text → NewTokens → ℕ → TokenStore × Option Text
exchange_refresh_token s old client n now =
    exchanged s old client n (keep_if (is_usable client now) (lookup old s.refresh_tokens))

-- `PurgeExpiredTokens`
unfoldable pub purge_expired_tokens : TokenStore → ℕ → TokenStore
purge_expired_tokens s now = record {
  tokens = keep (λ _ e. ltb now e.expires) s.tokens;
  refresh_tokens = keep (λ _ e. ltb now e.refresh_expires) s.refresh_tokens;
}
