-- ===== src/Oauth/Stored.antt =====
-- What `issueBearerPair` leaves in the store of tokens.
use mathlib.Core.Path.{subst}
use mcp_hugo_server_go.Base.{ℕ, ◌+◌, ◌≡◌, refl, Option, none, some}
use mcp_hugo_server_go.Base.Keys.{text_eq}
use mcp_hugo_server_go.Base.Map.{lookup, lookup-insert_self}
use mcp_hugo_server_go.Base.Result.{ok}
use mcp_hugo_server_go.Base.Text.{Text}
use mcp_hugo_server_go.Tokens.{add_access_token, add_refresh_token}
use mcp_hugo_server_go.Oauth.Types.{OauthConfig, Service, TokenResponse, Crypto, hash_token}
use mcp_hugo_server_go.Oauth.Codes.{with_refresh, issue_bearer_pair, pair_response}

module _ (crypto : Crypto) where
  -- The tokens of a response carry the scope: they are on record for the client with it, each with
  -- its own time of expiry.
  abbrev pub IsStored : OauthConfig → Text → Text → ℕ → Service → TokenResponse → Type 0
  IsStored cfg client scope now s y =
      (y.granted_scope ≡ scope)
      × (lookup (hash_token crypto y.access_token) s.store.tokens
          ≡ some
              (record { principal = client; scope = scope; expires = now + cfg.access_token_ttl }))
      × (lookup (hash_token crypto y.refresh_token) s.store.refresh_tokens
          ≡ some (record {
            client_id = client;
            refresh_scope = scope;
            refresh_expires = now + cfg.refresh_token_ttl;
          }))

  with_refresh-IsStored :
      (s : Service) (client scope : Text) (now : ℕ) (access : Text) (refresh : Option Text)
      (y : TokenResponse)
      → lookup (hash_token crypto access) s.store.tokens
        ≡ some
            (record { principal = client; scope = scope; expires = now + s.cfg.access_token_ttl })
      → (with_refresh crypto s client scope now access refresh).1 ≡ ok y
      → IsStored s.cfg client scope now (with_refresh crypto s client scope now access refresh).0 y
  unfolding add_refresh_token
  with_refresh-IsStored s client scope now access none y held h = cc
  with_refresh-IsStored s client scope now access (some refresh) y held h =
      let e : pair_response crypto s access refresh scope ≡ y = cc h in
      subst
        (IsStored s.cfg client scope now
          (with_refresh crypto s client scope now access (some refresh)).0)
        e (refl, held, lookup-insert_self _ _ _)

  pub pair-IsStored :
      (s : Service) (client scope : Text) (now : ℕ) (access refresh : Option Text)
      (y : TokenResponse)
      → (issue_bearer_pair crypto s client scope now access refresh).1 ≡ ok y
      → IsStored s.cfg client scope now
          (issue_bearer_pair crypto s client scope now access refresh).0
          y
  unfolding issue_bearer_pair add_access_token
  pair-IsStored s client scope now none refresh y h = cc
  pair-IsStored s client scope now (some access) refresh y h =
      with_refresh-IsStored _ client scope now access refresh y (lookup-insert_self _ _ _) h
