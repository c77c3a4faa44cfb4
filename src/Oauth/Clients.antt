-- ===== src/Oauth/Clients.antt =====
-- internal/oauth/oauth.go: clients that register themselves.
use mcp_hugo_server_go.Base.{
  Bool, true, not, ◌&&◌, List, [], ◌∷◌, Option, none, some, nat_beq, length, if◌then◌else◌,
}
use mcp_hugo_server_go.Base.Keys.{text_eq}
use mcp_hugo_server_go.Base.Map.{insert}
use mcp_hugo_server_go.Base.Result.{Result, ok, err}
use mcp_hugo_server_go.Base.Text.{Text, codes}
use mcp_hugo_server_go.Scope.{read}
use mcp_hugo_server_go.Oauth.Redirects.{Network, validate_registered_redirect}
use mcp_hugo_server_go.Oauth.Types.{
  Client, Service, OauthError, registration_disabled, redirects_missing, invalid_redirect_uri,
  server_error,
}

-- The client that is put on record
abbrev pub public_client : List Text → Client
public_client uris = record {
  redirect_uris = uris;
  grant_types = codes "authorization_code" ∷ codes "refresh_token" ∷ [];
  secret_hash = [];
  max_scope = read;
  enabled = true;
}

-- The loop over the redirect addresses
unfoldable pub all_valid : Network → List Text → Bool
all_valid net [] = true
all_valid net (uri ∷ uris) = validate_registered_redirect net uri && all_valid net uris

abbrev pub store_client : Service → List Text → Option Text → Service × Result OauthError Text
store_client s uris none = (s, err (server_error (codes "generate client id")))
store_client s uris (some id) =
    (record s { clients = insert id (public_client uris) s.clients }, ok id)

-- `registerClient`; the answer repeats the client.
unfoldable pub register_client :
    Network → Service → List Text → Option Text → Service × Result OauthError Text
register_client net s uris random =
    if not s.cfg.dynamic_client_enabled
    then (s, err registration_disabled)
    else if nat_beq (length uris) 0
    then (s, err redirects_missing)
    else if not (all_valid net uris)
    then (s, err invalid_redirect_uri)
    else store_client s uris random
