-- ===== src/Tests/Registry.antt =====
-- A registry with one client.
use mcp_hugo_server_go.Base.{◌≡◌, ◌⊎◌, refl, any, true, [], ◌∷◌, none, some}
use mcp_hugo_server_go.Base.Keys.{text_eq}
use mcp_hugo_server_go.Base.Map.{lookup, insert}
use mcp_hugo_server_go.Base.Text.{codes, text_beq, trim_space}
use mcp_hugo_server_go.Scope.{
  normalize_scopes, highest_configured, highest_from, normalize_scope, normalize_canonical,
  canonical_scope, add_scopes, add_scope, one_of, insert_by_rank, sort_by_rank,
}
use mcp_hugo_server_go.Oauth.Types.{Client, hash_token}
use mcp_hugo_server_go.Oauth.Clients.{all_valid}
use mcp_hugo_server_go.Oauth.Registry.{
  RegistryEntry, load_client_registry, load_entries, load_entry,
}
use mcp_hugo_server_go.Oauth.Confidential.{IsConfidential, load_client_registry-IsConfidential}
use mcp_hugo_server_go.Tests.Oauth.{plain, open_network, service}

abbrev bot_entry : RegistryEntry
bot_entry = record {
  entry_id = codes " bot ";
  entry_client_id = [];
  secret = codes "s3";
  client_secret = [];
  client_secret_hash = [];
  entry_redirects = [];
  entry_scopes = [];
  entry_scope = codes "write";
  entry_enabled = none;
}

abbrev bot : Client
bot = record {
  redirect_uris = [];
  grant_types = [];
  secret_hash = hash_token plain (codes "s3");
  max_scope = codes "write";
  enabled = true;
}

bot_loaded :
    lookup
      (codes "bot")
      (load_client_registry plain open_network
        (λ id. true)
        service
        (codes "clients.yaml")
        (some (bot_entry ∷ []))).0.clients
    ≡ some bot
unfolding load_client_registry load_entries load_entry normalize_scopes highest_configured
    highest_from lookup insert trim_space text_beq all_valid add_scopes add_scope normalize_scope
    normalize_canonical one_of any canonical_scope hash_token sort_by_rank insert_by_rank
bot_loaded = refl

load_client_registry-IsConfidential_example :
    (lookup (codes "bot") service.clients ≡ some bot)
    ⊎ IsConfidential plain open_network (λ id. true) bot
load_client_registry-IsConfidential_example =
    load_client_registry-IsConfidential plain open_network (λ id. true) service
      (codes "clients.yaml") (some (bot_entry ∷ [])) (codes "bot") bot bot_loaded
