-- ===== src/Oauth/Registry.antt =====
-- internal/oauth/client_registry.go, and `LoadClientRegistry` of internal/oauth/oauth.go: the clients
-- of a file. What the YAML parser reads of the file is an argument, `none` where reading or parsing
-- fails; so is whether the store, if it persists clients, accepts one.
use mathlib.Core.List.{map}
use mcp_hugo_server_go.Base.{
  Bool, true, not, ◌&&◌, List, [], ◌∷◌, Option, none, some, if◌then◌else◌,
}
use mcp_hugo_server_go.Base.Keys.{text_eq, ◌==◌}
use mcp_hugo_server_go.Base.Map.{insert, lookup}
use mcp_hugo_server_go.Base.Result.{Result, ok, err}
use mcp_hugo_server_go.Base.Text.{Text, trim_space}
use mcp_hugo_server_go.Scope.{ScopeError, normalize_scopes, highest_configured}
use mcp_hugo_server_go.Oauth.Redirects.{Network}
use mcp_hugo_server_go.Oauth.Types.{Client, Service, Crypto, hash_token}
use mcp_hugo_server_go.Oauth.Clients.{all_valid}

-- `clientRegistryEntry`
pub record RegistryEntry : Type 0 where
  pub entry_id : Text
  pub entry_client_id : Text
  pub secret : Text
  pub client_secret : Text
  pub client_secret_hash : Text
  pub entry_redirects : List Text
  pub entry_scopes : List Text
  pub entry_scope : Text
  pub entry_enabled : Option Bool

-- The loop of `loadClientRegistry`
abbrev pub trimmed_entry : RegistryEntry → RegistryEntry
trimmed_entry e = record {
  entry_id = trim_space e.entry_id;
  entry_client_id = trim_space e.entry_client_id;
  secret = trim_space e.secret;
  client_secret = trim_space e.client_secret;
  client_secret_hash = trim_space e.client_secret_hash;
  entry_redirects = map trim_space e.entry_redirects;
  entry_scopes = map trim_space e.entry_scopes;
  entry_scope = trim_space e.entry_scope;
  entry_enabled = e.entry_enabled;
}

-- `firstNonEmpty` of two values
abbrev pub first_non_empty : Text → Text → Text
first_non_empty a b =
    if trim_space a == [] then if trim_space b == [] then [] else trim_space b else trim_space a

pub data RegistryError : Type 0 where
  not_read client_id_missing duplicate_client_id bad_redirect secret_missing not_persisted :
      RegistryError
  bad_scope : ScopeError → RegistryError

abbrev pub enabled_or_true : Option Bool → Bool
enabled_or_true none = true
enabled_or_true (some b) = b

module _ (crypto : Crypto) (net : Network) (persisted : Text → Bool) where
  abbrev pub entry_hash : RegistryEntry → Text
  entry_hash e =
      if trim_space e.client_secret_hash == []
        && not (first_non_empty e.secret e.client_secret == [])
      then hash_token crypto (first_non_empty e.secret e.client_secret)
      else trim_space e.client_secret_hash

  -- The client that is put on record
  abbrev pub registry_client : RegistryEntry → List Text → Client
  registry_client e scopes = record {
    redirect_uris = e.entry_redirects;
    grant_types = [];
    secret_hash = entry_hash e;
    max_scope = highest_configured scopes;
    enabled = enabled_or_true e.entry_enabled;
  }

  -- A client that is not persisted stays in the memory.
  abbrev pub put_client :
      Service
      → Text
      → RegistryEntry
      → Result ScopeError (List Text)
      → Service × Result RegistryError Unit
  put_client s id e (err x) = (s, err (bad_scope x))
  put_client s id e (ok scopes) = if entry_hash e == [] then (s, err secret_missing) else (
    record s { clients = insert id (registry_client e scopes) s.clients },
    if persisted id then ok tt else err not_persisted,
  )

  abbrev pub new_client :
      Service → Text → RegistryEntry → Option Client → Service × Result RegistryError Unit
  new_client s id e (some c) = (s, err duplicate_client_id)
  new_client s id e none =
      if all_valid net e.entry_redirects
      then put_client s id e (normalize_scopes e.entry_scopes e.entry_scope)
      else (s, err bad_redirect)

  -- One turn of the loop
  unfoldable pub load_entry : Service → RegistryEntry → Service × Result RegistryError Unit
  load_entry s e =
      let id = first_non_empty e.entry_id e.entry_client_id in
      if id == [] then (s, err client_id_missing) else new_client s id e (lookup id s.clients)

  unfoldable pub load_entries : Service → List RegistryEntry → Service × Result RegistryError Unit
  load_entries s [] = (s, ok tt)
  load_entries s (e ∷ es) =
      let next = load_entry s e in
      let rest = load_entries next.0 es in elim next.1 [ err x ↦ (next.0, err x) | ok u ↦ rest ]

  abbrev pub load_file : Service → Option (List RegistryEntry) → Service × Result RegistryError Unit
  load_file s none = (s, err not_read)
  load_file s (some es) = load_entries s (map trimmed_entry es)

  -- `LoadClientRegistry`
  unfoldable pub load_client_registry :
      Service → Text → Option (List RegistryEntry) → Service × Result RegistryError Unit
  load_client_registry s path file = if trim_space path == [] then (s, ok tt) else load_file s file
