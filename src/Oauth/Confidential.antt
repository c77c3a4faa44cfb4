-- ===== src/Oauth/Confidential.antt =====
-- The clients of a registry have secrets.
use mathlib.Core.Path.{subst}
use mcp_hugo_server_go.Base.{
  ◌≡◌, ◌≢◌, ◌⊎◌, sym, ◌∙◌, inl, inr, Bool, true, false, List, [], ◌∷◌, Option, none, some,
  Bool-cases, map, if◌then◌else◌,
}
use mcp_hugo_server_go.Base.Keys.{text_eq, ◌==◌}
use mcp_hugo_server_go.Base.Map.{Map, insert, lookup, lookup-insert}
use mcp_hugo_server_go.Base.Result.{Result, ok, err, Result-cases}
use mcp_hugo_server_go.Base.Text.{Text, trim_space, text_ne}
use mcp_hugo_server_go.Scope.{ScopeError, normalize_scopes}
use mcp_hugo_server_go.Oauth.Redirects.{Network}
use mcp_hugo_server_go.Oauth.Types.{Client, Service, Crypto}
use mcp_hugo_server_go.Oauth.Clients.{all_valid}
use mcp_hugo_server_go.Oauth.Registry.{
  RegistryEntry, trimmed_entry, first_non_empty, entry_hash, registry_client, put_client,
  new_client, load_entry, load_entries, load_file, load_client_registry,
}

module _ (crypto : Crypto) (net : Network) (persisted : Text → Bool) where
  -- It has a secret, and its redirect addresses are allowed.
  abbrev pub IsConfidential : Client → Type 0
  IsConfidential c = (c.secret_hash ≢ []) × (all_valid net c.redirect_uris ≡ true)

  -- A client on record was there before, or is confidential.
  abbrev pub Grows : Map Text Client → Map Text Client → Type 0
  Grows m m' =
      (k : Text) (c : Client) → lookup k m' ≡ some c → (lookup k m ≡ some c) ⊎ IsConfidential c

  picked :
      (b : Bool) (new c : Client) (o : Option Client)
      → (if b then some new else o) ≡ some c
      → IsConfidential new
      → (o ≡ some c) ⊎ IsConfidential c
  picked true new c o h k = let same : new ≡ c = cc h in inr (subst IsConfidential same k)
  picked false new c o h k = inl h

  insert-Grows :
      (id : Text) (new : Client) (m : Map Text Client)
      → IsConfidential new
      → Grows m (insert id new m)
  insert-Grows id new m k j c h =
      picked (id == j) new c (lookup j m) (sym (lookup-insert id j new m) ∙ h) k

  put_client-Grows :
      (s : Service) (id : Text) (e : RegistryEntry) (x : Result ScopeError (List Text))
      → all_valid net e.entry_redirects ≡ true
      → Grows s.clients (put_client crypto net persisted s id e x).0.clients
  put_client-Grows s id e (err x) valid = λ k c h. inl h
  put_client-Grows s id e (ok scopes) valid =
      elim (Bool-cases (entry_hash crypto net persisted e == [])) [
        | inl x ↦ rw x (λ k c h. inl h)
        | inr x ↦ rw x (
            insert-Grows id (registry_client crypto net persisted e scopes) s.clients
              (text_ne (entry_hash crypto net persisted e) [] x, valid))
      ]

  new_client-Grows :
      (s : Service) (id : Text) (e : RegistryEntry) (o : Option Client)
      → Grows s.clients (new_client crypto net persisted s id e o).0.clients
  new_client-Grows s id e (some c) = λ k c' h. inl h
  new_client-Grows s id e none = elim (Bool-cases (all_valid net e.entry_redirects)) [
    | inl x ↦ rw x (put_client-Grows s id e (normalize_scopes e.entry_scopes e.entry_scope) x)
    | inr x ↦ rw x (λ k c h. inl h)
  ]

  load_entry-Grows :
      (s : Service) (e : RegistryEntry)
      → Grows s.clients (load_entry crypto net persisted s e).0.clients
  unfolding load_entry
  load_entry-Grows s e = elim (Bool-cases (first_non_empty e.entry_id e.entry_client_id == [])) [
    | inl x ↦ rw x (λ k c h. inl h)
    | inr x ↦ rw x (new_client-Grows s (first_non_empty e.entry_id e.entry_client_id) e _)
  ]

  Grows-trans : (m m' m'' : Map Text Client) → Grows m m' → Grows m' m'' → Grows m m''
  Grows-trans m m' m'' f g k c h = elim (g k c h) [ inl old ↦ f k c old | inr new ↦ inr new ]

  load_entries-Grows :
      (s : Service) (es : List RegistryEntry)
      → Grows s.clients (load_entries crypto net persisted s es).0.clients
  unfolding load_entries
  load_entries-Grows s [] = λ k c h. inl h
  load_entries-Grows s (e ∷ es) = elim (Result-cases (load_entry crypto net persisted s e).1) [
    | inr (x, q) ↦ rw (q, load_entries) (load_entry-Grows s e)
    | inl (u, q) ↦
        rw (q, load_entries)
          (Grows-trans s.clients _ _ (load_entry-Grows s e)
            (load_entries-Grows (load_entry crypto net persisted s e).0 es))
  ]

  load_file-Grows :
      (s : Service) (file : Option (List RegistryEntry))
      → Grows s.clients (load_file crypto net persisted s file).0.clients
  load_file-Grows s none = λ k c h. inl h
  load_file-Grows s (some es) = load_entries-Grows s (map trimmed_entry es)

  -- Whether the registry is loaded or the loading stops at an error, every client on record was there
  -- before, unchanged, or has a secret and only redirect addresses that are allowed.
  pub load_client_registry-IsConfidential :
      (s : Service) (path : Text) (file : Option (List RegistryEntry)) (id : Text) (c : Client)
      → lookup id (load_client_registry crypto net persisted s path file).0.clients ≡ some c
      → (lookup id s.clients ≡ some c) ⊎ IsConfidential c
  unfolding load_client_registry
  load_client_registry-IsConfidential s path file id c h =
      elim (Bool-cases (trim_space path == [])) [
        | inl x ↦ inl (rw x at h)
        | inr x ↦ load_file-Grows s file id c (rw x at h)
      ]
