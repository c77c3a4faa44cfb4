-- ===== src/Oauth/Verified.antt =====
-- What `lookupClient` and the test of the secret establish of a client.
use mathlib.Core.Path.{subst}
use mcp_hugo_server_go.Base.{
  ◌≡◌, ◌≢◌, ap, ◌∙◌, ◌⊎◌, inl, inr, true, [], none, some, arith, Bool-cases, Option-cases,
  if◌then◌else◌,
}
use mcp_hugo_server_go.Base.Keys.{text_eq}
use mcp_hugo_server_go.Base.Map.{lookup}
use mcp_hugo_server_go.Base.Text.{Text, text_beq_iff}
use mcp_hugo_server_go.Oauth.Types.{
  Client, Service, Crypto, lookup_client, hash_token, secret_accepted,
}
use mcp_hugo_server_go.Oauth.Codes.{CodeRequest}

lookup_client_missing :
    (s : Service) (id : Text) → lookup id s.clients ≡ none → lookup_client s id ≡ none
unfolding lookup_client
lookup_client_missing s id e = rw (e, lookup_client)

lookup_client_found :
    (s : Service) (id : Text) (c : Client)
    → lookup id s.clients ≡ some c
    → lookup_client s id ≡ (if c.enabled then some c else none)
unfolding lookup_client
lookup_client_found s id c e = rw (e, lookup_client)

-- A client that is found is on record and enabled.
pub lookup_client_sound :
    (s : Service) (id : Text) (c : Client)
    → lookup_client s id ≡ some c
    → (lookup id s.clients ≡ some c) × (c.enabled ≡ true)
lookup_client_sound s id c h = elim (Option-cases (lookup id s.clients)) [
  | inl e ↦ absurd (cc (h, lookup_client_missing s id e))
  | inr (d, e) ↦ elim (Bool-cases d.enabled) [
    | inl on ↦
        let same : d ≡ c = cc (h, lookup_client_found s id d e, on) in
        (e ∙ ap some same, subst (λ (x : Client). x.enabled ≡ true) same on)
    | inr off ↦ absurd (cc (h, lookup_client_found s id d e, off))
  ]
]

module _ (crypto : Crypto) where
  -- The client is on record and enabled, and it has no secret or sent the one whose hash is on
  -- record.
  abbrev pub IsVerified : Service → CodeRequest → Type 0
  IsVerified s r =
      (c : Client) × (lookup r.client_id s.clients ≡ some c)
      × (c.enabled ≡ true)
      × ((c.secret_hash ≡ [])
          ⊎ ((r.client_secret ≢ []) × (hash_token crypto r.client_secret ≡ c.secret_hash)))

  pub secret_sound :
      (c : Client) (secret : Text)
      → secret_accepted crypto c secret ≡ true
      → (c.secret_hash ≡ []) ⊎ ((secret ≢ []) × (hash_token crypto secret ≡ c.secret_hash))
  unfolding secret_accepted
  secret_sound c secret h = ground (
    arith,
    text_beq_iff c.secret_hash [],
    text_beq_iff secret [],
    text_beq_iff (hash_token crypto secret) c.secret_hash,
  )
