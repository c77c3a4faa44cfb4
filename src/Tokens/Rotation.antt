-- ===== src/Tokens/Rotation.antt =====
-- Refresh tokens are exchanged once, and purging is invisible.
use mathlib.Core.Path.{subst}
use mcp_hugo_server_go.Base.{
  ℕ, ◌≡◌, ◌≢◌, refl, sym, ap, ◌∙◌, inl, inr, Bool, ◌&&◌, ltb, if◌then◌else◌, Option, none, some,
  Bool-cases, Option-cases,
}
use mcp_hugo_server_go.Base.Keys.{text_eq, ◌==◌}
use mcp_hugo_server_go.Base.Map.{
  lookup, keep_if, lookup-insert, lookup-insert_self, lookup-remove_self,
}
use mcp_hugo_server_go.Base.Text.{Text, text_beq_ne}
use mcp_hugo_server_go.Tokens.{
  AccessEntry, RefreshEntry, scope_of, TokenStore, NewTokens, is_current, is_usable,
  refresh_scope_of, add_access_token, add_refresh_token, validate_access_token,
  validate_access_token_details, validate_refresh_token, exchanged, exchange_refresh_token,
}

-- What an exchange leaves, at every time: the old token is valid for nobody, and the new ones have
-- the scope, the refresh token for the client alone, each before its own time of expiry and not
-- from then on.
abbrev pub IsRotated : Text → Text → NewTokens → Text → TokenStore × Option Text → Type 0
IsRotated old client n scope (s, out) =
    (out ≡ some scope)
    × ((c : Text) (later : ℕ) → validate_refresh_token s old c later ≡ none)
    × ((c : Text) (later : ℕ)
        → validate_refresh_token s n.new_refresh_token c later
          ≡ (if client == c && ltb later n.refresh_expires_at then some scope else none))
    × ((later : ℕ)
        → validate_access_token s n.new_access_token later
          ≡ (if ltb later n.access_expires_at then some scope else none))
    × ((later : ℕ)
        → validate_access_token_details s n.new_access_token later ≡ (
            if ltb later n.access_expires_at
            then some (record { principal = client; scope = scope; expires = n.access_expires_at })
            else none))

refresh_scope_of-keep :
    (p : RefreshEntry → Bool) (e : RefreshEntry)
    → refresh_scope_of (keep_if p (some e)) ≡ (if p e then some e.refresh_scope else none)
refresh_scope_of-keep p e = elim (Bool-cases (p e)) [ inl kept ↦ rw kept | inr gone ↦ rw gone ]

scope_of-keep :
    (p : AccessEntry → Bool) (e : AccessEntry)
    → scope_of (keep_if p (some e)) ≡ (if p e then some e.scope else none)
scope_of-keep p e = elim (Bool-cases (p e)) [ inl kept ↦ rw kept | inr gone ↦ rw gone ]

module _ (s : TokenStore) (old client : Text) (n : NewTokens) (e : RefreshEntry) where
  exchanged-IsRotated :
      n.new_refresh_token ≢ old
      → IsRotated old client n e.refresh_scope (exchanged s old client n (some e))
  unfolding exchanged add_access_token add_refresh_token validate_refresh_token
      validate_access_token validate_access_token_details
  exchanged-IsRotated fresh = (
    refl,
    λ c later. rw (lookup-insert, text_beq_ne _ _ fresh, lookup-remove_self),
    λ c later. rw lookup-insert_self (
        refresh_scope_of-keep (is_usable c later) (record {
          client_id = client;
          refresh_scope = e.refresh_scope;
          refresh_expires = n.refresh_expires_at;
        })),
    λ later. rw lookup-insert_self (
        scope_of-keep (is_current later)
          (record { principal = client; scope = e.refresh_scope; expires = n.access_expires_at })),
    λ later. rw lookup-insert_self refl,
  )

-- With a new refresh token that differs from the old one: a refresh token that is valid for the
-- client is exchanged for new tokens of the same scope, at every time the old token is valid for
-- nobody, the new access token is valid exactly before its time of expiry, in the client's name, and
-- the new refresh token exactly before its own, for the client and nobody else; a token that is not
-- valid for the client is refused and changes nothing.
pub exchange_refresh_token_rotates :
    (s : TokenStore) (old client : Text) (n : NewTokens) (now : ℕ)
    → n.new_refresh_token ≢ old
    → (validate_refresh_token s old client now ≡ none
        → exchange_refresh_token s old client n now ≡ (s, none))
      × ((scope : Text)
          → validate_refresh_token s old client now ≡ some scope
          → IsRotated old client n scope (exchange_refresh_token s old client n now))
unfolding exchange_refresh_token validate_refresh_token
exchange_refresh_token_rotates s old client n now fresh =
    elim (Option-cases (keep_if (is_usable client now) (lookup old s.refresh_tokens))) [
      | inl x ↦ (
        λ h. ap (exchanged s old client n) x ∙ unfold exchanged in refl,
        λ scope h. absurd (cc (h, ap refresh_scope_of x)),
      )
      | inr (e, x) ↦ (
        λ h. absurd (cc (h, ap refresh_scope_of x)),
        λ scope h.
            let same : e.refresh_scope ≡ scope = cc (h, ap refresh_scope_of x) in
            subst (λ q. IsRotated old client n scope (exchanged s old client n q)) (sym x)
              (subst (λ v. IsRotated old client n v (exchanged s old client n (some e))) same
                (exchanged-IsRotated s old client n e fresh)),
      )
    ]
