-- ===== src/Oauth/Redeem.antt =====
-- What a client can get for an authorization code.
use mathlib.Core.Path.{subst}
use mcp_hugo_server_go.Base.{
  ℕ, ◌≤◌, ◌≡◌, refl, sym, ap, ◌∙◌, ◌⊎◌, inl, inr, true, false, [], Option, none, some, arith,
  Bool-cases, Option-cases, leb, leb→le, if◌then◌else◌,
}
use mcp_hugo_server_go.Base.Keys.{text_eq, ◌==◌}
use mcp_hugo_server_go.Base.Map.{lookup}
use mcp_hugo_server_go.Base.Result.{Result, ok, err}
use mcp_hugo_server_go.Base.Text.{Text, text_beq_iff}
use mcp_hugo_server_go.Scope.{canonical_scope, rank, requested_scope, allowed_scope, ScopeError}
use mcp_hugo_server_go.Oauth.Types.{
  Client, AuthCode, Service, TokenResponse, Crypto, OauthError, unauthorized_client, invalid_client,
  lookup_client, code_challenge_s256, validate_pkce, secret_accepted,
}
use mcp_hugo_server_go.Oauth.Codes.{CodeRequest, check_code, clamped, resolve_client_scope}
use mcp_hugo_server_go.Oauth.Stored.{IsStored, pair-IsStored}
use mcp_hugo_server_go.Oauth.Verified.{lookup_client_sound, IsVerified, secret_sound}
use mcp_hugo_server_go.Oauth.Exchange.{
  redeem_checked, redeem, take_code, exchange_authorization_code,
}

-- A scope within the client's maximum.
clamped-le :
    (c : Client) (q : Result ScopeError Text) (scope : Text)
    → clamped c q ≡ ok scope
    → rank scope ≤ rank c.max_scope
unfolding allowed_scope
clamped-le c (err e) scope h = cc
clamped-le c (ok requested) scope h =
    let wanted = if requested == [] then c.max_scope else requested in
    elim (Bool-cases (leb (rank wanted) (rank c.max_scope))) [
      | inl within ↦ let e : scope ≡ wanted = ground arith in rw e (leb→le _ _ within)
      | inr beyond ↦ let e : scope ≡ c.max_scope = ground arith in rw e (omega arith)
    ]

module _ (s : Service) (id requested : Text) where
  resolve_unknown :
      lookup_client s id ≡ none → resolve_client_scope s id requested ≡ err unauthorized_client
  unfolding resolve_client_scope
  resolve_unknown e = rw (e, resolve_client_scope)

  resolve_known :
      (c : Client)
      → lookup_client s id ≡ some c
      → resolve_client_scope s id requested ≡ clamped c (requested_scope requested)
  unfolding resolve_client_scope
  resolve_known c e = rw (e, resolve_client_scope)

  -- A client that gets a scope is on record and enabled, and the scope ranks at most as high as its
  -- maximum.
  pub resolve_client_scope-le :
      (scope : Text)
      → resolve_client_scope s id requested ≡ ok scope
      → (c : Client) × (lookup_client s id ≡ some c)
        × (lookup id s.clients ≡ some c)
        × (c.enabled ≡ true)
        × (rank scope ≤ rank c.max_scope)
  resolve_client_scope-le scope h = elim (Option-cases (lookup_client s id)) [
    | inl e ↦ absurd (cc (h, resolve_unknown e))
    | inr (c, e) ↦ (
      c,
      e,
      (lookup_client_sound s id c e).0,
      (lookup_client_sound s id c e).1,
      clamped-le c (requested_scope requested) scope (cc (h, resolve_known c e)),
    )
  ]

module _ (crypto : Crypto) where
  -- What the tests on a code establish.
  abbrev pub IsGranted : AuthCode → CodeRequest → ℕ → Type 0
  IsGranted found r now =
      (now ≤ found.code_expires)
      × (r.client_id ≡ found.code_client)
      × (r.sent_redirect ≡ found.code_redirect)
      × ((found.code_challenge ≡ [])
          ⊎ (code_challenge_s256 crypto r.code_verifier ≡ found.code_challenge))

  check_code-IsGranted :
      (found : AuthCode) (r : CodeRequest) (now : ℕ)
      → check_code crypto found r now ≡ none
      → IsGranted found r now
  unfolding check_code validate_pkce
  check_code-IsGranted found r now h = ground (
    arith,
    text_beq_iff r.client_id found.code_client,
    text_beq_iff r.sent_redirect found.code_redirect,
    text_beq_iff found.code_challenge [],
    text_beq_iff (code_challenge_s256 crypto r.code_verifier) found.code_challenge,
  )

  pub exchange_known :
      (s : Service) (r : CodeRequest) (now : ℕ) (access refresh : Option Text) (c : Client)
      → lookup_client s r.client_id ≡ some c
      → secret_accepted crypto c r.client_secret ≡ true
      → exchange_authorization_code crypto s r now access refresh
        ≡ redeem crypto
            (take_code crypto s r.code)
            (lookup r.code s.auth_codes)
            r
            now
            access
            refresh
  unfolding exchange_authorization_code
  exchange_known s r now access refresh c l k =
      rw (l, exchange_authorization_code) (rw (k, exchange_authorization_code))

  exchange_unknown :
      (s : Service) (r : CodeRequest) (now : ℕ) (access refresh : Option Text)
      → lookup_client s r.client_id ≡ none
      → exchange_authorization_code crypto s r now access refresh ≡ (s, err invalid_client)
  unfolding exchange_authorization_code
  exchange_unknown s r now access refresh l = rw (l, exchange_authorization_code)

  exchange_secret :
      (s : Service) (r : CodeRequest) (now : ℕ) (access refresh : Option Text) (c : Client)
      → lookup_client s r.client_id ≡ some c
      → secret_accepted crypto c r.client_secret ≡ false
      → exchange_authorization_code crypto s r now access refresh ≡ (s, err invalid_client)
  unfolding exchange_authorization_code
  exchange_secret s r now access refresh c l k =
      rw (l, exchange_authorization_code) (rw (k, exchange_authorization_code))

  -- The client is known and enabled, and it sent its secret if it has one.
  abbrev pub IsAuthenticated : Service → CodeRequest → Type 0
  IsAuthenticated s r =
      (c : Client) × (lookup_client s r.client_id ≡ some c)
      × (secret_accepted crypto c r.client_secret ≡ true)

  IsAuthenticated-cases :
      (s : Service) (r : CodeRequest) (now : ℕ) (access refresh : Option Text)
      → IsAuthenticated s r
        ⊎ (exchange_authorization_code crypto s r now access refresh ≡ (s, err invalid_client))
  IsAuthenticated-cases s r now access refresh = elim (Option-cases (lookup_client s r.client_id)) [
    | inl l ↦ inr (exchange_unknown s r now access refresh l)
    | inr (c, l) ↦ elim (Bool-cases (secret_accepted crypto c r.client_secret)) [
      | inl k ↦ inl (c, l, k)
      | inr k ↦ inr (exchange_secret s r now access refresh c l k)
    ]
  ]

  authenticated-IsVerified :
      (s : Service) (r : CodeRequest) → IsAuthenticated s r → IsVerified crypto s r
  authenticated-IsVerified s r (c, l, k) = (
    c,
    (lookup_client_sound s r.client_id c l).0,
    (lookup_client_sound s r.client_id c l).1,
    secret_sound crypto c r.client_secret k,
  )

  -- What stands behind tokens that were issued for a code, and what is on record for them.
  abbrev pub IsRedeemed :
      Service → CodeRequest → ℕ → Service × Result OauthError TokenResponse → TokenResponse → Type 0
  IsRedeemed s r now (s', out) y =
      IsVerified crypto s r
      × ((found : AuthCode) × (lookup r.code s.auth_codes ≡ some found)
          × IsGranted found r now
          × IsStored crypto s.cfg r.client_id (canonical_scope found.code_scope) now s' y)

  redeem_sound :
      (s : Service) (m : Option AuthCode) (r : CodeRequest) (now : ℕ) (access refresh : Option Text)
      (y : TokenResponse)
      → (redeem crypto s m r now access refresh).1 ≡ ok y
      → (found : AuthCode) × (m ≡ some found)
        × IsGranted found r now
        × IsStored crypto s.cfg r.client_id
            (canonical_scope found.code_scope)
            now
            (redeem crypto s m r now access refresh).0
            y
  unfolding redeem
  redeem_sound s none r now access refresh y h = cc
  redeem_sound s (some found) r now access refresh y h =
      elim (Option-cases (check_code crypto found r now)) [
        | inl e ↦ (
          found,
          refl,
          check_code-IsGranted found r now e,
          subst
              (λ m.
                IsStored crypto s.cfg r.client_id (canonical_scope found.code_scope) now
                  (redeem_checked crypto s found r m now access refresh).0 y)
              (sym e)
              (pair-IsStored crypto s r.client_id _ now access refresh y
                (subst (λ m. (redeem_checked crypto s found r m now access refresh).1 ≡ ok y) e h)),
        )
        | inr (x, e) ↦
            absurd (
              cc (subst (λ m. (redeem_checked crypto s found r m now access refresh).1 ≡ ok y) e h))
      ]

  -- Tokens are issued for a code only to a client that is on record and enabled and that sent its
  -- secret if it has one, for a code on record that was issued to it, is not expired, has the redirect address the client sent and, if it has a
  -- challenge, is met by the verifier sent; and the service is left with the access token and the
  -- refresh token on record for that client, each with the canonical form of the code's scope and
  -- its own time of expiry.
  pub exchange_authorization_code_sound :
      (s : Service) (r : CodeRequest) (now : ℕ) (access refresh : Option Text) (y : TokenResponse)
      → (exchange_authorization_code crypto s r now access refresh).1 ≡ ok y
      → IsRedeemed s r now (exchange_authorization_code crypto s r now access refresh) y
  exchange_authorization_code_sound s r now access refresh y h =
      elim (IsAuthenticated-cases s r now access refresh) [
        | inr e ↦ absurd (cc (h, ap (λ (q : Service × Result OauthError TokenResponse). q.1) e))
        | inl (c, l, k) ↦
            let known = exchange_known s r now access refresh c l k in
            subst (λ q. IsRedeemed s r now q y) (sym known)
              (
                authenticated-IsVerified s r (c, l, k),
                redeem_sound (take_code crypto s r.code) _ r now access refresh y
                    (ap (λ (q : Service × Result OauthError TokenResponse). q.1) (sym known) ∙ h),
              )
      ]
