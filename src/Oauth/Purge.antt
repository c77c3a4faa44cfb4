-- ===== src/Oauth/Purge.antt =====
-- The periodic purge is invisible to clients that redeem codes.
use mcp_hugo_server_go.Base.{
  ℕ, ◌≤◌, ◌≡◌, refl, sym, ap, ◌∙◌, inl, inr, Bool, true, not, Option, none, some, arith, Bool-cases,
  ltb, if◌then◌else◌,
}
use mcp_hugo_server_go.Base.Keys.{text_eq}
use mcp_hugo_server_go.Base.Map.{lookup, keep_if, Unique, lookup-keep}
use mcp_hugo_server_go.Base.Result.{ok, err}
use mcp_hugo_server_go.Base.Text.{Text}
use mcp_hugo_server_go.Scope.{canonical_scope}
use mcp_hugo_server_go.Oauth.Types.{
  Client, AuthCode, Service, Crypto, OauthError, invalid_client, invalid_code, lookup_client,
  secret_accepted,
}
use mcp_hugo_server_go.Oauth.Codes.{CodeRequest, check_code, issue_bearer_pair}
use mcp_hugo_server_go.Oauth.Exchange.{
  redeem_checked, redeem, take_code, exchange_authorization_code, purge_expired,
}

module _ (crypto : Crypto) (s t : Service) (same : s.cfg ≡ t.cfg) where
  pair_result :
      (client scope : Text) (now : ℕ) (access refresh : Option Text)
      → (issue_bearer_pair crypto s client scope now access refresh).1
        ≡ (issue_bearer_pair crypto t client scope now access refresh).1
  unfolding issue_bearer_pair
  pair_result client scope now none refresh = refl
  pair_result client scope now (some access) none = refl
  pair_result client scope now (some access) (some refresh) =
      ap
        (λ c. ok (record {
          access_token = access;
          expires_in = c.access_token_ttl;
          refresh_token = refresh;
          refresh_expires_in = c.refresh_token_ttl;
          granted_scope = scope;
        }))
        same

  redeem_checked_result :
      (found : AuthCode) (r : CodeRequest) (m : Option OauthError) (now : ℕ)
      (access refresh : Option Text)
      → (redeem_checked crypto s found r m now access refresh).1
        ≡ (redeem_checked crypto t found r m now access refresh).1
  redeem_checked_result found r (some e) now access refresh = refl
  redeem_checked_result found r none now access refresh =
      pair_result r.client_id (canonical_scope found.code_scope) now access refresh

  expired_code :
      (found : AuthCode) (r : CodeRequest) (now : ℕ)
      → ltb found.code_expires now ≡ true
      → check_code crypto found r now ≡ some invalid_code
  unfolding check_code
  expired_code found r now h = rw h

  -- A code that was purged answers as one that is expired.
  redeem_purged :
      (m : Option AuthCode) (r : CodeRequest) (now later : ℕ) (access refresh : Option Text)
      → now ≤ later
      → (redeem crypto s (keep_if (λ c. not (ltb c.code_expires now)) m) r later access refresh).1
        ≡ (redeem crypto t m r later access refresh).1
  unfolding redeem
  redeem_purged none r now later access refresh le = refl
  redeem_purged (some found) r now later access refresh le =
      elim (Bool-cases (ltb found.code_expires now)) [
        | inr current ↦ rw current (redeem_checked_result found r _ later access refresh)
        | inl old ↦ rw (old, expired_code found r later (ground arith))
      ]

-- A request for a code depends on the service by the client, and by what redeeming gives.
answer_of : {A : Type 0} → Option Client → (Client → Bool) → A → A → A
answer_of none accepted refused redeemed = refused
answer_of (some c) accepted refused redeemed = if accepted c then redeemed else refused

module _ (crypto : Crypto) (r : CodeRequest) (now : ℕ) (access refresh : Option Text) where
  exchange_answer :
      (s : Service) (m : Option Client)
      → lookup_client s r.client_id ≡ m
      → (exchange_authorization_code crypto s r now access refresh).1
        ≡ answer_of m
            (λ c. secret_accepted crypto c r.client_secret)
            (err invalid_client)
            (redeem crypto
              (take_code crypto s r.code)
              (lookup r.code s.auth_codes)
              r
              now
              access
              refresh).1
  unfolding exchange_authorization_code answer_of
  exchange_answer s none l = rw (l, exchange_authorization_code)
  exchange_answer s (some c) l = elim (Bool-cases (secret_accepted crypto c r.client_secret)) [
    | inl k ↦ rw (l, exchange_authorization_code) (rw (k, exchange_authorization_code))
    | inr k ↦ rw (l, exchange_authorization_code) (rw (k, exchange_authorization_code))
  ]

  redeem_both :
      (s : Service) (purged : ℕ)
      → Unique s.auth_codes
      → purged ≤ now
      → (redeem crypto
          (take_code crypto (purge_expired s purged) r.code)
          (lookup r.code (purge_expired s purged).auth_codes)
          r
          now
          access
          refresh).1
        ≡ (redeem crypto
            (take_code crypto s r.code)
            (lookup r.code s.auth_codes)
            r
            now
            access
            refresh).1
  redeem_both s purged u le =
      let p = take_code crypto (purge_expired s purged) r.code in
      let t = take_code crypto s r.code in
      let kept : lookup r.code (purge_expired s purged).auth_codes
          ≡ keep_if (λ c. not (ltb c.code_expires purged)) (lookup r.code s.auth_codes) =
        unfold purge_expired in lookup-keep _ r.code s.auth_codes u in
      ap (λ m. (redeem crypto p m r now access refresh).1) kept
      ∙ redeem_purged crypto p t (unfold purge_expired in refl) (lookup r.code s.auth_codes) r
          purged now access refresh le

  -- Where every code has one entry, whoever redeems a code after a purge, then or later, gets the
  -- answer that would have come without the purge.
  pub purge_expired_invisible :
      (s : Service) (purged : ℕ)
      → Unique s.auth_codes
      → purged ≤ now
      → (exchange_authorization_code crypto (purge_expired s purged) r now access refresh).1
        ≡ (exchange_authorization_code crypto s r now access refresh).1
  purge_expired_invisible s purged u le =
      let m = lookup_client s r.client_id in
      let p = purge_expired s purged in
      let known : lookup_client p r.client_id ≡ m = unfold lookup_client purge_expired in refl in
      exchange_answer p m known
      ∙ ap (answer_of m (λ c. secret_accepted crypto c r.client_secret) (err invalid_client))
          (redeem_both s purged u le)
      ∙ sym (exchange_answer s m refl)
