-- ===== src/Oauth/Once.antt =====
-- A code is used up by the first attempt.
use mathlib.Core.Path.{subst}
use mcp_hugo_server_go.Base.{ℕ, ◌≡◌, ◌≢◌, refl, sym, Option, none, some}
use mcp_hugo_server_go.Base.Keys.{text_eq}
use mcp_hugo_server_go.Base.Map.{lookup, remove, lookup-remove_self}
use mcp_hugo_server_go.Base.Result.{ok}
use mcp_hugo_server_go.Base.Text.{Text}
use mcp_hugo_server_go.Oauth.Types.{AuthCode, Service, TokenResponse, Crypto, OauthError}
use mcp_hugo_server_go.Oauth.Codes.{CodeRequest, check_code, issue_bearer_pair, with_refresh}
use mcp_hugo_server_go.Oauth.Exchange.{redeem_checked, redeem, exchange_authorization_code}
use mcp_hugo_server_go.Oauth.Redeem.{
  IsAuthenticated, exchange_known, exchange_authorization_code_sound,
}

module _ (crypto : Crypto) where
  with_refresh_codes :
      (s : Service) (client scope : Text) (now : ℕ) (access : Text) (refresh : Option Text)
      → (with_refresh crypto s client scope now access refresh).0.auth_codes ≡ s.auth_codes
  with_refresh_codes s client scope now access none = refl
  with_refresh_codes s client scope now access (some refresh) = refl

  pair_codes :
      (s : Service) (client scope : Text) (now : ℕ) (access refresh : Option Text)
      → (issue_bearer_pair crypto s client scope now access refresh).0.auth_codes ≡ s.auth_codes
  unfolding issue_bearer_pair
  pair_codes s client scope now none refresh = refl
  pair_codes s client scope now (some access) refresh =
      with_refresh_codes _ client scope now access refresh

  redeem_checked_codes :
      (s : Service) (found : AuthCode) (r : CodeRequest) (m : Option OauthError) (now : ℕ)
      (access refresh : Option Text)
      → (redeem_checked crypto s found r m now access refresh).0.auth_codes ≡ s.auth_codes
  redeem_checked_codes s found r (some e) now access refresh = refl
  redeem_checked_codes s found r none now access refresh =
      pair_codes s r.client_id _ now access refresh

  redeem_codes :
      (s : Service) (m : Option AuthCode) (r : CodeRequest) (now : ℕ) (access refresh : Option Text)
      → (redeem crypto s m r now access refresh).0.auth_codes ≡ s.auth_codes
  unfolding redeem
  redeem_codes s none r now access refresh = refl
  redeem_codes s (some found) r now access refresh =
      redeem_checked_codes s found r (check_code crypto found r now) now access refresh

  code_taken :
      (s : Service) (r : CodeRequest) (now : ℕ) (access refresh : Option Text) (code : Text)
      → IsAuthenticated crypto s r
      → code ≡ r.code
      → lookup code (exchange_authorization_code crypto s r now access refresh).0.auth_codes ≡ none
  code_taken s r now access refresh code (c, l, k) same =
      rw (exchange_known crypto s r now access refresh c l k, redeem_codes)
        (subst (λ j. lookup j (remove r.code s.auth_codes) ≡ none) (sym same)
          (lookup-remove_self r.code s.auth_codes))

  -- An attempt of an authenticated client uses the code up, whether it gets tokens or an error: no
  -- later request with the code gets tokens.
  pub exchange_authorization_code_once :
      (s : Service) (r r' : CodeRequest) (now now' : ℕ)
      (access refresh access' refresh' : Option Text) (y : TokenResponse)
      → IsAuthenticated crypto s r
      → r'.code ≡ r.code
      → (exchange_authorization_code crypto
          (exchange_authorization_code crypto s r now access refresh).0
          r'
          now'
          access'
          refresh').1
        ≢ ok y
  exchange_authorization_code_once s r r' now now' access refresh access' refresh' y known same h =
      let s' = (exchange_authorization_code crypto s r now access refresh).0 in
      let (found, on_record, _, _) =
        (exchange_authorization_code_sound crypto s' r' now' access' refresh' y h).1 in
      cc (on_record, code_taken s r now access refresh r'.code known same)
