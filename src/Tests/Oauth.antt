-- ===== src/Tests/Oauth.antt =====
-- A service with one public client and one agent; hashing is the identity here.
use mcp_hugo_server_go.Base.{
  ◌+◌, if◌then◌else◌, ◌≤◌, ◌≡◌, ◌≢◌, refl, inl, true, false, [], ◌∷◌, any, none, some, arith,
}
use mcp_hugo_server_go.Base.Keys.{text_eq, ◌==◌}
use mcp_hugo_server_go.Base.Map.{lookup, insert}
use mcp_hugo_server_go.Base.Result.{ok, err}
use mcp_hugo_server_go.Base.Text.{Text, codes, text_beq, text_ne, trim_space, fields}
use mcp_hugo_server_go.Scope.{
  read, rank, canonical_scope, requested_scope, allowed_scope, scope_rank, normalize_scope,
  normalize_canonical, highest_token, one_of,
}
use mcp_hugo_server_go.Tokens.{
  TokenStore, NewTokens, new_memory, add_refresh_token, validate_refresh_token,
  exchange_refresh_token,
}
use mcp_hugo_server_go.Tokens.Rotation.{IsRotated, exchange_refresh_token_rotates}
use mcp_hugo_server_go.Oauth.Redirects.{
  Url, Network, validate_registered_redirect, match_redirect, match_urls, normalize_redirect,
  query_suffix, fragment_suffix, count_stars, ends_in_star, redirect_registered, source_allowed,
}
use mcp_hugo_server_go.Oauth.Clients.{register_client, all_valid}
use mcp_hugo_server_go.Oauth.Registered.{IsSafe, match_redirect-IsSafe, register_client_reads}
use mcp_hugo_server_go.Oauth.Types.{
  Client, Service, Crypto, AgentRegistration, TokenResponse, claim_required, lookup_client,
  secret_accepted,
}
use mcp_hugo_server_go.Oauth.Codes.{
  AuthorizeRequest, CodeRequest, issue_auth_code, resolve_client_scope, check_request,
  check_redirect, check_challenge, check_code, issue_bearer_pair,
}
use mcp_hugo_server_go.Oauth.Exchange.{purge_expired, exchange_authorization_code, redeem}
use mcp_hugo_server_go.Oauth.Agents.{
  store_registration, new_registration, claim_target, verify_agent_claim, exchange_agent_assertion,
}
use mcp_hugo_server_go.Oauth.Redeem.{
  IsAuthenticated, IsRedeemed, resolve_client_scope-le, exchange_authorization_code_sound,
}
use mcp_hugo_server_go.Oauth.Grant.{Matches, IsAccepted, exchange-issue}
use mcp_hugo_server_go.Oauth.Claims.{IsApproved, verify_agent_claim_enables}
use mcp_hugo_server_go.Oauth.Purge.{purge_expired_invisible}
use mcp_hugo_server_go.Oauth.Once.{exchange_authorization_code_once}

abbrev pub plain : Crypto
plain = record { sha256 = λ t. t; hex_encode = λ t. t; base64_url = λ t. t }

abbrev address : Url
address = record {
  scheme = codes "https";
  host = codes "app";
  hostname = codes "app";
  path = codes "/cb";
  raw_query = [];
  fragment = [];
  has_user = false;
  url_text = codes "https://app/cb";
}

-- The only address that parses is the client's, and every source is on the machine itself.
abbrev pub open_network : Network
open_network = record {
  parse_url = λ t. if t == codes "https://app/cb" then some address else none;
  to_lower = λ t. t;
  equal_fold = λ a b. a == b;
  parse_ip = λ t. some t;
  parse_cidr = λ t. some t;
  cidr_contains = λ cidr ip. true;
  is_loopback = λ ip. true;
}

abbrev app : Client
app = record {
  redirect_uris = codes "https://app/cb" ∷ [];
  grant_types = [];
  secret_hash = [];
  max_scope = read;
  enabled = true;
}

abbrev pub service : Service
service = record {
  cfg = record {
    auth_code_ttl = 300;
    access_token_ttl = 3600;
    refresh_token_ttl = 9000;
    require_pkce = false;
    allow_reader_self_registration = false;
    dynamic_client_enabled = true;
    trusted_cidrs = codes "127.0.0.1/32" ∷ [];
  };
  store = new_memory;
  clients = (codes "app", app) ∷ [];
  auth_codes = [];
  agent_regs = [];
  agent_claim_tokens = [];
  agent_claims = [];
}

app_known : lookup_client service (codes "app") ≡ some app
unfolding lookup_client lookup text_beq
app_known = refl

app_scope : resolve_client_scope service (codes "app") [] ≡ ok read
unfolding resolve_client_scope lookup_client lookup text_beq requested_scope allowed_scope rank
    scope_rank trim_space
app_scope = refl

resolve_client_scope-le_example :
    (c : Client) × (lookup_client service (codes "app") ≡ some c)
    × (lookup (codes "app") service.clients ≡ some c)
    × (c.enabled ≡ true)
    × (rank read ≤ rank c.max_scope)
resolve_client_scope-le_example = resolve_client_scope-le service (codes "app") [] read app_scope

abbrev authorize : AuthorizeRequest
authorize = record {
  source_ip = codes "127.0.0.1";
  response_type = codes "code";
  request_client = codes "app";
  redirect_uri = codes "https://app/cb";
  state = codes "x";
  request_scope = [];
  challenge = [];
  challenge_method = [];
}

abbrev code_request : CodeRequest
code_request = record {
  client_id = codes "app";
  client_secret = [];
  sent_redirect = codes "https://app/cb";
  code = codes "c1";
  code_verifier = [];
}

issued : (issue_auth_code open_network service authorize 10 (some (codes "c1"))).1 ≡ ok (codes "c1")
unfolding issue_auth_code check_request check_redirect check_challenge resolve_client_scope
    lookup_client lookup insert text_beq requested_scope allowed_scope rank scope_rank trim_space
    source_allowed redirect_registered match_redirect match_urls normalize_redirect query_suffix
    fragment_suffix ends_in_star any
issued = refl

authenticated : IsAuthenticated plain service code_request
authenticated = (app, app_known, unfold secret_accepted text_beq in refl)

matching : Matches plain authorize code_request
matching = (refl, refl, text_ne (codes "https://app/cb") [] (unfold text_beq in refl), inl refl)

app_named : trim_space (codes "app") ≢ []
app_named = text_ne (trim_space (codes "app")) [] (unfold trim_space text_beq in refl)

exchange-issue_example :
    (scope : Text) × (resolve_client_scope service (codes "app") [] ≡ ok scope)
    × IsAccepted plain 100 (canonical_scope scope) (
        exchange_authorization_code plain
          (issue_auth_code open_network service authorize 10 (some (codes "c1"))).0
          code_request
          20
          (some (codes "a1"))
          (some (codes "r1")))
exchange-issue_example =
    exchange-issue plain open_network service authorize code_request 10 20 100 (codes "a1")
      (codes "r1") issued authenticated matching app_named (omega arith) (omega arith)

exchange_authorization_code_once_example :
    (exchange_authorization_code plain
      (exchange_authorization_code plain service code_request 20 none none).0
      code_request
      30
      (some (codes "a1"))
      (some (codes "r1"))).1
    ≢ ok (record {
      access_token = codes "a1";
      expires_in = 3600;
      refresh_token = codes "r1";
      refresh_expires_in = 9000;
      granted_scope = read;
    })
exchange_authorization_code_once_example =
    exchange_authorization_code_once plain service code_request code_request 20 30 none none
      (some (codes "a1")) (some (codes "r1"))
      (record {
        access_token = codes "a1";
        expires_in = 3600;
        refresh_token = codes "r1";
        refresh_expires_in = 9000;
        granted_scope = read;
      })
      authenticated refl

abbrev holding : Service
holding = (issue_auth_code open_network service authorize 10 (some (codes "c1"))).0

abbrev response : TokenResponse
response = record {
  access_token = codes "a1";
  expires_in = 3600;
  refresh_token = codes "r1";
  refresh_expires_in = 9000;
  granted_scope = read;
}

redeemed :
    (exchange_authorization_code plain holding code_request 20
      (some (codes "a1"))
      (some (codes "r1"))).1
    ≡ ok response
unfolding exchange_authorization_code redeem check_code issue_bearer_pair secret_accepted
    canonical_scope issue_auth_code check_request check_redirect check_challenge
    resolve_client_scope lookup_client lookup insert text_beq requested_scope allowed_scope rank
    scope_rank trim_space one_of source_allowed redirect_registered match_redirect match_urls
    normalize_redirect query_suffix fragment_suffix ends_in_star any
redeemed = refl

exchange_authorization_code_sound_example :
    IsRedeemed plain holding code_request 20
      (exchange_authorization_code plain holding code_request 20
        (some (codes "a1"))
        (some (codes "r1")))
      response
exchange_authorization_code_sound_example =
    exchange_authorization_code_sound plain holding code_request 20 (some (codes "a1"))
      (some (codes "r1")) response redeemed

abbrev agent : AgentRegistration
agent = new_registration (codes "1") (codes "2") (codes "clm_3") false 0

abbrev with_agent : Service
with_agent = store_registration service agent

agent_target : claim_target with_agent (codes "clm_3") ≡ some (codes "arleo_assert_2", agent)
unfolding claim_target store_registration new_registration lookup insert text_beq
agent_target = refl

verify_agent_claim_enables_example :
    (exchange_agent_assertion plain with_agent (codes "arleo_assert_2") 50 (some (codes "t"))
      ≡ (with_agent, err claim_required))
    × IsApproved plain
        (codes "clm_3")
        (codes "arleo_assert_2")
        agent
        50
        (50 + with_agent.cfg.access_token_ttl)
        (codes "t")
        (verify_agent_claim with_agent (codes "clm_3") 40)
verify_agent_claim_enables_example =
    verify_agent_claim_enables plain with_agent (codes "clm_3") (codes "arleo_assert_2") agent 40 50
      (codes "t") agent_target (unfold new_registration in refl)
      (unfold new_registration in omega arith) (unfold new_registration in omega arith)

abbrev refreshable : TokenStore
refreshable = add_refresh_token new_memory (codes "r1") (codes "app") read 500

abbrev next_tokens : NewTokens
next_tokens = record {
  new_refresh_token = codes "r2";
  new_access_token = codes "a2";
  access_expires_at = 400;
  refresh_expires_at = 900;
}

exchange_refresh_token_rotates_example :
    (validate_refresh_token refreshable (codes "r1") (codes "app") 100 ≡ none
      → exchange_refresh_token refreshable (codes "r1") (codes "app") next_tokens 100
        ≡ (refreshable, none))
    × ((scope : Text)
        → validate_refresh_token refreshable (codes "r1") (codes "app") 100 ≡ some scope
        → IsRotated
            (codes "r1")
            (codes "app")
            next_tokens
            scope
            (exchange_refresh_token refreshable (codes "r1") (codes "app") next_tokens 100))
exchange_refresh_token_rotates_example =
    exchange_refresh_token_rotates refreshable (codes "r1") (codes "app") next_tokens 100
      (text_ne (codes "r2") (codes "r1") (unfold text_beq in refl))

accepted_address : validate_registered_redirect open_network (codes "https://app/cb") ≡ true
unfolding validate_registered_redirect count_stars ends_in_star trim_space text_beq
accepted_address = refl

matched_address :
    match_redirect open_network (codes "https://app/cb") (codes "https://app/cb") ≡ true
unfolding match_redirect match_urls normalize_redirect query_suffix fragment_suffix ends_in_star
    trim_space text_beq
matched_address = refl

match_redirect-IsSafe_example :
    (v : Url) × (open_network.parse_url (trim_space (codes "https://app/cb")) ≡ some v)
    × IsSafe open_network (codes "https://app/cb") v
match_redirect-IsSafe_example =
    match_redirect-IsSafe open_network (codes "https://app/cb") (codes "https://app/cb")
      accepted_address matched_address

registered :
    (register_client open_network service (codes "https://app/cb" ∷ []) (some (codes "n"))).1
    ≡ ok (codes "n")
unfolding register_client all_valid validate_registered_redirect count_stars ends_in_star trim_space
    text_beq
registered = refl

registered_scope :
    resolve_client_scope
      (register_client open_network service (codes "https://app/cb" ∷ []) (some (codes "n"))).0
      (codes "n")
      (codes "admin")
    ≡ ok read
unfolding register_client all_valid validate_registered_redirect count_stars ends_in_star trim_space
    text_beq resolve_client_scope lookup_client lookup insert requested_scope normalize_scope
    normalize_canonical canonical_scope highest_token fields one_of any allowed_scope rank
    scope_rank
registered_scope = refl

register_client_reads_example : rank read ≤ rank read
register_client_reads_example =
    register_client_reads open_network service (codes "https://app/cb" ∷ []) (codes "n")
      (codes "admin") read registered registered_scope

purge_expired_invisible_example :
    (exchange_authorization_code plain
      (purge_expired service 5)
      code_request
      20
      (some (codes "a1"))
      (some (codes "r1"))).1
    ≡ (exchange_authorization_code plain service code_request 20
        (some (codes "a1"))
        (some (codes "r1"))).1
purge_expired_invisible_example =
    purge_expired_invisible plain code_request 20 (some (codes "a1")) (some (codes "r1")) service 5
      tt (omega arith)
