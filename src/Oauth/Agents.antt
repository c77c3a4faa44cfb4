-- ===== src/Oauth/Agents.antt =====
-- internal/oauth/agent_auth.go: agents that register themselves, and claims of their operators.
use mcp_hugo_server_go.Base.{
  ℕ, ◌+◌, Bool, true, false, not, [], ◌++◌, Option, none, some, ltb, if◌then◌else◌,
}
use mcp_hugo_server_go.Base.Keys.{text_eq, ◌==◌}
use mcp_hugo_server_go.Base.Map.{lookup, insert, remove}
use mcp_hugo_server_go.Base.Result.{Result, ok, err}
use mcp_hugo_server_go.Base.Text.{Text, codes}
use mcp_hugo_server_go.Scope.{read}
use mcp_hugo_server_go.Tokens.{add_access_token}
use mcp_hugo_server_go.Oauth.Types.{
  AgentRegistration, AgentClaim, Service, TokenResponse, Crypto, OauthError, assertion_not_found,
  assertion_expired, claim_required, invalid_claim_token, claim_expired, server_error, hash_token,
}

-- Seconds, as the configured lifetimes
abbrev pub assertion_ttl : ℕ
assertion_ttl = 3600

abbrev pub claim_ttl : ℕ
claim_ttl = 600

-- A registration; its claim token is empty where no operator has to approve it.
unfoldable pub new_registration : Text → Text → Text → Bool → ℕ → AgentRegistration
new_registration reg_id assertion token claimed now = record {
  registration_id = codes "reg_" ++ reg_id;
  assertion_token = codes "arleo_assert_" ++ assertion;
  issued_scope = read;
  claim_token = token;
  assertion_expires = now + assertion_ttl;
  claim_expires = if claimed then 0 else now + claim_ttl;
  claimed = claimed;
}

-- The registration put on record, with its claim token if it has one
unfoldable pub store_registration : Service → AgentRegistration → Service
store_registration s reg = record s {
  agent_regs = insert reg.assertion_token reg s.agent_regs;
  agent_claim_tokens =
      if reg.claim_token == []
      then s.agent_claim_tokens
      else insert reg.claim_token reg.assertion_token s.agent_claim_tokens;
}

abbrev pub random_failed : {A : Type 0} → Service → Text → Service × Result OauthError A
random_failed s what = (s, err (server_error (codes "generate " ++ what)))

abbrev pub register_claimable :
    Service → Text → Text → Option Text → ℕ → Service × Result OauthError AgentRegistration
register_claimable s reg_id assertion none now = random_failed s (codes "claim token")
register_claimable s reg_id assertion (some claim) now =
    let reg = new_registration reg_id assertion (codes "clm_" ++ claim) false now in
    (store_registration s reg, ok reg)

abbrev pub register_with :
    Service → Text → Text → Option Text → ℕ → Service × Result OauthError AgentRegistration
register_with s reg_id assertion claim now =
    if s.cfg.allow_reader_self_registration
    then (
      store_registration s (new_registration reg_id assertion [] true now),
      ok (new_registration reg_id assertion [] true now),
    )
    else register_claimable s reg_id assertion claim now

-- `registerAgentAnonymous`; what it answers with is read off the registration.
unfoldable pub register_agent :
    Service
    → Option Text
    → Option Text
    → Option Text
    → ℕ
    → Service × Result OauthError AgentRegistration
register_agent s none assertion claim now = random_failed s (codes "registration id")
register_agent s (some reg_id) none claim now = random_failed s (codes "assertion token")
register_agent s (some reg_id) (some assertion) claim now =
    register_with s reg_id assertion claim now

-- The registration of a claim token, if the token and the registration are on record
unfoldable pub claim_target : Service → Text → Option (Text × AgentRegistration)
claim_target s token = elim (lookup token s.agent_claim_tokens) [
  | none ↦ none
  | some assertion ↦ elim (lookup assertion s.agent_regs) [
    | none ↦ none
    | some reg ↦ some (assertion, reg)
  ]
]

abbrev pub initiate_for :
    Service
    → Option (Text × AgentRegistration)
    → ℕ
    → Option Text
    → Service × Result OauthError AgentClaim
initiate_for s none now random = (s, err invalid_claim_token)
initiate_for s (some (assertion, reg)) now random =
    if ltb reg.claim_expires now then (s, err claim_expired) else elim random [
      | none ↦ random_failed s (codes "claim attempt id")
      | some suffix ↦
          let claim : AgentClaim = record {
            claim_registration = reg.registration_id;
            claim_attempt_id = codes "cla_" ++ suffix;
            attempt_expires = now + claim_ttl;
          } in
          (record s { agent_claims = insert claim.claim_attempt_id claim s.agent_claims }, ok claim)
    ]

-- `initiateClaim`
unfoldable pub initiate_claim :
    Service → Text → ℕ → Option Text → Service × Result OauthError AgentClaim
initiate_claim s token now random = initiate_for s (claim_target s token) now random

abbrev pub approved : Service → Text → Text → AgentRegistration → Service
approved s token assertion reg = record s {
  agent_regs = insert assertion (record reg { claimed = true }) s.agent_regs;
  agent_claim_tokens = remove token s.agent_claim_tokens;
}

abbrev pub verify_target :
    Service → Text → Option (Text × AgentRegistration) → ℕ → Service × Option OauthError
verify_target s token none now = (s, some invalid_claim_token)
verify_target s token (some (assertion, reg)) now =
    if ltb reg.claim_expires now
    then (s, some claim_expired)
    else (approved s token assertion reg, none)

-- `verifyAgentClaim`; `none` is the nil error.
unfoldable pub verify_agent_claim : Service → Text → ℕ → Service × Option OauthError
verify_agent_claim s token now = verify_target s token (claim_target s token) now

module _ (crypto : Crypto) where
  abbrev pub assertion_scope : AgentRegistration → Text
  assertion_scope reg = if reg.issued_scope == [] then read else reg.issued_scope

  abbrev pub issue_agent_token :
      Service → AgentRegistration → ℕ → Option Text → Service × Result OauthError TokenResponse
  issue_agent_token s reg now none = random_failed s (codes "access token")
  issue_agent_token s reg now (some token) = (
    record s {
      store =
          add_access_token s.store (hash_token crypto token) (assertion_scope reg)
            reg.registration_id (now + s.cfg.access_token_ttl);
    },
    ok (record {
      access_token = token;
      expires_in = s.cfg.access_token_ttl;
      refresh_token = [];
      refresh_expires_in = 0;
      granted_scope = assertion_scope reg;
    }),
  )

  abbrev pub exchange_registration :
      Service
      → Option AgentRegistration
      → ℕ
      → Option Text
      → Service × Result OauthError TokenResponse
  exchange_registration s none now random = (s, err assertion_not_found)
  exchange_registration s (some reg) now random =
      if ltb reg.assertion_expires now
      then (s, err assertion_expired)
      else if not reg.claimed
      then (s, err claim_required)
      else issue_agent_token s reg now random

  -- `exchangeAgentAssertion`
  unfoldable pub exchange_agent_assertion :
      Service → Text → ℕ → Option Text → Service × Result OauthError TokenResponse
  exchange_agent_assertion s assertion now random =
      exchange_registration s (lookup assertion s.agent_regs) now random
