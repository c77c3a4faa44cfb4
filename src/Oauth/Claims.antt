-- ===== src/Oauth/Claims.antt =====
-- The life of an agent's registration.
use mathlib.Core.Path.{subst}
use mcp_hugo_server_go.Base.{
  ℕ, ◌+◌, ◌≤◌, ◌≡◌, ◌≢◌, ◌⊎◌, [], arith, refl, sym, ap, ◌∙◌, inl, inr, Bool, true, false, not,
  Option, none, some, Option-cases, ltb, le→ltb, if◌then◌else◌,
}
use mcp_hugo_server_go.Base.Keys.{text_eq}
use mcp_hugo_server_go.Base.Map.{lookup, lookup-insert_self, lookup-remove_self}
use mcp_hugo_server_go.Base.Result.{Result, ok, err}
use mcp_hugo_server_go.Base.Text.{Text, text_beq_iff}
use mcp_hugo_server_go.Scope.{read}
use mcp_hugo_server_go.Tokens.{add_access_token}
use mcp_hugo_server_go.Oauth.Types.{
  AgentRegistration, Service, TokenResponse, Crypto, OauthError, claim_required, claim_expired,
  invalid_claim_token, hash_token,
}
use mcp_hugo_server_go.Oauth.Agents.{
  claim_target, approved, verify_target, verify_agent_claim, assertion_scope, issue_agent_token,
  exchange_registration, exchange_agent_assertion,
}

target_unknown :
    (s : Service) (token : Text)
    → lookup token s.agent_claim_tokens ≡ none
    → claim_target s token ≡ none
unfolding claim_target
target_unknown s token e = rw (e, claim_target)

target_lost :
    (s : Service) (token a : Text)
    → lookup token s.agent_claim_tokens ≡ some a
    → lookup a s.agent_regs ≡ none
    → claim_target s token ≡ none
unfolding claim_target
target_lost s token a e f = rw (e, claim_target) (rw (f, claim_target))

target_known :
    (s : Service) (token a : Text) (reg : AgentRegistration)
    → lookup token s.agent_claim_tokens ≡ some a
    → lookup a s.agent_regs ≡ some reg
    → claim_target s token ≡ some (a, reg)
unfolding claim_target
target_known s token a reg e f = rw (e, claim_target) (rw (f, claim_target))

same_target :
    (s : Service) (a b : Text) (reg reg' : AgentRegistration)
    → lookup b s.agent_regs ≡ some reg'
    → ◌≡◌ {A = Option (Text × AgentRegistration)} (some (b, reg')) (some (a, reg))
    → lookup a s.agent_regs ≡ some reg
same_target s a b reg reg' f e =
    let same : b ≡ a = cc e in
    let same_reg : reg' ≡ reg = cc e in
    subst (λ k. lookup k s.agent_regs ≡ some reg) same (f ∙ ap some same_reg)

-- Two tests, of which the first fails and the second holds, or both fail.
second_passes :
    {A : Type 0} (p q : Bool) (a b c : A)
    → p ≡ false
    → q ≡ true
    → (if p then a else if not q then b else c) ≡ c
second_passes p q a b c h k = rw (h, k)

second_fails :
    {A : Type 0} (p q : Bool) (a b c : A)
    → p ≡ false
    → q ≡ false
    → (if p then a else if not q then b else c) ≡ b
second_fails p q a b c h k = rw (h, k)

-- A claim's target is on record.
target_on_record :
    (s : Service) (token a : Text) (reg : AgentRegistration)
    → claim_target s token ≡ some (a, reg)
    → lookup a s.agent_regs ≡ some reg
target_on_record s token a reg h = elim (Option-cases (lookup token s.agent_claim_tokens)) [
  | inl e ↦ absurd (cc (h, target_unknown s token e))
  | inr (b, e) ↦ elim (Option-cases (lookup b s.agent_regs)) [
    | inl f ↦ absurd (cc (h, target_lost s token b e f))
    | inr (reg', f) ↦ same_target s a b reg reg' f (cc (h, target_known s token b reg' e f))
  ]
]

-- The scope of a registration, "read" where it names none
abbrev pub IsScopeOf : AgentRegistration → Text → Type 0
IsScopeOf reg scope =
    ((reg.issued_scope ≡ []) × (scope ≡ read))
    ⊎ ((reg.issued_scope ≢ []) × (scope ≡ reg.issued_scope))

module _ (crypto : Crypto) where
  assertion_scope-IsScopeOf : (reg : AgentRegistration) → IsScopeOf reg (assertion_scope crypto reg)
  assertion_scope-IsScopeOf reg = ground (arith, text_beq_iff reg.issued_scope [])

  -- What an agent gets for its assertion: a token that is on record for its registration with the
  -- registration's scope, until `expires`.
  abbrev pub Grants : AgentRegistration → ℕ → Service × Result OauthError TokenResponse → Type 0
  Grants reg expires (s, out) =
      (y : TokenResponse) × (out ≡ ok y)
      × IsScopeOf reg y.granted_scope
      × (lookup (hash_token crypto y.access_token) s.store.tokens
          ≡ some (record {
            principal = reg.registration_id;
            scope = y.granted_scope;
            expires = expires;
          }))

  issued-Grants :
      (s : Service) (reg : AgentRegistration) (now : ℕ) (random : Text)
      → Grants reg (now + s.cfg.access_token_ttl) (issue_agent_token crypto s reg now (some random))
  unfolding add_access_token
  issued-Grants s reg now random =
      (_, refl, assertion_scope-IsScopeOf reg, lookup-insert_self _ _ _)

  exchange_claimed :
      (s : Service) (a : Text) (reg : AgentRegistration) (now : ℕ) (random : Text)
      → lookup a s.agent_regs ≡ some reg
      → now ≤ reg.assertion_expires
      → reg.claimed ≡ true
      → exchange_agent_assertion crypto s a now (some random)
        ≡ issue_agent_token crypto s reg now (some random)
  unfolding exchange_agent_assertion
  exchange_claimed s a reg now random l le c =
      ap (λ m. exchange_registration crypto s m now (some random)) l
      ∙ second_passes (ltb reg.assertion_expires now) reg.claimed _ _ _
          (le→ltb reg.assertion_expires now le) c

  exchange_unclaimed :
      (s : Service) (a : Text) (reg : AgentRegistration) (now : ℕ) (random : Text)
      → lookup a s.agent_regs ≡ some reg
      → now ≤ reg.assertion_expires
      → reg.claimed ≡ false
      → exchange_agent_assertion crypto s a now (some random) ≡ (s, err claim_required)
  unfolding exchange_agent_assertion
  exchange_unclaimed s a reg now random l le c =
      ap (λ m. exchange_registration crypto s m now (some random)) l
      ∙ second_fails (ltb reg.assertion_expires now) reg.claimed _ _ _
          (le→ltb reg.assertion_expires now le) c

  approved-Grants :
      (s : Service) (token a : Text) (reg : AgentRegistration) (now : ℕ) (random : Text)
      → now ≤ reg.assertion_expires
      → Grants reg
          (now + s.cfg.access_token_ttl)
          (exchange_agent_assertion crypto (approved s token a reg) a now (some random))
  approved-Grants s token a reg now random le =
      let t = approved s token a reg in
      let reg' : AgentRegistration = record reg { claimed = true } in
      subst (Grants reg (now + s.cfg.access_token_ttl))
        (sym (exchange_claimed t a reg' now random (lookup-insert_self _ _ _) le refl))
        (issued-Grants t reg' now random)

  verify_in_time :
      (s : Service) (token a : Text) (reg : AgentRegistration) (now : ℕ)
      → claim_target s token ≡ some (a, reg)
      → now ≤ reg.claim_expires
      → verify_agent_claim s token now ≡ (approved s token a reg, none)
  unfolding verify_agent_claim
  verify_in_time s token a reg now h le =
      ap (λ m. verify_target s token m now) h
      ∙ ap (λ (b : Bool). if b then (s, some claim_expired) else (approved s token a reg, none))
          (le→ltb reg.claim_expires now le)

  verify_again :
      (s : Service) (token a : Text) (reg : AgentRegistration) (now : ℕ)
      → verify_agent_claim (approved s token a reg) token now
        ≡ (approved s token a reg, some invalid_claim_token)
  unfolding verify_agent_claim
  verify_again s token a reg now =
      ap (λ m. verify_target (approved s token a reg) token m now)
        (target_unknown (approved s token a reg) token
          (lookup-remove_self token s.agent_claim_tokens))

  -- What the approval of a claim leaves.
  abbrev pub IsApproved :
      Text → Text → AgentRegistration → ℕ → ℕ → Text → Service × Option OauthError → Type 0
  IsApproved token a reg later expires random (s, out) =
      (out ≡ none)
      × (verify_agent_claim s token later ≡ (s, some invalid_claim_token))
      × Grants reg expires (exchange_agent_assertion crypto s a later (some random))

  -- Before an operator approves a claim, the agent's assertion is refused; the approval, in time,
  -- makes it good, until the assertion expires, for a token that goes on record for the
  -- registration with the registration's scope ("read" if it names none) and the configured
  -- lifetime, and uses the claim token up.
  pub verify_agent_claim_enables :
      (s : Service) (token assertion : Text) (reg : AgentRegistration) (now later : ℕ)
      (random : Text)
      → claim_target s token ≡ some (assertion, reg)
      → reg.claimed ≡ false
      → now ≤ reg.claim_expires
      → later ≤ reg.assertion_expires
      → (exchange_agent_assertion crypto s assertion later (some random) ≡ (s, err claim_required))
        × IsApproved token assertion reg later
            (later + s.cfg.access_token_ttl)
            random
            (verify_agent_claim s token now)
  verify_agent_claim_enables s token assertion reg now later random h u le le' = (
    exchange_unclaimed s assertion reg later random (target_on_record s token assertion reg h) le'
        u,
    subst (IsApproved token assertion reg later (later + s.cfg.access_token_ttl) random)
        (sym (verify_in_time s token assertion reg now h le))
        (
          refl,
          verify_again s token assertion reg later,
          approved-Grants s token assertion reg later random le',
        ),
  )
