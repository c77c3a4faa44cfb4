-- ===== src/Acl/Policy.antt =====
-- What the scope policy lets through.
use mcp_hugo_server_go.Base.{
  ◌≤◌, ◌≡◌, ◌≢◌, ◌↔◌, refl, ◌⊎◌, inl, inr, true, List, [], ◌∷◌, Option, none, some, arith,
  Bool-cases, Option-cases, All, length,
}
use mcp_hugo_server_go.Base.Keys.{text_eq}
use mcp_hugo_server_go.Base.Result.{ok, err, Result-cases}
use mcp_hugo_server_go.Base.Map.{lookup}
use mcp_hugo_server_go.Base.Text.{Text, text_beq, text_beq_iff}
use mcp_hugo_server_go.Scope.{ToolDef, Registry, required_scope_for, required_of, rank}
use mcp_hugo_server_go.Acl.{
  RpcEnvelope, Json, max_batch_size, check_known, check_named, tools_call, check_one, parse,
  all_allowed, allow_request, first_reason, deny_reason,
}

module _ (json : Json) (reg : Registry) where
  open json use {decode_name}

  check_one-ne-nil :
      (env : RpcEnvelope) (scope reason : Text)
      → check_one json reg env scope ≡ some reason
      → reason ≢ []
  unfolding check_one check_named check_known
  check_one-ne-nil env scope reason h = ground arith

  parse-ne-nil : (body reason : Text) → parse json reg body ≡ err reason → reason ≢ []
  unfolding parse
  parse-ne-nil body reason h = ground arith

  all_allowed_iff :
      (envs : List RpcEnvelope) (scope : Text)
      → (all_allowed json reg envs scope ≡ true) ↔ (first_reason json reg envs scope ≡ [])
  unfolding all_allowed first_reason
  all_allowed_iff [] scope = (λ _. refl, λ _. refl)
  all_allowed_iff (env ∷ envs) scope = elim (Option-cases (check_one json reg env scope)) [
    | inl e ↦ rw (e, all_allowed, first_reason) (all_allowed_iff envs scope)
    | inr (reason, e) ↦
        rw (e, all_allowed, first_reason)
          (λ h. absurd (cc), λ h. absurd (check_one-ne-nil env scope reason e h))
  ]

  -- A request is allowed exactly when no reason to deny it is reported, whatever the body is.
  pub allow_request_iff :
      (body scope : Text)
      → (allow_request json reg body scope ≡ true) ↔ (deny_reason json reg body scope ≡ [])
  unfolding allow_request deny_reason
  allow_request_iff body scope = elim (Result-cases (parse json reg body)) [
    | inl (envs, e) ↦ rw (e, allow_request, deny_reason) (all_allowed_iff envs scope)
    | inr (reason, e) ↦
        rw (e, allow_request, deny_reason)
          (λ h. absurd (cc), λ h. absurd (parse-ne-nil body reason e h))
  ]

  -- A call of a tool names a registered tool whose required scope the caller reaches.
  pub record Permits (scope : Text) (env : RpcEnvelope) : Type 0 where
    pub name : Text
    pub def : ToolDef
    pub named : decode_name env.params ≡ some name
    pub registered : lookup name reg.by_name ≡ some def
    pub ranked : rank def.required_scope ≤ rank scope

  abbrev pub IsPermitted : Text → RpcEnvelope → Type 0
  IsPermitted scope env = (env.method ≢ tools_call) ⊎ Permits scope env

  check_known-none :
      (o : Option ToolDef) (scope : Text)
      → check_known (required_of o) scope ≡ none
      → (d : ToolDef) × (o ≡ some d) × (rank d.required_scope ≤ rank scope)
  unfolding check_known
  check_known-none none scope h = absurd (cc)
  check_known-none (some d) scope h = (d, refl, ground arith)

  check_one-IsPermitted :
      (env : RpcEnvelope) (scope : Text)
      → check_one json reg env scope ≡ none
      → IsPermitted scope env
  unfolding check_one check_named required_scope_for
  check_one-IsPermitted env scope h = elim (Bool-cases (text_beq env.method tools_call)) [
    | inr other ↦ inl (λ e. ground (arith, text_beq_iff env.method tools_call))
    | inl call ↦ elim (Option-cases (decode_name env.params)) [
      | inl e ↦ absurd (ground arith)
      | inr (name, e) ↦
          let (d, r, le) = check_known-none (lookup name reg.by_name) scope (ground arith) in
          inr (record { name = name; def = d; named = e; registered = r; ranked = le })
    ]
  ]

  all_allowed-IsPermitted :
      (envs : List RpcEnvelope) (scope : Text)
      → all_allowed json reg envs scope ≡ true
      → All (IsPermitted scope) envs
  unfolding all_allowed
  all_allowed-IsPermitted [] scope h = tt
  all_allowed-IsPermitted (env ∷ envs) scope h =
      elim (Option-cases (check_one json reg env scope)) [
        | inl e ↦
            (check_one-IsPermitted env scope e, all_allowed-IsPermitted envs scope (ground arith))
        | inr (reason, e) ↦ absurd (ground arith)
      ]

  parse-length :
      (body : Text) (envs : List RpcEnvelope)
      → parse json reg body ≡ ok envs
      → length envs ≤ max_batch_size
  unfolding parse
  parse-length body envs h = ground arith

  -- An allowed body decodes to at most 50 envelopes, and each call of a tool among them names a
  -- registered tool whose required scope ranks at most as high as the caller's.
  pub allow_request_sound :
      (body scope : Text)
      → allow_request json reg body scope ≡ true
      → (envs : List RpcEnvelope) × (parse json reg body ≡ ok envs)
        × (length envs ≤ max_batch_size)
        × All (IsPermitted scope) envs
  unfolding allow_request
  allow_request_sound body scope h = elim (Result-cases (parse json reg body)) [
    | inl (envs, e) ↦
        (envs, e, parse-length body envs e, all_allowed-IsPermitted envs scope (ground arith))
    | inr (reason, e) ↦ absurd (ground arith)
  ]
