-- ===== src/Caller/Order.antt =====
-- Which value of the context is the identity of a caller.
use mcp_hugo_server_go.Base.{◌≡◌, ◌≢◌, refl, inl, inr, true, false, [], Bool-cases, if◌then◌else◌}
use mcp_hugo_server_go.Base.Keys.{text_eq, ◌==◌}
use mcp_hugo_server_go.Base.Text.{Text, codes, trim_space, text_beq, text_beq_iff, text_ne}
use mcp_hugo_server_go.Caller.{
  Context, text_of, blank, token_key, key, mutation_key, source, unknown,
}

blank_nil : blank [] ≡ true
unfolding trim_space text_beq
blank_nil = refl

-- A text that is not blank is not empty.
pub not_empty : (s : Text) → blank s ≡ false → text_beq s [] ≡ false
not_empty s h = elim (Bool-cases (text_beq s [])) [
  | inl e ↦ absurd (cc (h, blank_nil, (text_beq_iff s []).0 e))
  | inr e ↦ e
]

-- The identity a source stands for.
abbrev pub identity_at : Context → Text → Text
identity_at ctx src =
    if src == codes "principal"
    then text_of ctx.ctx_principal
    else if src == codes "token"
    then text_of ctx.ctx_token_id
    else if src == codes "ip"
    then text_of ctx.ctx_caller_ip
    else unknown

-- The identity of a caller for quotas and ownership is never empty, and it is the value of the
-- source that is reported for it, or "unknown" where no source has a value.
pub mutation_key-source :
    (ctx : Context) → (mutation_key ctx ≡ identity_at ctx (source ctx)) × (mutation_key ctx ≢ [])
unfolding mutation_key key token_key source text_beq
mutation_key-source ctx =
    let p = not_empty (text_of ctx.ctx_principal) in
    let t = not_empty (text_of ctx.ctx_token_id) in
    let i = not_empty (text_of ctx.ctx_caller_ip) in
    elim (Bool-cases (blank (text_of ctx.ctx_principal))) [
      | inl bp ↦ elim (Bool-cases (blank (text_of ctx.ctx_token_id))) [
        | inl bt ↦ elim (Bool-cases (blank (text_of ctx.ctx_caller_ip))) [
          | inl bi ↦ rw (bp, bt, bi) (refl, text_ne unknown [] refl)
          | inr bi ↦ rw (bp, bt, bi, i bi) (refl, text_ne _ [] (i bi))
        ]
        | inr bt ↦ rw (bp, bt, t bt) (refl, text_ne _ [] (t bt))
      ]
      | inr bp ↦ rw (bp, p bp) (refl, text_ne _ [] (p bp))
    ]
