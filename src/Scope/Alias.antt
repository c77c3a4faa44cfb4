-- ===== src/Scope/Alias.antt =====
-- What `CanonicalScope` and `normalizeConfiguredScope` return.
use mcp_hugo_server_go.Base.{◌≤◌, ◌≡◌, refl, ◌⊎◌, inl, inr, arith, any}
use mcp_hugo_server_go.Base.Result.{ok}
use mcp_hugo_server_go.Base.Text.{Text, text_beq}
use mcp_hugo_server_go.Scope.{
  read, write, admin, one_of, scope_rank, rank, canonical_scope, normalize_canonical,
  normalize_scope,
}

abbrev pub IsCanonical : Text → Type 0
IsCanonical s = (s ≡ read) ⊎ (s ≡ write) ⊎ (s ≡ admin)

pub IsCanonical-cases : (s : Text) → (IsCanonical (canonical_scope s)) ⊎ (canonical_scope s ≡ s)
unfolding canonical_scope
IsCanonical-cases s = ground arith

canonical-read : canonical_scope read ≡ read
unfolding canonical_scope one_of any text_beq
canonical-read = refl

canonical-write : canonical_scope write ≡ write
unfolding canonical_scope one_of any text_beq
canonical-write = refl

canonical-admin : canonical_scope admin ≡ admin
unfolding canonical_scope one_of any text_beq
canonical-admin = refl

-- A second translation of a scope name changes nothing.
pub canonical-canonical : (s : Text) → canonical_scope (canonical_scope s) ≡ canonical_scope s
canonical-canonical s = elim (IsCanonical-cases s) [
  | inl (inl e) ↦ rw e canonical-read
  | inl (inr (inl e)) ↦ rw e canonical-write
  | inl (inr (inr e)) ↦ rw e canonical-admin
  | inr e ↦ rw e e
]

pub normalize-IsCanonical : (raw s : Text) → normalize_scope raw ≡ ok s → IsCanonical s
unfolding normalize_scope normalize_canonical
normalize-IsCanonical raw s h = ground arith

pub rank-read : rank read ≡ 0
unfolding rank scope_rank text_beq
rank-read = refl

pub rank-write : rank write ≡ 1
unfolding rank scope_rank text_beq
rank-write = refl

pub rank-admin : rank admin ≡ 2
unfolding rank scope_rank text_beq
rank-admin = refl

pub rank_bound : (s : Text) → rank s ≤ 2
unfolding rank scope_rank
rank_bound s = ground arith
