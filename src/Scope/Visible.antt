-- ===== src/Scope/Visible.antt =====
-- `ForScope`, from which get_capabilities makes its catalogue, against the rank test of tools/call.
use mathlib.Core.Path.{subst}
use mcp_hugo_server_go.Base.{
  ℕ, ◌≤◌, ◌≡◌, ◌↔◌, refl, sym, inl, inr, true, List, [], ◌∷◌, ◌++◌, some, none, arith, Bool-cases,
  All, Any, or_map,
}
use mcp_hugo_server_go.Base.Int.{ℤ, pos}
use mcp_hugo_server_go.Base.Keys.{text_eq}
use mcp_hugo_server_go.Base.Map.{lookup, insert, lookup-insert, lookup-insert_self, Map}
use mcp_hugo_server_go.Base.Text.{Text, text_beq, text_beq_iff}
use mcp_hugo_server_go.Scope.{
  scope_rank, rank, ToolDef, Registry, register, visible, visible_defs, for_scope,
}

-- `RequiredScopeFor` and the comparison of ranks in `checkOne`
abbrev pub Callable : Text → ToolDef → Type 0
Callable scope d = rank d.required_scope ≤ rank scope

empty_rank : scope_rank [] ≡ pos 0
unfolding scope_rank text_beq
empty_rank = refl

visible-Callable :
    (scope : Text) (d : ToolDef) (n : ℕ)
    → scope_rank scope ≡ pos n
    → (visible (scope_rank scope) d ≡ true) ↔ Callable scope d
unfolding visible rank
visible-Callable scope d n e = (
  λ h. ground (arith, text_beq_iff d.required_scope [], empty_rank),
  λ h. ground (arith, text_beq_iff d.required_scope [], empty_rank),
)

visible_defs-Callable :
    (scope : Text) (n : ℕ) (ds : List ToolDef)
    → scope_rank scope ≡ pos n
    → All (Callable scope) (visible_defs (scope_rank scope) ds)
unfolding visible_defs
visible_defs-Callable scope n [] e = tt
visible_defs-Callable scope n (d ∷ ds) e =
    let rest = visible_defs-Callable scope n ds e in
    elim (Bool-cases (visible (scope_rank scope) d)) [
      | inl listed ↦ rw listed ((visible-Callable scope d n e).0 listed, rest)
      | inr hidden ↦ rw hidden rest
    ]

visible_defs_complete :
    (scope : Text) (n : ℕ) (d : ToolDef) (ds : List ToolDef)
    → scope_rank scope ≡ pos n
    → Callable scope d
    → Any (λ x. d ≡ x) ds
    → Any (λ x. d ≡ x) (visible_defs (scope_rank scope) ds)
unfolding visible_defs
visible_defs_complete scope n d [] e c m = m
visible_defs_complete scope n d (x ∷ xs) e c (inl same) =
    rw ((visible-Callable scope x n e).1 (subst (Callable scope) same c)) (inl same)
visible_defs_complete scope n d (x ∷ xs) e c (inr m) =
    let rest = visible_defs_complete scope n d xs e c m in
    elim (Bool-cases (visible (scope_rank scope) x)) [
      | inl listed ↦ rw listed (inr rest)
      | inr hidden ↦ rw hidden rest
    ]

visible_defs-subset :
    (r : ℤ) (d : ToolDef) (ds : List ToolDef)
    → Any (λ x. d ≡ x) (visible_defs r ds)
    → Any (λ x. d ≡ x) ds
unfolding visible_defs
visible_defs-subset r d [] m = m
visible_defs-subset r d (x ∷ xs) m = elim (Bool-cases (visible r x)) [
  | inl listed ↦ or_map (visible_defs-subset r d xs) (rw listed at m)
  | inr hidden ↦ inr (visible_defs-subset r d xs (rw hidden at m))
]

All-Any :
    (P : ToolDef → Type 0) (d : ToolDef) (ds : List ToolDef) → All P ds → Any (λ x. d ≡ x) ds → P d
All-Any P d [] a m = elim m [ ]
All-Any P d (x ∷ xs) (p, a) (inl e) = subst P (sym e) p
All-Any P d (x ∷ xs) (p, a) (inr m) = All-Any P d xs a m

-- For a known scope, `ForScope` lists exactly the registered tools whose required scope ranks at
-- most as high as it.
pub for_scope-Callable :
    (r : Registry) (scope : Text) (n : ℕ) (d : ToolDef)
    → scope_rank scope ≡ pos n
    → Any (λ x. d ≡ x) (for_scope r scope) ↔ (Any (λ x. d ≡ x) r.defs × Callable scope d)
unfolding for_scope
for_scope-Callable r scope n d e = (
  λ m. (
    visible_defs-subset (scope_rank scope) d r.defs m,
    All-Any (Callable scope) d _ (visible_defs-Callable scope n r.defs e) m,
  ),
  λ h. visible_defs_complete scope n d r.defs e h.1 h.0,
)

-- What `byName` knows of each tool in `defs` is that tool: no two tools share a name.
abbrev pub IsConsistent : Registry → Type 0
IsConsistent r = All (λ d. lookup d.name r.by_name ≡ some d) r.defs

register_old :
    (def : ToolDef) (m : Map Text ToolDef) (ds : List ToolDef)
    → lookup def.name m ≡ none
    → All (λ d. lookup d.name m ≡ some d) ds
    → All (λ d. lookup d.name (insert def.name def m) ≡ some d) (ds ++ def ∷ [])
register_old def m [] new a = (lookup-insert_self def.name def m, tt)
register_old def m (d ∷ ds) new (h, a) = (
  ground (arith, lookup-insert def.name d.name def m, text_beq_iff def.name d.name),
  register_old def m ds new a,
)

-- Registering a tool under a new name keeps the registry consistent.
pub register-IsConsistent :
    (def : ToolDef) (r : Registry)
    → lookup def.name r.by_name ≡ none
    → IsConsistent r
    → IsConsistent (register def r)
unfolding register
register-IsConsistent def r new c = register_old def r.by_name r.defs new c
