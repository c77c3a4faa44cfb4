-- ===== src/Scope.antt =====
-- internal/tools/registry.go (ranks and the registry of tools), internal/oauth/scope_alias.go and
-- internal/oauth/scope_config.go.
pub mod Alias
pub mod Requested
pub mod Configured
pub mod Visible
use mcp_hugo_server_go.Base.{
  ℕ, Bool, true, false, not, ◌&&◌, ◌||◌, List, [], ◌∷◌, ◌++◌, Option, none, some, leb, any,
  if◌then◌else◌, ltb,
}
use mcp_hugo_server_go.Base.Int.{ℤ, pos, negsuc, leb_ℤ, ltb_ℤ}
use mcp_hugo_server_go.Base.Keys.{◌==◌, text_eq}
use mcp_hugo_server_go.Base.Map.{Map, lookup, insert}
use mcp_hugo_server_go.Base.Result.{Result, ok, err, ◌>>=◌}
use mcp_hugo_server_go.Base.Text.{Text, codes, trim_space, fields}

abbrev pub read : Text
read = codes "read"

abbrev pub write : Text
write = codes "write"

abbrev pub admin : Text
admin = codes "admin"

-- `case x, y, …` of a switch on a text
unfoldable pub one_of : List Text → Text → Bool
one_of labels s = any (λ l. s == l) labels

-- `scopeRank`
unfoldable pub scope_rank : Text → ℤ
scope_rank s =
    if s == []
    then pos 0
    else if s == read
    then pos 0
    else if s == write
    then pos 1
    else if s == admin
    then pos 2
    else negsuc 0

-- `ScopeRank`: an unknown scope ranks as anonymous.
abbrev or_zero : ℤ → ℕ
or_zero (pos n) = n
or_zero (negsuc n) = 0

unfoldable pub rank : Text → ℕ
rank s = or_zero (scope_rank s)

unfoldable pub is_write_scope : Text → Bool
is_write_scope s = leb 1 (rank s)

-- `CanonicalScope`
abbrev read_names : List Text
read_names = codes "mcp" ∷ read ∷ codes "content.read" ∷ codes "reader" ∷ []

abbrev admin_names : List Text
admin_names =
    admin
    ∷ codes "site.admin"
    ∷ codes "site_admin"
    ∷ codes "siteadmin"
    ∷ codes "system.admin"
    ∷ codes "system_admin"
    ∷ codes "systemadmin"
    ∷ []

abbrev write_names : List Text
write_names = write ∷ codes "content.write" ∷ []

unfoldable pub canonical_scope : Text → Text
canonical_scope s =
    if one_of read_names s
    then read
    else if one_of admin_names s
    then admin
    else if one_of write_names s
    then write
    else s

-- `IsLegacyScope`
unfoldable pub is_legacy_scope : Text → Bool
is_legacy_scope s = if one_of (read ∷ write ∷ []) s then false else not (canonical_scope s == s)

pub data ScopeError : Type 0 where
  invalid_scope : Text → ScopeError

-- `normalizeConfiguredScope`, behind the switch on the canonical scope
unfoldable pub normalize_canonical : Text → Text → Result ScopeError Text
normalize_canonical raw s =
    if one_of ([] ∷ read ∷ []) s
    then ok read
    else if s == write
    then ok write
    else if s == admin
    then ok admin
    else err (invalid_scope raw)

unfoldable pub normalize_scope : Text → Result ScopeError Text
normalize_scope raw = normalize_canonical raw (canonical_scope (trim_space raw))

-- The loop of `requestedScope` over the tokens, with `highest` and `highestRank`.
unfoldable pub highest_token : List Text → Text → ℤ → Text × ℤ
highest_token [] highest highest_rank = (highest, highest_rank)
highest_token (part ∷ parts) highest highest_rank = elim (normalize_scope part) [
  | err _ ↦ highest_token parts highest highest_rank
  | ok scope ↦ elim (ltb_ℤ highest_rank (pos (rank scope))) [
    | true ↦ highest_token parts scope (pos (rank scope))
    | false ↦ highest_token parts highest highest_rank
  ]
]

abbrev pub if_recognized : Text → Text × ℤ → Result ScopeError Text
if_recognized raw (highest, highest_rank) =
    if ltb_ℤ highest_rank (pos 0) then err (invalid_scope raw) else ok highest

-- `requestedScope`, on the trimmed text and on its fields
abbrev pub requested_parts : Text → List Text → Result ScopeError Text
requested_parts raw [] = ok []
requested_parts raw (p ∷ ps) = if_recognized raw (highest_token (p ∷ ps) [] (negsuc 0))

unfoldable pub requested_scope : Text → Result ScopeError Text
requested_scope raw =
    let raw = trim_space raw in if raw == [] then ok [] else requested_parts raw (fields raw)

unfoldable pub allowed_scope : Text → Text → Bool
allowed_scope scope allowed_max = leb (rank scope) (rank allowed_max)

-- `normalizeConfiguredScopes`: `seen` holds exactly what `out` holds, so one list stands for both.
unfoldable pub add_scope : Text → List Text → Result ScopeError (List Text)
add_scope raw out =
    let raw = trim_space raw in
    if raw == []
    then ok out
    else normalize_scope raw >>= λ scope. ok (if one_of out scope then out else out ++ scope ∷ [])

unfoldable pub add_scopes : List Text → List Text → Result ScopeError (List Text)
add_scopes [] out = ok out
add_scopes (raw ∷ rest) out = add_scope raw out >>= add_scopes rest

-- `sort.Slice` by rank
unfoldable pub insert_by_rank : Text → List Text → List Text
insert_by_rank s [] = s ∷ []
insert_by_rank s (t ∷ ts) = if leb (rank s) (rank t) then s ∷ t ∷ ts else t ∷ insert_by_rank s ts

unfoldable pub sort_by_rank : List Text → List Text
sort_by_rank [] = []
sort_by_rank (s ∷ ss) = insert_by_rank s (sort_by_rank ss)

abbrev pub or_read : List Text → List Text
or_read [] = read ∷ []
or_read (s ∷ ss) = s ∷ ss

unfoldable pub normalize_scopes : List Text → Text → Result ScopeError (List Text)
normalize_scopes scopes singular = add_scopes scopes [] >>= λ out.
    add_scope singular out >>= λ out'. ok (sort_by_rank (or_read out'))

-- `highestConfiguredScope`
unfoldable pub highest_from : List Text → Text → Text
highest_from [] highest = highest
highest_from (s ∷ ss) highest = highest_from ss (if ltb (rank highest) (rank s) then s else highest)

unfoldable pub highest_configured : List Text → Text
highest_configured [] = read
highest_configured (s ∷ ss) =
    let highest = highest_from ss s in if highest == [] then read else highest

-- The registry of tools. `byName` gets every definition that `defs` gets.
pub record ToolDef : Type 0 where
  pub name : Text
  pub required_scope : Text

pub record Registry : Type 0 where
  pub defs : List ToolDef
  pub by_name : Map Text ToolDef

abbrev pub new_registry : Registry
new_registry = record { defs = []; by_name = [] }

unfoldable pub register : ToolDef → Registry → Registry
register def r = record { defs = r.defs ++ def ∷ []; by_name = insert def.name def r.by_name }

abbrev pub required_of : Option ToolDef → Option Text
required_of none = none
required_of (some d) = some d.required_scope

unfoldable pub required_scope_for : Registry → Text → Option Text
required_scope_for r name = required_of (lookup name r.by_name)

-- The test in the loop of `ForScope`
unfoldable pub visible : ℤ → ToolDef → Bool
visible caller_rank d =
    d.required_scope == []
    || (leb_ℤ (pos 0) caller_rank && leb_ℤ (scope_rank d.required_scope) caller_rank)

unfoldable pub visible_defs : ℤ → List ToolDef → List ToolDef
visible_defs caller_rank [] = []
visible_defs caller_rank (d ∷ ds) =
    let rest = visible_defs caller_rank ds in if visible caller_rank d then d ∷ rest else rest

unfoldable pub for_scope : Registry → Text → List ToolDef
for_scope r scope = visible_defs (scope_rank scope) r.defs
