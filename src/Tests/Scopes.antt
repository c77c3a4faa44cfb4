-- ===== src/Tests/Scopes.antt =====
-- Scopes of a request and of a client.
use mcp_hugo_server_go.Base.{◌≡◌, ◌≢◌, ◌↔◌, refl, inl, inr, ◌⊎◌, [], ◌∷◌, All, Any, any}
use mcp_hugo_server_go.Base.Int.{pos}
use mcp_hugo_server_go.Base.Keys.{text_eq}
use mcp_hugo_server_go.Base.Result.{ok}
use mcp_hugo_server_go.Base.Text.{Text, codes, text_beq, trim_space, fields}
use mcp_hugo_server_go.Scope.{
  read, write, admin, one_of, scope_rank, rank, canonical_scope, normalize_scope,
  normalize_canonical, highest_token, requested_scope, add_scope, add_scopes, insert_by_rank,
  sort_by_rank, normalize_scopes, ToolDef, Registry, register, new_registry, for_scope,
}
use mcp_hugo_server_go.Scope.Alias.{IsCanonical}
use mcp_hugo_server_go.Scope.Requested.{
  requested_scope-IsHighest, requested_scope_grants, IsHighest, tokens, Recognized,
}
use mcp_hugo_server_go.Scope.Configured.{normalize_scopes-Ascending, Ascending}
use mcp_hugo_server_go.Scope.Visible.{for_scope-Callable, Callable}

abbrev asked : Text
asked = codes "openid reader content.write"

granted : requested_scope asked ≡ ok write
unfolding requested_scope highest_token normalize_scope normalize_canonical canonical_scope one_of
    any rank scope_rank trim_space fields text_beq
granted = refl

requested_scope-IsHighest_example :
    ((tokens asked ≡ []) × (write ≡ [])) ⊎ IsHighest (tokens asked) write
requested_scope-IsHighest_example = requested_scope-IsHighest asked write granted

reader_token : Recognized (codes "reader")
unfolding normalize_scope normalize_canonical canonical_scope one_of any trim_space text_beq
reader_token = (read, refl)

some_token : Any Recognized (tokens asked)
unfolding trim_space fields
some_token = inr (inl reader_token)

requested_scope_grants_example : (s : Text) × (requested_scope asked ≡ ok s)
requested_scope_grants_example = requested_scope_grants asked some_token

configured :
    normalize_scopes (codes "write" ∷ codes "mcp" ∷ codes "read" ∷ []) (codes "admin")
    ≡ ok (read ∷ write ∷ admin ∷ [])
unfolding normalize_scopes add_scopes add_scope sort_by_rank insert_by_rank normalize_scope
    normalize_canonical canonical_scope one_of any rank scope_rank trim_space text_beq
configured = refl

normalize_scopes-Ascending_example :
    (read ∷ write ∷ admin ∷ [] ≢ [])
    × All IsCanonical (read ∷ write ∷ admin ∷ [])
    × Ascending 0 (read ∷ write ∷ admin ∷ [])
normalize_scopes-Ascending_example =
    normalize_scopes-Ascending (codes "write" ∷ codes "mcp" ∷ codes "read" ∷ []) (codes "admin")
      (read ∷ write ∷ admin ∷ []) configured

abbrev list_pages : ToolDef
list_pages = record { name = codes "list_pages"; required_scope = read }

abbrev tools : Registry
tools = register list_pages new_registry

write_known : scope_rank write ≡ pos 1
unfolding scope_rank text_beq
write_known = refl

for_scope-Callable_example :
    Any (λ x. list_pages ≡ x) (for_scope tools write)
    ↔ (Any (λ x. list_pages ≡ x) tools.defs × Callable write list_pages)
for_scope-Callable_example = for_scope-Callable tools write 1 list_pages write_known
