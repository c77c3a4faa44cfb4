-- ===== src/Tests/Changes.antt =====
-- Change sets of two callers, without a database.
use mcp_hugo_server_go.Base.{◌≡◌, ◌≢◌, refl, [], none, some, if◌then◌else◌}
use mcp_hugo_server_go.Base.Keys.{text_eq, ◌==◌}
use mcp_hugo_server_go.Base.Map.{lookup}
use mcp_hugo_server_go.Base.Result.{ok, err}
use mcp_hugo_server_go.Base.Text.{codes, text_beq, text_ne}
use mcp_hugo_server_go.Caller.{Context, mutation_key}
use mcp_hugo_server_go.Changes.{
  Owner, Mutation, Database, Registry, not_usable, new_registry, create, resolve, peek,
  record_mutation, owner_of_source_key, new_id,
}
use mcp_hugo_server_go.Changes.Latest.{IsLatest, owner_of_source_key-IsLatest}
use mcp_hugo_server_go.Changes.Owners.{Run, done, next, recorded}
use mcp_hugo_server_go.Changes.Usable.{create_usable, resolve_hides}

abbrev nothing : Database Unit
nothing = record {
  get_change_set_owner = λ d id. ok none;
  create_change_set = λ d id p now. d;
  set_declared_untrusted = λ d id b note. d;
  touch_change_set = λ d id now. d;
  record_change_set_mutation = λ d e. d;
}

abbrev bob_context : Context
bob_context = record {
  ctx_principal = none;
  ctx_token_id = some (codes "bob");
  ctx_caller_ip = none;
}

abbrev empty : Registry Unit
empty = new_registry none

abbrev edit : Mutation
edit = record {
  change_set_id = codes "cs_1";
  principal = codes "alice";
  tool = codes "update_page";
  source_key = codes "posts/a.md";
  mutation_type = codes "update";
  recorded_at = 7;
}

owner_of_source_key-IsLatest_example :
    IsLatest
      (codes "posts/a.md")
      (record_mutation nothing empty edit).mutations
      (owner_of_source_key (record_mutation nothing empty edit) (codes "posts/a.md"))
owner_of_source_key-IsLatest_example =
    owner_of_source_key-IsLatest (record_mutation nothing empty edit) (codes "posts/a.md")

abbrev made : Registry Unit
made = (create nothing empty (some (codes "1")) (codes "alice") 3).0

abbrev edited : Registry Unit
edited = record_mutation nothing made edit

edits : Run nothing made edited
edits = next (recorded edit) done

create_usable_example :
    ((resolve nothing edited bob_context (new_id (codes "1")) 9).1 ≡ (
      if codes "alice" == mutation_key bob_context
      then ok (new_id (codes "1"))
      else err not_usable))
    × (codes "alice" ≢ mutation_key bob_context
        → (resolve nothing edited bob_context (new_id (codes "1")) 9).0 ≡ edited)
create_usable_example =
    create_usable nothing empty edited (codes "1") (codes "alice") 3 9 bob_context
      (text_ne (codes "alice") [] (unfold text_beq in refl)) edits

nobody :
    (o : Owner)
    → lookup (codes "cs_9") empty.owners ≡ some o
    → o.principal_id ≢ mutation_key bob_context
unfolding new_registry lookup
nobody o h = cc

resolve_hides_example :
    (resolve nothing empty bob_context (codes "cs_9") 4 ≡ (empty, err not_usable))
    × (peek nothing empty bob_context (codes "cs_9") ≡ (empty, err not_usable))
resolve_hides_example =
    resolve_hides nothing empty bob_context (codes "cs_9") 4
      (text_ne (codes "cs_9") [] (unfold text_beq in refl)) (unfold new_registry in refl) nobody
