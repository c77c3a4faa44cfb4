-- ===== src/Tests/Stores.antt =====
-- A store of tokens whose file holds the state itself.
use mcp_hugo_server_go.Base.{◌+◌, ◌*◌, ◌≡◌, refl, false, List, [], ◌∷◌, ◌++◌, map, none, some}
use mcp_hugo_server_go.Base.Result.{ok}
use mcp_hugo_server_go.Base.Map.{Map}
use mcp_hugo_server_go.Base.Text.{Text, codes}
use mcp_hugo_server_go.Tokens.{new_memory}
use mcp_hugo_server_go.JsonTokens.{
  JsonEntry, JsonRefreshEntry, JsonState, JsonStore, Codec, load, empty_store, second,
}
use mcp_hugo_server_go.JsonTokens.Steps.{Call, memory_run, json_run, rounded}
use mcp_hugo_server_go.JsonTokens.Reload.{IsFaithful, ReadsBack, restart_refines}

abbrev plain : Codec JsonState
plain = record {
  marshal = λ state. some state;
  is_empty = λ state. false;
  unmarshal_state = λ state. some state;
  unmarshal_legacy = λ state. none;
}

plain-ReadsBack :
    (tokens : Map Text JsonEntry) (refresh : Map Text JsonRefreshEntry) (b : JsonState)
    → plain.marshal (record { access_map = some tokens; refresh_map = some refresh }) ≡ some b
    → ReadsBack plain tokens refresh b
plain-ReadsBack tokens refresh b h =
    (refl, (tokens, some refresh, cc h, (λ u. u, λ k. refl), (λ u. u, λ k. refl)))

plain-IsFaithful : IsFaithful plain
plain-IsFaithful = record { total = λ state. (state, refl); reads_back = plain-ReadsBack }

abbrev before : List Call
before = Call.add_access (codes "a1") (codes "read") (codes "app") (9 * second + 5) ∷ []

abbrev after : List Call
after =
    Call.check_access_scope (codes "a1") (9 * second + 1)
    ∷ Call.check_access (codes "a1") (9 * second + 1)
    ∷ []

restart_refines_example :
    (s : JsonStore JsonState) × (load plain (ok (json_run plain (empty_store none) before).0.file)
      ≡ ok s)
    × ((memory_run new_memory (map rounded (before ++ after))).1
        ≡ (json_run plain (empty_store none) before).1 ++ (json_run plain s after).1)
restart_refines_example = restart_refines plain plain-IsFaithful before after
