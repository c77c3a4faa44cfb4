-- ===== src/Tests/Calls.antt =====
-- Calls of tools under the scope policy. The decoder knows one body.
use mcp_hugo_server_go.Base.{◌≤◌, ◌≡◌, refl, true, List, none, some, All, length, if◌then◌else◌}
use mcp_hugo_server_go.Base.Keys.{text_eq, ◌==◌}
use mcp_hugo_server_go.Base.Map.{lookup, insert}
use mcp_hugo_server_go.Base.Result.{ok}
use mcp_hugo_server_go.Base.Text.{codes, text_beq, trim_space}
use mcp_hugo_server_go.Scope.{
  read, write, scope_rank, rank, Registry, register, new_registry, required_scope_for,
}
use mcp_hugo_server_go.Acl.{
  RpcEnvelope, Json, max_batch_size, check_known, check_named, check_one, parse, all_allowed,
  allow_request,
}
use mcp_hugo_server_go.Acl.Policy.{allow_request_sound, IsPermitted}

abbrev call : RpcEnvelope
call = record { method = codes "tools/call"; params = codes "list_pages" }

abbrev decoder : Json
decoder = record {
  decode_batch = λ s. none;
  decode_single = λ s. if s == codes "{}" then some call else none;
  decode_name = λ s. some s;
}

abbrev tools : Registry
tools = register (record { name = codes "list_pages"; required_scope = read }) new_registry

allowed : allow_request decoder tools (codes "{}") write ≡ true
unfolding allow_request parse all_allowed check_one check_named check_known required_scope_for
    register lookup insert rank scope_rank trim_space text_beq
allowed = refl

allow_request_sound_example :
    (envs : List RpcEnvelope) × (parse decoder tools (codes "{}") ≡ ok envs)
    × (length envs ≤ max_batch_size)
    × All (IsPermitted decoder tools write) envs
allow_request_sound_example = allow_request_sound decoder tools (codes "{}") write allowed
