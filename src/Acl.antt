-- ===== src/Acl.antt =====
-- internal/oauth/acl.go: the scope policy of tools/call. Decoding of JSON is the section's
-- parameter.
pub mod Policy
use mcp_hugo_server_go.Base.{
  ℕ, Bool, true, false, not, List, [], ◌∷◌, Option, none, some, ltb, nat_beq, length, if◌then◌else◌,
}
use mcp_hugo_server_go.Base.Keys.{text_eq, ◌==◌}
use mcp_hugo_server_go.Base.Result.{Result, ok, err}
use mcp_hugo_server_go.Base.Text.{Text, codes, trim_space}
use mcp_hugo_server_go.Scope.{Registry, required_scope_for, rank}

-- `rpcEnvelope`; `params` is the undecoded text.
pub record RpcEnvelope : Type 0 where
  pub method : Text
  pub params : Text

abbrev pub unknown_tool : Text
unknown_tool = codes "unknown_tool"

abbrev pub forbidden_tool : Text
forbidden_tool = codes "forbidden_tool"

abbrev pub batch_too_large : Text
batch_too_large = codes "batch_too_large: maximum 50 requests"

abbrev pub max_batch_size : ℕ
max_batch_size = 50

-- `json.Unmarshal` at the three types that the policy decodes to; `none` is its error.
pub record Json : Type 0 where
  pub decode_batch : Text → Option (List RpcEnvelope)
  pub decode_single : Text → Option RpcEnvelope
  pub decode_name : Text → Option Text

-- The result `(false, reason)` is `some reason`, and `(true, "")` is `none`.
unfoldable pub check_known : Option Text → Text → Option Text
check_known none caller_scope = some unknown_tool
check_known (some required) caller_scope =
    if ltb (rank caller_scope) (rank required) then some forbidden_tool else none

unfoldable pub check_named : Registry → Option Text → Text → Option Text
check_named reg none caller_scope = some unknown_tool
check_named reg (some name) caller_scope =
    if name == [] then some unknown_tool else check_known (required_scope_for reg name) caller_scope

abbrev pub tools_call : Text
tools_call = codes "tools/call"

abbrev pub starts_array : Text → Bool
starts_array [] = false
starts_array (c ∷ s) = nat_beq c b'['

abbrev batch_of : Option (List RpcEnvelope) → Result Text (List RpcEnvelope)
batch_of none = err unknown_tool
batch_of (some batch) = if ltb max_batch_size (length batch) then err batch_too_large else ok batch

abbrev single_of : Option RpcEnvelope → Result Text (List RpcEnvelope)
single_of none = err unknown_tool
single_of (some env) = ok (env ∷ [])

module _ (json : Json) (reg : Registry) where
  open json use {decode_batch, decode_single, decode_name}

  unfoldable pub check_one : RpcEnvelope → Text → Option Text
  check_one env caller_scope =
      if not (env.method == tools_call)
      then none
      else check_named reg (decode_name env.params) caller_scope

  -- `parse`: the envelopes, or the reason why there are none
  unfoldable pub parse : Text → Result Text (List RpcEnvelope)
  parse body =
      let body = trim_space body in
      if body == []
      then err unknown_tool
      else if starts_array body
      then batch_of (decode_batch body)
      else single_of (decode_single body)

  -- The loop of `AllowRequest`
  unfoldable pub all_allowed : List RpcEnvelope → Text → Bool
  all_allowed [] caller_scope = true
  all_allowed (env ∷ envs) caller_scope = elim (check_one env caller_scope) [
    | none ↦ all_allowed envs caller_scope
    | some _ ↦ false
  ]

  unfoldable pub allow_request : Text → Text → Bool
  allow_request body caller_scope = elim (parse body) [
    | err _ ↦ false
    | ok envs ↦ all_allowed envs caller_scope
  ]

  -- The loop of `DenyReason`; the empty text means that nothing is denied.
  unfoldable pub first_reason : List RpcEnvelope → Text → Text
  first_reason [] caller_scope = []
  first_reason (env ∷ envs) caller_scope = elim (check_one env caller_scope) [
    | none ↦ first_reason envs caller_scope
    | some reason ↦ reason
  ]

  unfoldable pub deny_reason : Text → Text → Text
  deny_reason body caller_scope = elim (parse body) [
    | err reason ↦ reason
    | ok envs ↦ first_reason envs caller_scope
  ]
