-- ===== src/Caller.antt =====
-- internal/caller/caller.go: the identity of a caller, from the values the server put in the
-- request's context. A value that is absent, or not a string, is `none`.
pub mod Order
use mcp_hugo_server_go.Base.{Bool, List, [], ◌∷◌, Option, none, some, if◌then◌else◌}
use mcp_hugo_server_go.Base.Keys.{text_eq, ◌==◌}
use mcp_hugo_server_go.Base.Text.{Text, codes, trim_space}

-- The values `oauth.CtxPrincipal`, `oauth.CtxTokenID` and `oauth.CtxCallerIP` of a context
pub record Context : Type 0 where
  pub ctx_principal : Option Text
  pub ctx_token_id : Option Text
  pub ctx_caller_ip : Option Text

-- `s, _ := ctx.Value(k).(string)`
abbrev pub text_of : Option Text → Text
text_of none = []
text_of (some s) = s

-- `strings.TrimSpace(s) == ""`
abbrev pub blank : Text → Bool
blank s = trim_space s == []

-- `TokenKey`
unfoldable pub token_key : Context → Text
token_key ctx =
    if blank (text_of ctx.ctx_token_id)
    then if blank (text_of ctx.ctx_caller_ip) then [] else text_of ctx.ctx_caller_ip
    else text_of ctx.ctx_token_id

-- `Key`
unfoldable pub key : Context → Text
key ctx = if blank (text_of ctx.ctx_principal) then token_key ctx else text_of ctx.ctx_principal

abbrev pub unknown : Text
unknown = codes "unknown"

-- `MutationKey`
unfoldable pub mutation_key : Context → Text
mutation_key ctx = if key ctx == [] then unknown else key ctx

-- `Source`
unfoldable pub source : Context → Text
source ctx =
    if blank (text_of ctx.ctx_principal)
    then if blank (text_of ctx.ctx_token_id)
      then if blank (text_of ctx.ctx_caller_ip) then unknown else codes "ip"
      else codes "token"
    else codes "principal"
