-- ===== src/JsonTokens/Steps.antt =====
-- The calls of a store of tokens, on the store in memory and on the one in a file whose saves succeed.
use mcp_hugo_server_go.Base.{ℕ, ◌*◌, true, List, [], ◌∷◌, Option}
use mcp_hugo_server_go.Base.Result.{Result, ok, err}
use mcp_hugo_server_go.Base.Text.{Text}
use mcp_hugo_server_go.Tokens
use mcp_hugo_server_go.Tokens.{TokenStore, AccessEntry, NewTokens}
use mcp_hugo_server_go.JsonTokens
use mcp_hugo_server_go.JsonTokens.{JsonStore, Codec, StoreError, second, unix}

-- The interface `Store`
pub data Call : Type 0 where
  add_access : Text → Text → Text → ℕ → Call
  add_refresh : Text → Text → Text → ℕ → Call
  exchange : Text → Text → NewTokens → ℕ → Call
  purge : ℕ → Call
  check_access_scope : Text → ℕ → Call
  check_access : Text → ℕ → Call
  check_refresh : Text → Text → ℕ → Call

pub data Answer : Type 0 where
  done failed : Answer
  exchanged access_scope refresh_scope : Option Text → Answer
  access_details : Option AccessEntry → Answer

-- A time of expiry that a file can hold
abbrev pub whole : ℕ → ℕ
whole t = unix t * second

abbrev pub whole_tokens : NewTokens → NewTokens
whole_tokens n = record n {
  access_expires_at = whole n.access_expires_at;
  refresh_expires_at = whole n.refresh_expires_at;
}

-- The call with its times of expiry cut to seconds
abbrev pub rounded : Call → Call
rounded (add_access token scope principal expires) =
    add_access token scope principal (whole expires)
rounded (add_refresh token client scope expires) = add_refresh token client scope (whole expires)
rounded (exchange old client n now) = exchange old client (whole_tokens n) now
rounded (purge now) = purge now
rounded (check_access_scope token now) = check_access_scope token now
rounded (check_access token now) = check_access token now
rounded (check_refresh token client now) = check_refresh token client now

abbrev pub exchange_answer : TokenStore × Option Text → TokenStore × Answer
exchange_answer (s, out) = (s, exchanged out)

abbrev pub memory_call : TokenStore → Call → TokenStore × Answer
memory_call s (add_access token scope principal expires) =
    (Tokens.add_access_token s token scope principal expires, done)
memory_call s (add_refresh token client scope expires) =
    (Tokens.add_refresh_token s token client scope expires, done)
memory_call s (exchange old client n now) =
    exchange_answer (Tokens.exchange_refresh_token s old client n now)
memory_call s (purge now) = (Tokens.purge_expired_tokens s now, done)
memory_call s (check_access_scope token now) =
    (s, access_scope (Tokens.validate_access_token s token now))
memory_call s (check_access token now) =
    (s, access_details (Tokens.validate_access_token_details s token now))
memory_call s (check_refresh token client now) =
    (s, refresh_scope (Tokens.validate_refresh_token s token client now))

abbrev pub save_answer : {B : Type 0} → JsonStore B × Result StoreError Unit → JsonStore B × Answer
save_answer (s, ok x) = (s, done)
save_answer (s, err e) = (s, failed)

abbrev pub json_exchange_answer :
    {B : Type 0} → JsonStore B × Result StoreError (Option Text) → JsonStore B × Answer
json_exchange_answer (s, ok out) = (s, exchanged out)
json_exchange_answer (s, err e) = (s, failed)

module _ {B : Type 0} (codec : Codec B) where
  abbrev pub json_call : JsonStore B → Call → JsonStore B × Answer
  json_call s (add_access token scope principal expires) =
      save_answer (JsonTokens.add_access_token codec s token scope principal expires true)
  json_call s (add_refresh token client scope expires) =
      save_answer (JsonTokens.add_refresh_token codec s token client scope expires true)
  json_call s (exchange old client n now) =
      json_exchange_answer (JsonTokens.exchange_refresh_token codec s old client n now true)
  json_call s (purge now) = save_answer (JsonTokens.purge_expired_tokens codec s now true)
  json_call s (check_access_scope token now) =
      (s, access_scope (JsonTokens.validate_access_token s token now))
  json_call s (check_access token now) =
      (s, access_details (JsonTokens.validate_access_token_details s token now))
  json_call s (check_refresh token client now) =
      (s, refresh_scope (JsonTokens.validate_refresh_token s token client now))

-- The store after the calls, and the answers
unfoldable pub memory_run : TokenStore → List Call → TokenStore × List Answer
memory_run m [] = (m, [])
memory_run m (c ∷ cs) =
    let next = memory_call m c in let rest = memory_run next.0 cs in (rest.0, next.1 ∷ rest.1)

unfoldable pub json_run :
    {B : Type 0} → Codec B → JsonStore B → List Call → JsonStore B × List Answer
json_run codec s [] = (s, [])
json_run codec s (c ∷ cs) =
    let next = json_call codec s c in
    let rest = json_run codec next.0 cs in (rest.0, next.1 ∷ rest.1)
