-- ===== src/Limits.antt =====
-- internal/oauth/ratelimit.go: the buckets of the callers. A token bucket is a library's: `L` is its
-- state, `new_limiter` makes one for so many calls per minute and as large a burst, and `reserve`
-- answers the delay in nanoseconds. Its state is the limiter itself, which `Cancel` gives back.
-- Times are natural numbers, so `last.Before(now - idleTTL)` is `last + idle_ttl < now`.
pub mod Oldest
pub mod Buckets
pub mod Bounded
use mcp_hugo_server_go.Base.{
  ℕ, ◌+◌, ◌*◌, ◌/◌, Bool, true, false, not, ◌&&◌, ◌||◌, List, [], ◌∷◌, ◌++◌, Option, none, some,
  ltb, leb, nat_beq, length, if◌then◌else◌,
}
use mcp_hugo_server_go.Base.Keys.{text_eq, ◌==◌}
use mcp_hugo_server_go.Base.Map.{Map, lookup, insert, remove}
use mcp_hugo_server_go.Base.Text.{Text, codes, trim_space, before_first}

abbrev pub max_buckets : ℕ
max_buckets = 10000

-- `idleTTL`, in nanoseconds
abbrev pub idle_ttl : ℕ
idle_ttl = 900000000000

-- `config.RateLimitConfig`, where 0 stands for a number that is not positive
pub record RateLimitConfig : Type 0 where
  pub content_read_per_min : ℕ
  pub content_write_per_min : ℕ
  pub site_admin_per_min : ℕ
  pub anonymous_per_min : ℕ

-- `RateLimiter`
pub record RateLimiter (L : Type 0) : Type 0 where
  pub limiters : Map Text L
  pub last_seen : Map Text ℕ
  pub cfg : RateLimitConfig

-- `NewRateLimiter`
abbrev pub new_rate_limiter : {L : Type 0} → RateLimitConfig → RateLimiter L
new_rate_limiter cfg = record { limiters = []; last_seen = []; cfg = cfg }

-- `callerKey`
unfoldable pub caller_key : Text → Text → Text
caller_key remote_addr scope =
    (if before_first b':' remote_addr == [] then remote_addr else before_first b':' remote_addr)
    ++ (0 ∷ scope)

-- `perMinFor`
unfoldable pub per_min_for : RateLimitConfig → Text → ℕ
per_min_for cfg scope =
    if scope == codes "content.read" || scope == codes "reader" || scope == codes "read"
    then cfg.content_read_per_min
    else if scope == codes "content.write"
    then cfg.content_write_per_min
    else if scope == codes "write" || scope == codes "admin" || scope == codes "site.admin"
    then cfg.site_admin_per_min
    else cfg.anonymous_per_min

-- The loop of `evictOldest`, with `oldest` and `oldestAt`
unfoldable pub oldest_in : Text → ℕ → Map Text ℕ → Text
oldest_in oldest oldest_at [] = oldest
oldest_in oldest oldest_at ((k, t) ∷ m) =
    let older = oldest == [] || ltb t oldest_at in
    oldest_in (if older then k else oldest) (if older then t else oldest_at) m

-- The loop of `gc`: a caller that has been idle is forgotten.
unfoldable pub gc_loop : {L : Type 0} → ℕ → Map Text ℕ → RateLimiter L → RateLimiter L
gc_loop now [] rl = rl
gc_loop now ((k, last) ∷ m) rl = gc_loop now m (
    if ltb (last + idle_ttl) now
    then record rl { limiters = remove k rl.limiters; last_seen = remove k rl.last_seen }
    else rl)

-- `gc`
unfoldable pub gc : {L : Type 0} → RateLimiter L → ℕ → RateLimiter L
gc rl now = gc_loop now rl.last_seen rl

abbrev pub evict : {L : Type 0} → RateLimiter L → Text → RateLimiter L
evict rl oldest =
    if oldest == []
    then rl
    else record rl { limiters = remove oldest rl.limiters; last_seen = remove oldest rl.last_seen }

-- `evictOldest`
unfoldable pub evict_oldest : {L : Type 0} → RateLimiter L → RateLimiter L
evict_oldest rl = evict rl (oldest_in [] 0 rl.last_seen)

abbrev pub at_least_one : ℕ → ℕ
at_least_one n = if ltb n 1 then 1 else n

-- The library's token bucket
pub record TokenBucket (L : Type 0) : Type 0 where
  pub new_limiter : ℕ → L
  -- `Reserve` and `Delay` at a time
  pub reserve : L → ℕ → L × ℕ

-- `jsonrpcRateLimitRequest`
pub record RpcRequest : Type 0 where
  pub rpc_id : Text
  pub rpc_method : Text

-- `json.Unmarshal` of a body into one request, and into a list of them
pub record RpcJson : Type 0 where
  pub one_request : Text → Option RpcRequest
  pub many_requests : Text → Option (List RpcRequest)

abbrev pub is_tool_call : RpcRequest → Bool
is_tool_call q = q.rpc_method == codes "tools/call"

-- The loop over a batch
unfoldable pub first_tool_call : List RpcRequest → Bool × Text
first_tool_call [] = (false, [])
first_tool_call (q ∷ qs) =
    let rest = first_tool_call qs in if is_tool_call q then (true, q.rpc_id) else rest

abbrev pub batch_call : Option (List RpcRequest) → Bool × Text
batch_call none = (false, [])
batch_call (some qs) = first_tool_call qs

abbrev pub rpc_call : RpcJson → Text → Option RpcRequest → Bool × Text
rpc_call json body none = batch_call (json.many_requests body)
rpc_call json body (some q) =
    if q.rpc_method == [] then batch_call (json.many_requests body) else (is_tool_call q, q.rpc_id)

-- `mcpToolCallRequest`; `none` where there is no body, it cannot be read, or the
-- method is not POST.
unfoldable pub mcp_tool_call_request : RpcJson → Option Text → Bool × Text
mcp_tool_call_request json none = (false, [])
mcp_tool_call_request json (some body) =
    if trim_space body == []
    then (false, [])
    else rpc_call json (trim_space body) (json.one_request (trim_space body))

-- What the middleware answers: it passes the request on, or the error with the seconds to wait and
-- the identifier of the request.
pub data Passage : Type 0 where
  passed : Passage
  refused : ℕ → Text → Passage

abbrev pub second : ℕ
second = 1000000000

-- `int(math.Ceil(delay.Seconds()))`, at least 1
abbrev pub retry_after : ℕ → ℕ
retry_after delay = at_least_one ((delay + 999999999) / second)

module _ {L : Type 0} (bucket : TokenBucket L) where
  open bucket use {new_limiter, reserve}

  abbrev pub room : RateLimiter L → RateLimiter L
  room rl = if leb max_buckets (length rl.limiters) then evict_oldest rl else rl

  abbrev pub fresh_limiter : RateLimiter L → Text → Text → RateLimiter L × L
  fresh_limiter rl key scope =
      let l = new_limiter (at_least_one (per_min_for rl.cfg scope)) in
      (record rl { limiters = insert key l rl.limiters }, l)

  abbrev pub limiter_with : RateLimiter L → Text → Text → Option L → RateLimiter L × L
  limiter_with rl key scope none = fresh_limiter (room rl) key scope
  limiter_with rl key scope (some l) = (rl, l)

  -- `limiterFor`
  unfoldable pub limiter_for : RateLimiter L → Text → Text → ℕ → RateLimiter L × L
  limiter_for rl key scope now =
      limiter_with (record rl { last_seen = insert key now rl.last_seen }) key scope
        (lookup key rl.limiters)

  abbrev pub passage : RateLimiter L × L → Text → Text → L × ℕ → RateLimiter L × Passage
  passage (rl, l) key id (l', delay) =
      if nat_beq delay 0
      then (record rl { limiters = insert key l' rl.limiters }, passed)
      else (rl, refused (retry_after delay) id)

  abbrev pub limited : RateLimiter L → Text → Text → ℕ → Bool × Text → RateLimiter L × Passage
  limited rl key scope now (false, id) = (rl, passed)
  limited rl key scope now (true, id) =
      let found = limiter_for rl key scope now in passage found key id (reserve found.1 now)

  -- `Middleware`
  unfoldable pub middleware :
      RateLimiter L → RpcJson → Option Text → Text → Text → ℕ → RateLimiter L × Passage
  middleware rl json body remote_addr scope now =
      limited rl (caller_key remote_addr scope) scope now (mcp_tool_call_request json body)
