-- ===== src/Tests/Limits.antt =====
-- A limiter whose buckets are counts of the calls that are left.
use mcp_hugo_server_go.Base.{ℕ, zero, suc, ◌≡◌, refl, none, some}
use mcp_hugo_server_go.Base.Keys.{text_eq}
use mcp_hugo_server_go.Base.Map.{lookup, insert}
use mcp_hugo_server_go.Base.Text.{codes, trim_space, before_first, text_beq}
use mcp_hugo_server_go.Limits.{
  RateLimiter, RateLimitConfig, TokenBucket, RpcJson, refused, new_rate_limiter, caller_key,
  per_min_for, limiter_for, middleware, mcp_tool_call_request, gc,
}
use mcp_hugo_server_go.Limits.Buckets.{IsBounded}
use mcp_hugo_server_go.Limits.Bounded.{middleware-IsBounded, new_rate_limiter-IsBounded}

abbrev take_one : ℕ → ℕ → ℕ × ℕ
take_one zero now = (0, 1500000000)
take_one (suc n) now = (n, 0)

abbrev counts : TokenBucket ℕ
counts = record { new_limiter = λ n. n; reserve = take_one }

abbrev config : RateLimitConfig
config = record {
  content_read_per_min = 1;
  content_write_per_min = 1;
  site_admin_per_min = 1;
  anonymous_per_min = 1;
}

abbrev calls_only : RpcJson
calls_only = record {
  one_request = λ b. some (record { rpc_id = codes "7"; rpc_method = codes "tools/call" });
  many_requests = λ b. none;
}

abbrev start : RateLimiter ℕ
start = new_rate_limiter config

second_call_refused :
    (middleware counts
      (middleware counts start calls_only
        (some (codes "{}"))
        (codes "1.2.3.4:80")
        (codes "read")
        10).0
      calls_only
      (some (codes "{}"))
      (codes "1.2.3.4:81")
      (codes "read")
      20).1
    ≡ refused 2 (codes "7")
unfolding middleware mcp_tool_call_request trim_space caller_key before_first limiter_for
    per_min_for lookup insert text_beq
second_call_refused = refl

middleware-IsBounded_example :
    IsBounded
      (middleware counts start calls_only
        (some (codes "{}"))
        (codes "1.2.3.4:80")
        (codes "read")
        10).0
    × IsBounded (gc start 10)
middleware-IsBounded_example =
    middleware-IsBounded counts start calls_only (some (codes "{}")) (codes "1.2.3.4:80")
      (codes "read") 10 (new_rate_limiter-IsBounded config)
      (λ k t h. absurd (unfold lookup in cc h))
