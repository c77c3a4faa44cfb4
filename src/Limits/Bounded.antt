-- ===== src/Limits/Bounded.antt =====
-- No request makes the buckets more than the bound.
use mcp_hugo_server_go.Base.{
  ℕ, suc, ◌≤◌, ◌≡◌, ◌≢◌, refl, inl, inr, Bool, true, false, [], ◌∷◌, ◌++◌, Option, none, some, leb,
  nat_beq, arith, Bool-cases, length, leb→le,
}
use mcp_hugo_server_go.Base.Keys.{text_eq}
use mcp_hugo_server_go.Base.Map.{
  lookup, insert, remove, lookup-insert_self, length-insert-le, length-insert_old, length-remove-lt,
}
use mcp_hugo_server_go.Base.Text.{Text, text_beq_ne}
use mcp_hugo_server_go.Limits.{
  RateLimiter, RateLimitConfig, TokenBucket, RpcJson, new_rate_limiter, at_least_one, per_min_for,
  max_buckets, caller_key, gc, evict_oldest, room, fresh_limiter, limiter_with, limiter_for,
  passage, limited, middleware, mcp_tool_call_request,
}
use mcp_hugo_server_go.Limits.Buckets.{
  IsBounded, Earlier, insert-IsPaired, evict-IsPaired, touch-IsPaired, gc_loop-IsBounded,
  evicts_old, replace-IsPaired,
}

caller_key-named : (addr scope : Text) → caller_key addr scope ≢ []
unfolding caller_key
caller_key-named addr scope h = tail_named _ scope h
  where
    tail_named : (a b : Text) → a ++ (0 ∷ b) ≢ []
    tail_named [] b h = cc h
    tail_named (c ∷ a) b h = cc h

module _ {L : Type 0} (bucket : TokenBucket L) where
  module _ (rl : RateLimiter L) (key scope : Text) (now : ℕ) (n : key ≢ []) (p : IsBounded rl)
      (earlier : Earlier rl now) where
    abbrev seen_now : RateLimiter L
    seen_now = record rl { last_seen = insert key now rl.last_seen }

    not_full : (m : ℕ) → leb max_buckets m ≡ false → suc m ≤ max_buckets
    not_full m h = ground arith

    fresh-IsBounded :
        lookup key rl.limiters ≡ none
        → IsBounded (fresh_limiter bucket (room bucket seen_now) key scope).0
    unfolding evict_oldest
    fresh-IsBounded new = elim (Bool-cases (leb max_buckets (length rl.limiters))) [
      | inr x ↦ rw x (record {
        keyed = insert-IsPaired key _ now rl.limiters rl.last_seen n p.keyed;
        bounded = omega (
          arith,
          length-insert-le key (bucket.new_limiter (at_least_one (per_min_for rl.cfg scope)))
              rl.limiters,
          not_full (length rl.limiters) x,
        );
      })
      | inl x ↦
          let (o, l, first, named, other, has) =
            evicts_old key now rl n p earlier new
              (omega (arith, leb→le max_buckets (length rl.limiters) x)) in
          rw (x, first, text_beq_ne o [] named)
            (record {
              keyed = evict-IsPaired key o _ now rl.limiters rl.last_seen n other p.keyed;
              bounded = omega (
                arith,
                length-insert-le key (bucket.new_limiter (at_least_one (per_min_for rl.cfg scope)))
                    (remove o rl.limiters),
                length-remove-lt o l rl.limiters has,
                p.bounded,
              );
            })
    ]

    limiter_with-IsBounded :
        (o : Option L)
        → lookup key rl.limiters ≡ o
        → IsBounded (limiter_with bucket seen_now key scope o).0
    limiter_with-IsBounded none h = fresh-IsBounded h
    limiter_with-IsBounded (some l) h = record {
      keyed = touch-IsPaired key l now rl.limiters rl.last_seen n h p.keyed;
      bounded = p.bounded;
    }

    -- The bucket that is found is the caller's.
    limiter_with-found :
        (o : Option L)
        → lookup key rl.limiters ≡ o
        → lookup key (limiter_with bucket seen_now key scope o).0.limiters
          ≡ some (limiter_with bucket seen_now key scope o).1
    limiter_with-found none h = lookup-insert_self key _ _
    limiter_with-found (some l) h = h

    limiter_for-IsBounded : IsBounded (limiter_for bucket rl key scope now).0
    unfolding limiter_for
    limiter_for-IsBounded = limiter_with-IsBounded (lookup key rl.limiters) refl

    limiter_for-found :
        lookup key (limiter_for bucket rl key scope now).0.limiters
        ≡ some (limiter_for bucket rl key scope now).1
    unfolding limiter_for
    limiter_for-found = limiter_with-found (lookup key rl.limiters) refl

  passage-IsBounded :
      (rl : RateLimiter L) (l : L) (key id : Text) (x : L × ℕ)
      → IsBounded rl
      → lookup key rl.limiters ≡ some l
      → IsBounded (passage bucket (rl, l) key id x).0
  passage-IsBounded rl l key id (l', delay) p found = elim (Bool-cases (nat_beq delay 0)) [
    | inl x ↦ rw x (record {
      keyed = replace-IsPaired key l l' rl.limiters rl.last_seen found p.keyed;
      bounded = omega (arith, length-insert_old key l' l rl.limiters found, p.bounded);
    })
    | inr x ↦ rw x p
  ]

  limited-IsBounded :
      (rl : RateLimiter L) (key scope : Text) (now : ℕ) (q : Bool × Text)
      → key ≢ []
      → IsBounded rl
      → Earlier rl now
      → IsBounded (limited bucket rl key scope now q).0
  limited-IsBounded rl key scope now (false, id) n p earlier = p
  limited-IsBounded rl key scope now (true, id) n p earlier =
      passage-IsBounded (limiter_for bucket rl key scope now).0
        (limiter_for bucket rl key scope now).1 key id _
        (limiter_for-IsBounded rl key scope now n p earlier)
        (limiter_for-found rl key scope now n p earlier)

  -- A request keeps the buckets bounded, with one time of the last call for each bucket and none
  -- else, where every caller on record was seen before now; and so does the collection of idle
  -- callers.
  pub middleware-IsBounded :
      (rl : RateLimiter L) (json : RpcJson) (body : Option Text) (addr scope : Text) (now : ℕ)
      → IsBounded rl
      → Earlier rl now
      → IsBounded (middleware bucket rl json body addr scope now).0 × IsBounded (gc rl now)
  unfolding middleware gc
  middleware-IsBounded rl json body addr scope now p earlier = (
    limited-IsBounded rl (caller_key addr scope) scope now (mcp_tool_call_request json body)
        (caller_key-named addr scope) p earlier,
    gc_loop-IsBounded now rl.last_seen rl p,
  )

pub new_rate_limiter-IsBounded :
    {L : Type 0} (cfg : RateLimitConfig) → IsBounded {L = L} (new_rate_limiter cfg)
unfolding lookup
new_rate_limiter-IsBounded cfg = record {
  keyed = record {
    unique_limiters = tt;
    unique_seen = tt;
    named = refl;
    paired = λ k. (λ h. refl, λ h. refl);
  };
  bounded = omega arith;
}
