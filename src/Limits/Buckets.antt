-- ===== src/Limits/Buckets.antt =====
-- The buckets are bounded, and each has the time its caller was seen.
use mcp_hugo_server_go.Base.{
  ℕ, ◌+◌, ◌≤◌, ◌<◌, ◌≡◌, ◌≢◌, ◌↔◌, refl, inl, inr, [], ◌∷◌, none, some, ltb, arith, Bool-cases,
  Option-cases, All, length,
}
use mcp_hugo_server_go.Base.Keys.{text_eq, ==_refl}
use mcp_hugo_server_go.Base.Map.{
  Map, Unique, lookup, insert, remove, lookup-insert, lookup-remove, insert-Unique, remove-Unique,
  length-remove-le, All-of_lookup,
}
use mcp_hugo_server_go.Base.Text.{Text, text_beq_iff}
use mcp_hugo_server_go.Limits.{RateLimiter, max_buckets, idle_ttl, oldest_in, gc_loop}
use mcp_hugo_server_go.Limits.Oldest.{IsSeen, IsOld-reached}

module _ {L : Type 0} where
  -- The two maps have the same keys, none of them empty.
  pub record IsPaired (limiters : Map Text L) (seen : Map Text ℕ) : Type 0 where
    pub unique_limiters : Unique limiters
    pub unique_seen : Unique seen
    pub named : lookup [] seen ≡ none
    pub paired : (k : Text) → (lookup k limiters ≡ none) ↔ (lookup k seen ≡ none)

  -- And there are not too many.
  pub record IsBounded (rl : RateLimiter L) : Type 0 where
    pub keyed : IsPaired rl.limiters rl.last_seen
    pub bounded : length rl.limiters ≤ max_buckets

  pub remove-IsPaired :
      (o : Text) (l : Map Text L) (s : Map Text ℕ)
      → IsPaired l s
      → IsPaired (remove o l) (remove o s)
  remove-IsPaired o l s p = record {
    unique_limiters = remove-Unique o l p.unique_limiters;
    unique_seen = remove-Unique o s p.unique_seen;
    named = ground (arith, lookup-remove o [] s, p.named);
    paired = λ k. ground (arith, lookup-remove o k l, lookup-remove o k s, p.paired k);
  }

  pub insert-IsPaired :
      (key : Text) (v : L) (t : ℕ) (l : Map Text L) (s : Map Text ℕ)
      → key ≢ []
      → IsPaired l s
      → IsPaired (insert key v l) (insert key t s)
  insert-IsPaired key v t l s n p = record {
    unique_limiters = insert-Unique key v l p.unique_limiters;
    unique_seen = insert-Unique key t s p.unique_seen;
    named = ground (arith, lookup-insert key [] t s, p.named, text_beq_iff key [], n);
    paired = λ k. ground (arith, lookup-insert key k v l, lookup-insert key k t s, p.paired k);
  }

  -- The bucket of another caller goes, and the caller's comes.
  pub evict-IsPaired :
      (key o : Text) (v : L) (t : ℕ) (l : Map Text L) (s : Map Text ℕ)
      → key ≢ []
      → o ≢ key
      → IsPaired l s
      → IsPaired (insert key v (remove o l)) (remove o (insert key t s))
  evict-IsPaired key o v t l s n other p = record {
    unique_limiters = insert-Unique key v (remove o l) (remove-Unique o l p.unique_limiters);
    unique_seen = remove-Unique o (insert key t s) (insert-Unique key t s p.unique_seen);
    named = ground (
      arith,
      lookup-remove o [] (insert key t s),
      lookup-insert key [] t s,
      p.named,
      text_beq_iff key [],
      n,
    );
    paired = λ k. ground (
      arith,
      lookup-insert key k v (remove o l),
      lookup-remove o k l,
      lookup-remove o k (insert key t s),
      lookup-insert key k t s,
      p.paired k,
      text_beq_iff o k,
      text_beq_iff key k,
      other,
    );
  }

  pub touch-IsPaired :
      (key : Text) (v : L) (t : ℕ) (l : Map Text L) (s : Map Text ℕ)
      → key ≢ []
      → lookup key l ≡ some v
      → IsPaired l s
      → IsPaired l (insert key t s)
  touch-IsPaired key v t l s n found p = record {
    unique_limiters = p.unique_limiters;
    unique_seen = insert-Unique key t s p.unique_seen;
    named = ground (arith, lookup-insert key [] t s, p.named, text_beq_iff key [], n);
    paired = λ k. ground (arith, lookup-insert key k t s, p.paired k, text_beq_iff key k);
  }

  pub replace-IsPaired :
      (key : Text) (v w : L) (l : Map Text L) (s : Map Text ℕ)
      → lookup key l ≡ some v
      → IsPaired l s
      → IsPaired (insert key w l) s
  replace-IsPaired key v w l s found p = record {
    unique_limiters = insert-Unique key w l p.unique_limiters;
    unique_seen = p.unique_seen;
    named = p.named;
    paired = λ k. ground (arith, lookup-insert key k w l, p.paired k, text_beq_iff key k);
  }

  pub gc_loop-IsBounded :
      (now : ℕ) (m : Map Text ℕ) (rl : RateLimiter L) → IsBounded rl → IsBounded (gc_loop now m rl)
  unfolding gc_loop
  gc_loop-IsBounded now [] rl p = p
  gc_loop-IsBounded now ((k, last) ∷ m) rl p = elim (Bool-cases (ltb (last + idle_ttl) now)) [
    | inl x ↦ rw x (
        gc_loop-IsBounded now m _ (record {
          keyed = remove-IsPaired k rl.limiters rl.last_seen p.keyed;
          bounded = omega (arith, length-remove-le k rl.limiters, p.bounded);
        }))
    | inr x ↦ rw x (gc_loop-IsBounded now m rl p)
  ]

  -- Every caller on record was seen before now.
  abbrev pub Earlier : RateLimiter L → ℕ → Type 0
  Earlier rl now = (k : Text) (t : ℕ) → lookup k rl.last_seen ≡ some t → t < now

  All-IsSeen :
      (key : Text) (now : ℕ) (rl : RateLimiter L)
      → key ≢ []
      → IsBounded rl
      → Earlier rl now
      → All (IsSeen (insert key now rl.last_seen) now) (insert key now rl.last_seen)
  All-IsSeen key now rl n p earlier =
      All-of_lookup (IsSeen (insert key now rl.last_seen) now) (insert key now rl.last_seen)
        (insert-Unique key now rl.last_seen p.keyed.unique_seen)
        (λ k t h. (
          λ empty.
              ground
                (arith, lookup-insert key k now rl.last_seen, p.keyed.named, text_beq_iff key k, n),
          h,
          ground (arith, lookup-insert key k now rl.last_seen, earlier k t),
        ))

  some_key : (m : Map Text L) → 0 < length m → (k : Text) × (v : L) × (lookup k m ≡ some v)
  unfolding lookup
  some_key [] h = absurd (omega arith)
  some_key ((k, v) ∷ m) h = (k, v, rw (==_refl k) refl)

  -- With a bucket on record and none of the caller's, eviction takes an older one.
  pub evicts_old :
      (key : Text) (now : ℕ) (rl : RateLimiter L)
      → key ≢ []
      → IsBounded rl
      → Earlier rl now
      → lookup key rl.limiters ≡ none
      → 0 < length rl.limiters
      → (o : Text) × (l : L) × (oldest_in [] 0 (insert key now rl.last_seen) ≡ o)
        × (o ≢ [])
        × (o ≢ key)
        × (lookup o rl.limiters ≡ some l)
  evicts_old key now rl n p earlier new filled =
      let seen = insert key now rl.last_seen in
      let (j, v, there) = some_key rl.limiters filled in
      elim (Option-cases (lookup j rl.last_seen)) [
        | inl gone ↦ absurd (cc (there, (p.keyed.paired j).1 gone))
        | inr (u, known) ↦
            let known' : lookup j seen ≡ some u =
              ground (arith, lookup-insert key j now rl.last_seen, text_beq_iff key j) in
            let (t, old) =
              IsOld-reached seen now seen [] 0 (All-IsSeen key now rl n p earlier) (inl refl) j u
                known' (earlier j u known) in
            let o = oldest_in [] 0 seen in
            let other : o ≢ key = λ same.
              ground
                (arith, old.1, old.2, lookup-insert key o now rl.last_seen, text_beq_iff key o) in
            let was : lookup o rl.last_seen ≡ some t =
              ground (arith, old.1, lookup-insert key o now rl.last_seen, text_beq_iff key o) in
            elim (Option-cases (lookup o rl.limiters)) [
              | inl none_there ↦ absurd (cc (was, (p.keyed.paired o).0 none_there))
              | inr (l, has) ↦ (o, l, refl, old.0, other, has)
            ]
      ]
