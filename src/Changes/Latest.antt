-- ===== src/Changes/Latest.antt =====
-- `OwnerOfSourceKey` and the record of mutations.
use mathlib.Core.Option
use mathlib.Core.Path.{subst}
use mcp_hugo_server_go.Base.{
  ℕ, ◌≤◌, ◌≡◌, ◌≢◌, refl, sym, ◌∙◌, ap, ◌⊎◌, inl, inr, true, false, List, [], ◌∷◌, ◌++◌, Option,
  none, some, arith, Bool-cases, All, Any, if◌then◌else◌,
}
use mcp_hugo_server_go.Base.Keys.{text_eq, ◌==◌}
use mcp_hugo_server_go.Base.Map.{Map, insert, lookup-insert}
use mcp_hugo_server_go.Base.Text.{Text, text_beq, text_beq_iff}
use mcp_hugo_server_go.Changes.{
  Mutation, Database, Registry, Latest, is_later, latest_in, latest_of, owner_of_source_key,
  mutations_at, record_mutation, mutations_for,
}

mutations_at-insert :
    (m : Map Text (List Mutation)) (k id : Text) (es : List Mutation)
    → mutations_at (insert k es m) id ≡ (if k == id then es else mutations_at m id)
unfolding mutations_at
mutations_at-insert m k id es = elim (Bool-cases (text_beq k id)) [
  | inl same ↦ rw (lookup-insert k id es m, mutations_at) (rw (same, mutations_at))
  | inr other ↦ rw (lookup-insert k id es m, mutations_at) (rw (other, mutations_at))
]

-- A mutation is on record after others of its change set, and no other change set's record is
-- touched.
pub mutations_for-record_mutation :
    {D : Type 0} (database : Database D) (r : Registry D) (e : Mutation) (id : Text)
    → mutations_for database (record_mutation database r e) id ≡ (
        if e.change_set_id == id
        then mutations_for database r id ++ (e ∷ [])
        else mutations_for database r id)
unfolding mutations_for record_mutation
mutations_for-record_mutation database r e id = elim (Bool-cases (text_beq e.change_set_id id)) [
  | inl same ↦
      rw (mutations_at-insert, same)
        (ap (λ k. mutations_at r.mutations k ++ (e ∷ []))
          ((text_beq_iff e.change_set_id id).0 same))
  | inr other ↦ rw (mutations_at-insert, other)
]

-- The time found is at least `t`.
abbrev AtLeast : Latest → ℕ → Type 0
AtLeast none t = ⊥
AtLeast (some (id, u)) t = t ≤ u

abbrev Above : Latest → Latest → Type 0
Above none out = Unit
Above (some (id, t)) out = AtLeast out t

Above-trans : (a b c : Latest) → Above a b → Above b c → Above a c
Above-trans none b c h k = tt
Above-trans (some (i, t)) none c h k = absurd h
Above-trans (some (i, t)) (some (j, u)) none h k = absurd k
Above-trans (some (i, t)) (some (j, u)) (some (l, v)) h k = omega arith

-- A mutation of the source key at the time.
abbrev pub Touches : Text → ℕ → Mutation → Type 0
Touches key t e = (e.source_key ≡ key) × (e.recorded_at ≡ t)

abbrev Bounds : Text → Latest → Mutation → Type 0
Bounds key out e = e.source_key ≡ key → AtLeast out e.recorded_at

-- What the inner loop finds
abbrev FoundIn : Text → Text → List Mutation → Latest → Latest → Type 0
FoundIn key id es best out =
    Above best out
    × All (Bounds key out) es
    × ((out ≡ best) ⊎ ((t : ℕ) × (out ≡ some (id, t)) × Any (Touches key t) es))

abbrev step : Text → Text → Mutation → Latest → Latest
step key id e best =
    if e.source_key == key
    then if is_later e.recorded_at best then some (id, e.recorded_at) else best
    else best

Above-refl : (a : Latest) → Above a a
Above-refl none = tt
Above-refl (some (id, t)) = omega arith

AtLeast-kept : (t : ℕ) (best : Latest) → is_later t best ≡ false → AtLeast best t
AtLeast-kept t none h = cc
AtLeast-kept t (some (id, u)) h = ground arith

Above-later :
    (id : Text) (t : ℕ) (best : Latest) → is_later t best ≡ true → Above best (some (id, t))
Above-later id t none h = tt
Above-later id t (some (j, u)) h = ground arith

module _ (key id : Text) (e : Mutation) (best : Latest) where
  step-Found : FoundIn key id (e ∷ []) best (step key id e best)
  step-Found = elim (Bool-cases (text_beq e.source_key key)) [
    | inr other ↦
        let kept : step key id e best ≡ best = rw other in
        subst (FoundIn key id (e ∷ []) best) (sym kept) (
          Above-refl best,
          (λ same. absurd (cc (other, (text_beq_iff e.source_key key).1 same)), tt),
          inl refl,
        )
    | inl same ↦ elim (Bool-cases (is_later e.recorded_at best)) [
      | inr old ↦
          let kept : step key id e best ≡ best = rw (same, old) in
          subst (FoundIn key id (e ∷ []) best) (sym kept)
            (Above-refl best, (λ _. AtLeast-kept e.recorded_at best old, tt), inl refl)
      | inl new ↦
          let found : step key id e best ≡ some (id, e.recorded_at) = rw (same, new) in
          subst (FoundIn key id (e ∷ []) best) (sym found) (
            Above-later id e.recorded_at best new,
            (λ _. omega arith, tt),
            inr (e.recorded_at, refl, inl ((text_beq_iff e.source_key key).0 same, refl)),
          )
    ]
  ]

Bounds-up :
    (key : Text) (a b : Latest) (es : List Mutation)
    → Above a b
    → All (Bounds key a) es
    → All (Bounds key b) es
Bounds-up key a b [] up h = tt
Bounds-up key none b (e ∷ es) up (h, hs) = (λ same. absurd (h same), Bounds-up key none b es up hs)
Bounds-up key (some (id, t)) none (e ∷ es) up h = absurd up
Bounds-up key (some (id, t)) (some (j, u)) (e ∷ es) up (h, hs) =
    (λ same. omega (arith, up, h same), Bounds-up key (some (id, t)) (some (j, u)) es up hs)

Found-cons :
    (key id : Text) (e : Mutation) (es : List Mutation) (a b c : Latest)
    → (b ≡ a) ⊎ ((t : ℕ) × (b ≡ some (id, t)) × Any (Touches key t) (e ∷ []))
    → (c ≡ b) ⊎ ((t : ℕ) × (c ≡ some (id, t)) × Any (Touches key t) es)
    → (c ≡ a) ⊎ ((t : ℕ) × (c ≡ some (id, t)) × Any (Touches key t) (e ∷ es))
Found-cons key id e es a b c f (inr (t, x, k)) = inr (t, x, inr k)
Found-cons key id e es a b c (inl x) (inl y) = inl (y ∙ x)
Found-cons key id e es a b c (inr (t, x, inl k)) (inl y) = inr (t, y ∙ x, inl k)
Found-cons key id e es a b c (inr (t, x, inr k)) (inl y) = absurd k

FoundIn-cons :
    (key id : Text) (e : Mutation) (es : List Mutation) (a b c : Latest)
    → FoundIn key id (e ∷ []) a b
    → FoundIn key id es b c
    → FoundIn key id (e ∷ es) a c
FoundIn-cons key id e es a b c (up, (h, _), f) (up', hs, f') = (
  Above-trans a b c up up',
  ((Bounds-up key b c (e ∷ []) up' (h, tt)).0, hs),
  Found-cons key id e es a b c f f',
)

latest_in-Found :
    (key id : Text) (es : List Mutation) (best : Latest)
    → FoundIn key id es best (latest_in key id es best)
unfolding latest_in
latest_in-Found key id [] best = (Above-refl best, tt, inl refl)
latest_in-Found key id (e ∷ es) best =
    FoundIn-cons key id e es best (step key id e best) _ (step-Found key id e best)
      (latest_in-Found key id es (step key id e best))

-- What the outer loop finds
abbrev FoundOf : Text → Map Text (List Mutation) → Latest → Latest → Type 0
FoundOf key m best out =
    Above best out
    × All (λ p. All (Bounds key out) p.1) m
    × ((out ≡ best)
        ⊎ ((id : Text) × (t : ℕ) × (out ≡ some (id, t))
            × Any (λ p. (p.0 ≡ id) × Any (Touches key t) p.1) m))

FoundOf-cons :
    (key id : Text) (es : List Mutation) (m : Map Text (List Mutation)) (a b c : Latest)
    → FoundIn key id es a b
    → FoundOf key m b c
    → FoundOf key ((id, es) ∷ m) a c
FoundOf-cons key id es m a b c (up, hs, f) (up', hs', inr (i, t, x, k)) =
    (Above-trans a b c up up', (Bounds-up key b c es up' hs, hs'), inr (i, t, x, inr k))
FoundOf-cons key id es m a b c (up, hs, inl x) (up', hs', inl y) =
    (Above-trans a b c up up', (Bounds-up key b c es up' hs, hs'), inl (y ∙ x))
FoundOf-cons key id es m a b c (up, hs, inr (t, x, k)) (up', hs', inl y) = (
  Above-trans a b c up up',
  (Bounds-up key b c es up' hs, hs'),
  inr (id, t, y ∙ x, inl (refl, k)),
)

latest_of-Found :
    (key : Text) (m : Map Text (List Mutation)) (best : Latest)
    → FoundOf key m best (latest_of key m best)
unfolding latest_of
latest_of-Found key [] best = (Above-refl best, tt, inl refl)
latest_of-Found key ((id, es) ∷ m) best =
    let here = latest_in-Found key id es best in
    FoundOf-cons key id es m best (latest_in key id es best) _ here
      (latest_of-Found key m (latest_in key id es best))

-- Every mutation of the source key was recorded at the time or before.
abbrev pub NoneAfter : Text → ℕ → Map Text (List Mutation) → Type 0
NoneAfter key t = All (λ p. All (λ e. e.source_key ≡ key → e.recorded_at ≤ t) p.1)

-- No mutation is of the source key.
abbrev pub Untouched : Text → Map Text (List Mutation) → Type 0
Untouched key = All (λ p. All (λ e. e.source_key ≢ key) p.1)

-- The record of the change set has a mutation of the source key, and none is later in any record.
abbrev pub IsLatest : Text → Map Text (List Mutation) → Option Text → Type 0
IsLatest key m none = Untouched key m
IsLatest key m (some id) =
    (t : ℕ) × Any (λ p. (p.0 ≡ id) × Any (Touches key t) p.1) m × NoneAfter key t m

latest-IsLatest :
    (key : Text) (m : Map Text (List Mutation)) (out : Latest)
    → FoundOf key m none out
    → IsLatest key m (Option.map (λ (p : Text × ℕ). p.0) out)
latest-IsLatest key m none (_, hs, f) = hs
latest-IsLatest key m (some (id, t)) (_, hs, inl x) = absurd (cc x)
latest-IsLatest key m (some (id, t)) (_, hs, inr (i, u, x, k)) =
    let same_id : i ≡ id = cc x in
    let same_time : u ≡ t = cc x in
    let at_id = subst (λ j. Any (λ p. (p.0 ≡ j) × Any (Touches key u) p.1) m) same_id k in
    (t, subst (λ v. Any (λ p. (p.0 ≡ id) × Any (Touches key v) p.1) m) same_time at_id, hs)

-- The change set found for a source key has a mutation of it on record, and no record has a later
-- one; none is found only where no record has a mutation of it.
pub owner_of_source_key-IsLatest :
    {D : Type 0} (r : Registry D) (key : Text)
    → IsLatest key r.mutations (owner_of_source_key r key)
unfolding owner_of_source_key
owner_of_source_key-IsLatest r key =
    latest-IsLatest key r.mutations (latest_of key r.mutations none)
      (latest_of-Found key r.mutations none)
