-- ===== src/Base/Map.antt =====
-- Go's maps as association lists; an arbitrary list stands for an arbitrary order of iteration.
use mathlib.Core.Path.{◌≡◌, refl}
use mathlib.Core.Bool.{Bool}
use mathlib.Core.List.{List, [], ◌∷◌}
use mathlib.Core.Option.{Option, none, some}
use Prim.Native.Nat.{suc, ◌≤◌}
use native.Mathlib.Omega.{arith}
use mcp_hugo_server_go.Base.Tests.{if◌then◌else◌}
use mcp_hugo_server_go.Base.Lists.{length, All}
use mcp_hugo_server_go.Base.Keys.{Comparable, ◌==◌, ==_refl}

abbrev pub Map : Type 0 → Type 0 → Type 0
Map K V = List (K × V)

abbrev pub keep_if : {V : Type 0} → (V → Bool) → Option V → Option V
keep_if p none = none
keep_if p (some v) = if p v then some v else none

module _ {K V : Type 0} ⦃e : Comparable K⦄ where
  -- `v, ok := m[k]`
  unfoldable pub lookup : K → Map K V → Option V
  lookup k [] = none
  lookup k ((key, value) ∷ rest) = if key == k then some value else lookup k rest

  -- A key has one entry, as in every Go map.
  abbrev pub Unique : Map K V → Type 0
  Unique [] = Unit
  Unique ((k, v) ∷ m) = (lookup k m ≡ none) × Unique m

  -- `delete(m, k)`
  unfoldable pub remove : K → Map K V → Map K V
  remove k [] = []
  remove k ((key, value) ∷ rest) = if key == k then remove k rest else (key, value) ∷ remove k rest

  -- `m[k] = v`
  unfoldable pub insert : K → V → Map K V → Map K V
  insert k v [] = (k, v) ∷ []
  insert k v ((key, value) ∷ rest) =
      let later = insert k v rest in if key == k then (k, v) ∷ rest else (key, value) ∷ later

  -- What an assignment changes.
  pub lookup-insert :
      (new k : K) (v : V) (m : Map K V)
      → lookup k (insert new v m) ≡ (if new == k then some v else lookup k m)
  unfolding insert lookup
  lookup-insert new k v [] = ground arith
  lookup-insert new k v ((key, value) ∷ rest) =
      let ih = lookup-insert new k v rest in
      ground (arith, ih, e.same_iff key new, e.same_iff key k, e.same_iff new k)

  pub lookup-remove :
      (k j : K) (m : Map K V) → lookup j (remove k m) ≡ (if k == j then none else lookup j m)
  unfolding lookup remove
  lookup-remove k j [] = ground arith
  lookup-remove k j ((i, w) ∷ m) =
      ground (arith, e.same_iff k j, e.same_iff i k, e.same_iff i j, lookup-remove k j m)

  pub lookup-insert_self : (k : K) (v : V) (m : Map K V) → lookup k (insert k v m) ≡ some v
  lookup-insert_self k v m = rw (lookup-insert, ==_refl k)

  pub lookup-remove_self : (k : K) (m : Map K V) → lookup k (remove k m) ≡ none
  lookup-remove_self k m = rw (lookup-remove, ==_refl k)

  pub insert-Unique : (k : K) (v : V) (m : Map K V) → Unique m → Unique (insert k v m)
  unfolding insert lookup
  insert-Unique k v [] u = ground arith
  insert-Unique k v ((i, w) ∷ m) u =
      ground (arith, e.same_iff i k, e.same_iff k i, lookup-insert k i v m, insert-Unique k v m u.1)

  pub remove-Unique : (k : K) (m : Map K V) → Unique m → Unique (remove k m)
  unfolding remove
  remove-Unique k [] u = tt
  remove-Unique k ((i, w) ∷ m) u = ground (arith, lookup-remove k i m, remove-Unique k m u.1)

  pub length-remove-le : (k : K) (m : Map K V) → length (remove k m) ≤ length m
  unfolding remove
  length-remove-le k [] = omega arith
  length-remove-le k ((i, w) ∷ m) = ground (arith, length-remove-le k m)

  -- Removing a key that is there makes the map smaller.
  pub length-remove-lt :
      (k : K) (v : V) (m : Map K V) → lookup k m ≡ some v → suc (length (remove k m)) ≤ length m
  unfolding remove lookup
  length-remove-lt k v [] h = cc
  length-remove-lt k v ((i, w) ∷ m) h = ground (arith, length-remove-le k m, length-remove-lt k v m)

  pub length-insert-le : (k : K) (v : V) (m : Map K V) → length (insert k v m) ≤ suc (length m)
  unfolding insert
  length-insert-le k v [] = omega arith
  length-insert-le k v ((i, w) ∷ m) = ground (arith, length-insert-le k v m)

  pub length-insert_old :
      (k : K) (v w : V) (m : Map K V) → lookup k m ≡ some w → length (insert k v m) ≡ length m
  unfolding insert lookup
  length-insert_old k v w [] h = cc
  length-insert_old k v w ((i, x) ∷ m) h = ground (arith, length-insert_old k v w m)

  -- `for k, v := range m { if !p(k, v) { delete(m, k) } }`
  unfoldable pub keep : (K → V → Bool) → Map K V → Map K V
  keep p [] = []
  keep p ((j, w) ∷ m) = let rest = keep p m in if p j w then (j, w) ∷ rest else rest

  pub lookup-keep_absent :
      (p : K → V → Bool) (j : K) (m : Map K V) → lookup j m ≡ none → lookup j (keep p m) ≡ none
  unfolding lookup keep
  lookup-keep_absent p j [] h = refl
  lookup-keep_absent p j ((i, w) ∷ m) h = ground (arith, lookup-keep_absent p j m)

  pub lookup-keep :
      (p : K → V → Bool) (j : K) (m : Map K V)
      → Unique m
      → lookup j (keep p m) ≡ keep_if (p j) (lookup j m)
  unfolding lookup keep
  lookup-keep p j [] u = refl
  lookup-keep p j ((i, w) ∷ m) u =
      ground (arith, e.same_iff i j, lookup-keep p j m u.1, lookup-keep_absent p i m u.0)

  pub keep-Unique : (p : K → V → Bool) (m : Map K V) → Unique m → Unique (keep p m)
  unfolding keep
  keep-Unique p [] u = tt
  keep-Unique p ((i, w) ∷ m) u = ground (arith, keep-Unique p m u.1, lookup-keep_absent p i m u.0)

  pub length-keep-le : (p : K → V → Bool) (m : Map K V) → length (keep p m) ≤ length m
  unfolding keep
  length-keep-le p [] = omega arith
  length-keep-le p ((i, w) ∷ m) = ground (arith, length-keep-le p m)

  pub lookup_deeper :
      (i : K) (w : V) (m : Map K V) (k : K) (v : V)
      → lookup i m ≡ none
      → lookup k m ≡ some v
      → lookup k ((i, w) ∷ m) ≡ some v
  unfolding lookup
  lookup_deeper i w m k v absent h = ground (arith, e.same_iff i k)

  -- A property of what can be looked up is a property of each entry.
  pub All-of_lookup :
      (P : K × V → Type 0) (m : Map K V)
      → Unique m
      → ((k : K) (v : V) → lookup k m ≡ some v → P (k, v))
      → All P m
  All-of_lookup P [] u h = tt
  All-of_lookup P ((i, w) ∷ m) u h = (
    h i w (unfold lookup in rw (==_refl i)),
    All-of_lookup P m u.1 (λ k v p. h k v (lookup_deeper i w m k v u.0 p)),
  )
