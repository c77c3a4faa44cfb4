-- ===== src/Idempotency/Trim.antt =====
-- `trimLocked`: the oldest entries go, until the store is within its bound.
use mathlib.Core.Path.{subst}
use mcp_hugo_server_go.Base.{
  ℕ, zero, suc, ◌≤◌, ◌<◌, ◌≡◌, ◌≢◌, refl, sym, ap, ◌∙◌, ◌⊎◌, inl, inr, true, false, ◌||◌, [], ◌∷◌,
  none, some, arith, Bool-cases, All, length, nat_beq, ltb, leb,
}
use mcp_hugo_server_go.Base.Keys.{text_eq}
use mcp_hugo_server_go.Base.Map.{
  Map, lookup, remove, Unique, lookup-remove, lookup_deeper, length-remove-lt, remove-Unique,
}
use mcp_hugo_server_go.Base.Text.{Text, text_beq, text_beq_iff, text_beq_refl}
use mcp_hugo_server_go.Idempotency.{Entry, oldest_from, oldest_key, trim_loop, trim}

abbrev Later : ℕ → Text × Entry → Type 0
Later t (k, e) = t ≤ e.created_at

Later-All : (t u : ℕ) (m : Map Text Entry) → t ≤ u → All (Later u) m → All (Later t) m
Later-All t u [] h a = tt
Later-All t u ((k, e) ∷ m) h (b, a) = (omega arith, Later-All t u m h a)

-- The key is the one that the loop started with, or that of an entry; none is older.
abbrev Oldest : Text → ℕ → Map Text Entry → Text → Type 0
Oldest k t m r =
    ((r ≡ k) × All (Later t) m)
    ⊎ ((f : Entry) × (lookup r m ≡ some f) × (f.created_at ≤ t) × All (Later f.created_at) m)

lookup_here : (k : Text) (e : Entry) (m : Map Text Entry) → lookup k ((k, e) ∷ m) ≡ some e
unfolding lookup
lookup_here k e m = rw (text_beq_refl k)

Oldest-older :
    (k : Text) (t : ℕ) (j : Text) (e : Entry) (m : Map Text Entry) (r : Text)
    → lookup j m ≡ none
    → e.created_at ≤ t
    → Oldest j e.created_at m r
    → Oldest k t ((j, e) ∷ m) r
Oldest-older k t j e m r new h (inl (same, a)) = inr (
  e,
  subst (λ (q : Text). lookup q ((j, e) ∷ m) ≡ some e) (sym same) (lookup_here j e m),
  h,
  (omega arith, a),
)
Oldest-older k t j e m r new h (inr (f, found, le, a)) =
    inr (f, lookup_deeper j e m r f new found, omega arith, (le, a))

Oldest-same :
    (k : Text) (t : ℕ) (j : Text) (e : Entry) (m : Map Text Entry) (r : Text)
    → lookup j m ≡ none
    → t ≤ e.created_at
    → Oldest k t m r
    → Oldest k t ((j, e) ∷ m) r
Oldest-same k t j e m r new h (inl (same, a)) = inl (same, (h, a))
Oldest-same k t j e m r new h (inr (f, found, le, a)) =
    inr (f, lookup_deeper j e m r f new found, le, (omega arith, a))

module _ (k : Text) (t : ℕ) (j : Text) (e : Entry) (m : Map Text Entry) where
  oldest_from_older :
      ltb e.created_at t ≡ true → oldest_from k t ((j, e) ∷ m) ≡ oldest_from j e.created_at m
  unfolding oldest_from
  oldest_from_older h = rw h

  oldest_from_same : ltb e.created_at t ≡ false → oldest_from k t ((j, e) ∷ m) ≡ oldest_from k t m
  unfolding oldest_from
  oldest_from_same h = rw h

oldest_from-Oldest :
    (m : Map Text Entry) (k : Text) (t : ℕ) → Unique m → Oldest k t m (oldest_from k t m)
oldest_from-Oldest [] k t u = inl (unfold oldest_from in refl, tt)
oldest_from-Oldest ((j, e) ∷ m) k t (new, u) = elim (Bool-cases (ltb e.created_at t)) [
  | inl older ↦
      subst (Oldest k t ((j, e) ∷ m)) (sym (oldest_from_older k t j e m older))
        (Oldest-older k t j e m _ new (ground arith) (oldest_from-Oldest m j e.created_at u))
  | inr same ↦
      subst (Oldest k t ((j, e) ∷ m)) (sym (oldest_from_same k t j e m same))
        (Oldest-same k t j e m _ new (ground arith) (oldest_from-Oldest m k t u))
]

-- The entry that is removed is one of the map's, and no entry is older.
oldest_key_lem :
    (k : Text) (e : Entry) (m : Map Text Entry)
    → Unique ((k, e) ∷ m)
    → (f : Entry) × (lookup (oldest_key ((k, e) ∷ m)) ((k, e) ∷ m) ≡ some f)
      × All (Later f.created_at) ((k, e) ∷ m)
oldest_key_lem k e m (new, u) = found (oldest_from-Oldest m k e.created_at u)
  where
    found :
        {r : Text}
        → Oldest k e.created_at m r
        → (f : Entry) × (lookup r ((k, e) ∷ m) ≡ some f) × All (Later f.created_at) ((k, e) ∷ m)
    found (inl (same, a)) = (
      e,
      subst (λ (q : Text). lookup q ((k, e) ∷ m) ≡ some e) (sym same) (lookup_here k e m),
      (omega arith, a),
    )
    found {r} (inr (f, here, le, a)) = (f, lookup_deeper k e m r f new here, (le, a))

trim_loop-length :
    (fuel max : ℕ) (m : Map Text Entry)
    → Unique m
    → length m ≤ fuel
    → length (trim_loop fuel max m) ≤ max
unfolding trim_loop
trim_loop-length zero max m u h = omega arith
trim_loop-length (suc fuel) max [] u h = ground arith
trim_loop-length (suc fuel) max ((k, e) ∷ m) u h =
    let (f, here, _) = oldest_key_lem k e m u in
    let r = oldest_key ((k, e) ∷ m) in
    ground (
      arith,
      length-remove-lt r f ((k, e) ∷ m) here,
      trim_loop-length fuel max (remove r ((k, e) ∷ m)) (remove-Unique r ((k, e) ∷ m) u),
    )

-- The fuel is enough: the store ends within its bound.
pub length-trim : (max : ℕ) (m : Map Text Entry) → 0 < max → Unique m → length (trim max m) ≤ max
unfolding trim
length-trim max m h u = ground (arith, trim_loop-length (length m) max m u)

trim_loop-subset :
    (fuel max : ℕ) (m : Map Text Entry) (j : Text) (e : Entry)
    → lookup j (trim_loop fuel max m) ≡ some e
    → lookup j m ≡ some e
unfolding trim_loop
trim_loop-subset zero max m j e h = h
trim_loop-subset (suc fuel) max m j e h = ground (
  arith,
  trim_loop-subset fuel max (remove (oldest_key m) m) j e,
  lookup-remove (oldest_key m) j m,
)

-- Trimming adds nothing and changes no entry.
pub trim-subset :
    (max : ℕ) (m : Map Text Entry) (j : Text) (e : Entry)
    → lookup j (trim max m) ≡ some e
    → lookup j m ≡ some e
unfolding trim
trim-subset max m j e h = ground (arith, trim_loop-subset (length m) max m j e)

-- Every other entry is older.
abbrev pub IsNewest : Text → Entry → Map Text Entry → Type 0
IsNewest k e m = (j : Text) (f : Entry) → lookup j m ≡ some f → j ≢ k → f.created_at < e.created_at

-- The oldest of two or more entries is not the newest.
oldest-ne-newest :
    (a b : Text) (x y : Entry) (m : Map Text Entry) (k : Text) (e f : Entry)
    → Unique ((a, x) ∷ (b, y) ∷ m)
    → IsNewest k e ((a, x) ∷ (b, y) ∷ m)
    → f.created_at ≤ x.created_at
    → f.created_at ≤ y.created_at
    → f ≢ e
oldest-ne-newest a b x y m k e f (new, u) newest fx fy same = elim (Bool-cases (text_beq a k)) [
  | inr other ↦
      let h =
        newest a x (lookup_here a x ((b, y) ∷ m)) (λ (p : a ≡ k). cc ((text_beq_iff a k).1 p)) in
      omega (arith, ap (λ (g : Entry). g.created_at) same)
  | inl hit ↦
      let ak = (text_beq_iff a k).0 hit in
      let differ : b ≢ k = λ p. apart (p ∙ sym ak) in
      let h = newest b y (lookup_deeper a x ((b, y) ∷ m) b y new (lookup_here b y m)) differ in
      omega (arith, ap (λ (g : Entry). g.created_at) same)
]
  where
    apart : b ≢ a
    apart p = unfold lookup in ground (arith, text_beq_iff b a)

trim_loop-newest :
    (fuel max : ℕ) (m : Map Text Entry) (k : Text) (e : Entry)
    → 0 < max
    → Unique m
    → lookup k m ≡ some e
    → IsNewest k e m
    → lookup k (trim_loop fuel max m) ≡ some e
unfolding trim_loop
trim_loop-newest zero max m k e pos u h newest = h
trim_loop-newest (suc fuel) max [] k e pos u h newest = ground arith
trim_loop-newest (suc fuel) max ((a, x) ∷ []) k e pos u h newest = ground arith
trim_loop-newest (suc fuel) max ((a, x) ∷ (b, y) ∷ m) k e pos u h newest =
    let l = (a, x) ∷ (b, y) ∷ m in
    let r = oldest_key l in
    let (f, here, le) = oldest_key_lem a x ((b, y) ∷ m) u in
    let ne : f ≢ e = oldest-ne-newest a b x y m k e f u newest le.0 le.1.0 in
    let other : text_beq r k ≡ false =
      ground (arith, text_beq_iff r k, ap (λ (q : Text). lookup q l), ne) in
    let ih =
      trim_loop-newest fuel max (remove r l) k e pos (remove-Unique r l u)
        (rw (lookup-remove, other) h)
        (λ j g found differ. newest j g (kept r l j g found) differ) in
    elim (Bool-cases (ltb max (length l))) [ inl more ↦ rw more ih | inr done ↦ rw done h ]
  where
    kept :
        (r : Text) (l : Map Text Entry) (j : Text) (g : Entry)
        → lookup j (remove r l) ≡ some g
        → lookup j l ≡ some g
    kept r l j g found = ground (arith, lookup-remove r j l)

-- The newest entry survives.
pub trim-newest :
    (max : ℕ) (m : Map Text Entry) (k : Text) (e : Entry)
    → Unique m
    → lookup k m ≡ some e
    → IsNewest k e m
    → lookup k (trim max m) ≡ some e
unfolding trim
trim-newest max m k e u h newest = ground (arith, trim_loop-newest (length m) max m k e, u, newest)

trim_loop-Unique : (fuel max : ℕ) (m : Map Text Entry) → Unique m → Unique (trim_loop fuel max m)
unfolding trim_loop
trim_loop-Unique zero max m u = u
trim_loop-Unique (suc fuel) max m u = elim (Bool-cases (ltb max (length m))) [
  | inl more ↦ rw more (trim_loop-Unique fuel max _ (remove-Unique (oldest_key m) m u))
  | inr done ↦ rw done u
]

pub trim-Unique : (max : ℕ) (m : Map Text Entry) → Unique m → Unique (trim max m)
unfolding trim
trim-Unique max m u = elim (Bool-cases (nat_beq max 0 || leb (length m) max)) [
  | inl within ↦ rw within u
  | inr over ↦ rw over (trim_loop-Unique (length m) max m u)
]
