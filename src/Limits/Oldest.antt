-- ===== src/Limits/Oldest.antt =====
-- Eviction takes a bucket that was seen before now.
use mcp_hugo_server_go.Base.{
  ℕ, ◌≤◌, ◌<◌, ◌≡◌, ◌≢◌, ◌⊎◌, inl, inr, true, ◌||◌, [], ◌∷◌, some, ltb, arith, Bool-cases, All,
  ltb→lt,
}
use mcp_hugo_server_go.Base.Keys.{text_eq, ◌==◌}
use mcp_hugo_server_go.Base.Map.{Map, lookup}
use mcp_hugo_server_go.Base.Text.{Text, text_beq_iff, text_beq_ne}
use mcp_hugo_server_go.Limits.{oldest_in}

module _ (seen : Map Text ℕ) (now : ℕ) where
  -- A caller that was seen at the time
  abbrev pub IsSeen : Text × ℕ → Type 0
  IsSeen (k, t) = (k ≢ []) × (lookup k seen ≡ some t) × (t ≤ now)

  abbrev pub IsOld : Text → ℕ → Type 0
  IsOld k t = (k ≢ []) × (lookup k seen ≡ some t) × (t < now)

  IsOld-stays :
      (m : Map Text ℕ) (o : Text) (at : ℕ)
      → All IsSeen m
      → IsOld o at
      → (t : ℕ) × IsOld (oldest_in o at m) t
  unfolding oldest_in
  IsOld-stays [] o at a h = (at, h)
  IsOld-stays ((k, t) ∷ m) o at (s, a) h = elim (Bool-cases (ltb t at)) [
    | inl x ↦
        rw (text_beq_ne o [] h.0, x)
          (IsOld-stays m k t a (s.0, s.1, omega (arith, ltb→lt t at x, h.2)))
    | inr x ↦ rw (text_beq_ne o [] h.0, x) (IsOld-stays m o at a h)
  ]

  takes : (o : Text) (at t : ℕ) → (o ≡ []) ⊎ (at ≡ now) → t < now → (o == [] || ltb t at) ≡ true
  takes o at t start h = ground (arith, text_beq_iff o [])

  pub IsOld-reached :
      (m : Map Text ℕ) (o : Text) (at : ℕ)
      → All IsSeen m
      → (o ≡ []) ⊎ (at ≡ now)
      → (j : Text) (u : ℕ) → lookup j m ≡ some u
      → u < now
      → (t : ℕ) × IsOld (oldest_in o at m) t
  unfolding oldest_in lookup
  IsOld-reached [] o at a start j u h old = absurd (cc h)
  IsOld-reached ((k, t) ∷ m) o at (s, a) start j u h old = elim (Bool-cases (ltb t now)) [
    | inl x ↦
        rw (takes o at t start (ltb→lt t now x)) (IsOld-stays m k t a (s.0, s.1, ltb→lt t now x))
    | inr x ↦
        let same : t ≡ now = ground (arith, s.2) in
        let later : lookup j m ≡ some u = ground (arith, text_beq_iff k j) in
        elim (Bool-cases (o == [] || ltb t at)) [
          | inl y ↦ rw y (IsOld-reached m k t a (inr same) j u later old)
          | inr y ↦ rw y (IsOld-reached m o at a start j u later old)
        ]
  ]
