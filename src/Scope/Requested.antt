-- ===== src/Scope/Requested.antt =====
-- `requestedScope`: the highest recognized scope of a request.
use mathlib.Core.Path.{subst}
use mcp_hugo_server_go.Base.{
  ℕ, ◌≤◌, ◌≡◌, refl, sym, ap, ◌⊎◌, inl, inr, true, false, List, [], ◌∷◌, arith, leb→le, Bool-cases,
  All, Any,
}
use mcp_hugo_server_go.Base.Int.{ℤ, pos, negsuc, leb_ℤ, ltb_ℤ}
use mcp_hugo_server_go.Base.Keys.{text_eq}
use mcp_hugo_server_go.Base.Result.{ok, err, Result-cases}
use mcp_hugo_server_go.Base.Text.{Text, text_beq, text_beq_iff, trim_space, fields}
use mcp_hugo_server_go.Scope.{
  rank, normalize_scope, highest_token, if_recognized, requested_parts, requested_scope, ScopeError,
}
use mcp_hugo_server_go.Scope.Alias.{IsCanonical, normalize-IsCanonical}

abbrev LeZ : ℤ → ℤ → Type 0
LeZ a b = leb_ℤ a b ≡ true

LeZ-refl : (a : ℤ) → LeZ a a
LeZ-refl a = ground arith

LeZ-trans : (a b c : ℤ) → LeZ a b → LeZ b c → LeZ a c
LeZ-trans a b c h k = ground arith

-- The token names the scope.
abbrev pub Names : Text → Text → Type 0
Names s p = normalize_scope p ≡ ok s

abbrev Bounded : ℤ → Text → Type 0
Bounded r p = (t : Text) → Names t p → LeZ (pos (rank t)) r

-- What the loop has found: what it was started with, or a token's scope with its rank.
abbrev Found : List Text → Text × ℤ → Text × ℤ → Type 0
Found ps start r = (r ≡ start) ⊎ (IsCanonical r.0 × (r.1 ≡ pos (rank r.0)) × Any (Names r.0) ps)

abbrev Best : List Text → Text × ℤ → Text × ℤ → Type 0
Best ps start r = LeZ start.1 r.1 × All (Bounded r.1) ps × Found ps start r

Bounded-eq : (p s : Text) (r : ℤ) → Names s p → LeZ (pos (rank s)) r → Bounded r p
Bounded-eq p s r e h t e' = ground arith

Bounded-err : (p : Text) (x : ScopeError) (r : ℤ) → normalize_scope p ≡ err x → Bounded r p
Bounded-err p x r e t e' = ground arith

Best-skip :
    (p : Text) (ps : List Text) (start r : Text × ℤ)
    → Bounded r.1 p
    → Best ps start r
    → Best (p ∷ ps) start r
Best-skip p ps start r b (l, a, inl e) = (l, (b, a), inl e)
Best-skip p ps start r b (l, a, inr (c, k, n)) = (l, (b, a), inr (c, k, inr n))

Best-take :
    (p s : Text) (ps : List Text) (start r : Text × ℤ)
    → Names s p
    → LeZ start.1 (pos (rank s))
    → Best ps (s, pos (rank s)) r
    → Best (p ∷ ps) start r
Best-take p s ps start r e up (l, a, inl same) = (
  LeZ-trans start.1 (pos (rank s)) r.1 up l,
  (Bounded-eq p s r.1 e l, a),
  rw same (inr (normalize-IsCanonical p s e, refl, inl e)),
)
Best-take p s ps start r e up (l, a, inr (c, k, n)) =
    (LeZ-trans start.1 (pos (rank s)) r.1 up l, (Bounded-eq p s r.1 e l, a), inr (c, k, inr n))

module _ (p : Text) (ps : List Text) (h : Text) (r : ℤ) where
  highest_token_skip :
      (x : ScopeError)
      → normalize_scope p ≡ err x
      → highest_token (p ∷ ps) h r ≡ highest_token ps h r
  unfolding highest_token
  highest_token_skip x e = rw (e, highest_token)

  highest_token_up :
      (s : Text)
      → Names s p
      → ltb_ℤ r (pos (rank s)) ≡ true
      → highest_token (p ∷ ps) h r ≡ highest_token ps s (pos (rank s))
  unfolding highest_token
  highest_token_up s e up = rw (e, highest_token) (rw (up, highest_token))

  highest_token_same :
      (s : Text)
      → Names s p
      → ltb_ℤ r (pos (rank s)) ≡ false
      → highest_token (p ∷ ps) h r ≡ highest_token ps h r
  unfolding highest_token
  highest_token_same s e same = rw (e, highest_token) (rw (same, highest_token))

highest_token-Best : (ps : List Text) (h : Text) (r : ℤ) → Best ps (h, r) (highest_token ps h r)
highest_token-Best [] h r = unfold highest_token in (LeZ-refl r, tt, inl refl)
highest_token-Best (p ∷ ps) h r = elim (Result-cases (normalize_scope p)) [
  | inl (s, e) ↦ elim (Bool-cases (ltb_ℤ r (pos (rank s)))) [
    | inl up ↦
        subst (Best (p ∷ ps) (h, r)) (sym (highest_token_up p ps h r s e up))
          (Best-take p s ps (h, r) _ e (ground arith) (highest_token-Best ps s (pos (rank s))))
    | inr same ↦
        let ih = highest_token-Best ps h r in
        subst (Best (p ∷ ps) (h, r)) (sym (highest_token_same p ps h r s e same)) (
          Best-skip p ps (h, r) _
            (Bounded-eq p s _ e (LeZ-trans (pos (rank s)) r _ (ground arith) ih.0)) ih)
  ]
  | inr (x, e) ↦
      let ih = highest_token-Best ps h r in
      subst (Best (p ∷ ps) (h, r)) (sym (highest_token_skip p ps h r x e))
        (Best-skip p ps (h, r) _ (Bounded-err p x _ e) ih)
]

-- The tokens of a request.
abbrev pub tokens : Text → List Text
tokens raw = fields (trim_space raw)

abbrev pub AtMost : ℕ → Text → Type 0
AtMost n p = (t : Text) → Names t p → rank t ≤ n

-- The scope is canonical, a token names it, and no token names a higher one.
abbrev pub IsHighest : List Text → Text → Type 0
IsHighest ps s = IsCanonical s × Any (Names s) ps × All (AtMost (rank s)) ps

AtMost-Bounded : (ps : List Text) (n : ℕ) → All (Bounded (pos n)) ps → All (AtMost n) ps
AtMost-Bounded [] n b = tt
AtMost-Bounded (p ∷ ps) n (b, bs) = (λ t e. leb→le (rank t) n (b t e), AtMost-Bounded ps n bs)

winner-IsHighest :
    (raw : Text) (ps : List Text) (r : Text × ℤ) (s : Text)
    → Best ps ([], negsuc 0) r
    → if_recognized raw r ≡ ok s
    → IsHighest ps s
winner-IsHighest raw ps (h, pos n) s (l, a, inl e) k = absurd (cc (ap (λ (q : Text × ℤ). q.1) e))
winner-IsHighest raw ps (h, negsuc n) s (l, a, f) k = absurd (cc)
winner-IsHighest raw ps (h, pos n) s (l, a, inr (c, e, f)) k =
    let same : h ≡ s = ground arith in
    let exact : n ≡ rank h = ground arith in
    subst (IsHighest ps) same (c, f, AtMost-Bounded ps (rank h) (rw (← exact) a))

requested_cases :
    (raw : Text)
    → ((tokens raw ≡ []) × (requested_scope raw ≡ ok []))
      ⊎ (requested_scope raw ≡ requested_parts (trim_space raw) (tokens raw))
unfolding requested_scope
requested_cases raw = elim (Bool-cases (text_beq (trim_space raw) [])) [
  | inl blank ↦
      let e = (text_beq_iff (trim_space raw) []).0 blank in
      inl (rw e (unfold fields in refl), rw blank)
  | inr more ↦ inr (rw more)
]

parts-IsHighest :
    (raw : Text) (ps : List Text) (s : Text)
    → requested_parts raw ps ≡ ok s
    → ((ps ≡ []) × (s ≡ [])) ⊎ IsHighest ps s
parts-IsHighest raw [] s k = inl (refl, ground arith)
parts-IsHighest raw (p ∷ ps) s k =
    inr (winner-IsHighest raw (p ∷ ps) _ s (highest_token-Best (p ∷ ps) [] (negsuc 0)) k)

-- A request that is granted a scope either has no token, and the scope is empty, or the scope is
-- canonical, named by a token, and no token names a scope of higher rank; tokens that name no scope
-- are ignored.
pub requested_scope-IsHighest :
    (raw s : Text)
    → requested_scope raw ≡ ok s
    → ((tokens raw ≡ []) × (s ≡ [])) ⊎ IsHighest (tokens raw) s
requested_scope-IsHighest raw s k = elim (requested_cases raw) [
  | inl (none_given, e) ↦ inl (none_given, ground arith)
  | inr e ↦ parts-IsHighest (trim_space raw) (tokens raw) s (rw e at k)
]

-- The token names some scope.
abbrev pub Recognized : Text → Type 0
Recognized p = (s : Text) × Names s p

Recognized-rank : (ps : List Text) (r : ℤ) → Any Recognized ps → All (Bounded r) ps → LeZ (pos 0) r
Recognized-rank [] r h b = elim h [ ]
Recognized-rank (p ∷ ps) r (inl (t, e)) (b, bs) =
    LeZ-trans (pos 0) (pos (rank t)) r (ground arith) (b t e)
Recognized-rank (p ∷ ps) r (inr h) (b, bs) = Recognized-rank ps r h bs

recognized-eq-ok :
    (raw : Text) (r : Text × ℤ) → LeZ (pos 0) r.1 → (s : Text) × (if_recognized raw r ≡ ok s)
recognized-eq-ok raw (h, pos n) l = (h, ground arith)
recognized-eq-ok raw (h, negsuc n) l = absurd (cc)

parts_grant :
    (raw : Text) (ps : List Text) → Any Recognized ps → (s : Text) × (requested_parts raw ps ≡ ok s)
parts_grant raw [] h = elim h [ ]
parts_grant raw (p ∷ ps) h =
    let r = highest_token (p ∷ ps) [] (negsuc 0) in
    recognized-eq-ok raw r
      (Recognized-rank (p ∷ ps) r.1 h (highest_token-Best (p ∷ ps) [] (negsuc 0)).1)

-- A request in which one token names a scope is granted, whatever the other tokens are.
pub requested_scope_grants :
    (raw : Text) → Any Recognized (tokens raw) → (s : Text) × (requested_scope raw ≡ ok s)
requested_scope_grants raw h = elim (requested_cases raw) [
  | inl (_, e) ↦ ([], e)
  | inr e ↦ rw e (parts_grant (trim_space raw) (tokens raw) h)
]
