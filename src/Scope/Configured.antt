-- ===== src/Scope/Configured.antt =====
-- `normalizeConfiguredScopes` and `highestConfiguredScope`.
use mathlib.Core.Path.{subst}
use mcp_hugo_server_go.Base.{
  ℕ, ◌+◌, ◌≤◌, ◌<◌, ltb→lt, ◌≡◌, ◌≢◌, refl, sym, ◌⊎◌, inl, inr, true, false, List, [], ◌∷◌, ◌++◌,
  arith, Bool-cases, All, Any, any, ltb, leb,
}
use mcp_hugo_server_go.Base.Keys.{text_eq}
use mcp_hugo_server_go.Base.Result.{ok, >>=-eq-ok}
use mcp_hugo_server_go.Base.Text.{Text, text_beq, text_beq_iff, trim_space}
use mcp_hugo_server_go.Scope.{
  read, rank, normalize_scope, one_of, add_scope, add_scopes, insert_by_rank, sort_by_rank, or_read,
  normalize_scopes, highest_from, highest_configured,
}
use mcp_hugo_server_go.Scope.Alias.{
  IsCanonical, normalize-IsCanonical, rank-read, rank-write, rank-admin,
}

-- Ranks grow strictly along the list, from `n` on: it is sorted and has no scope twice.
abbrev pub Ascending : ℕ → List Text → Type 0
Ascending n [] = Unit
Ascending n (s ∷ ss) = (n ≤ rank s) × Ascending (rank s + 1) ss

-- No entry of the list has the rank.
abbrev Free : ℕ → List Text → Type 0
Free n = All (λ t. rank t ≢ n)

abbrev Distinct : List Text → Type 0
Distinct [] = Unit
Distinct (s ∷ ss) = Free (rank s) ss × Distinct ss

-- Canonical scopes are told apart by their ranks.
canonical-rank : (s t : Text) → IsCanonical s → IsCanonical t → rank s ≡ rank t → s ≡ t
canonical-rank s t c d e = ground (arith, rank-read, rank-write, rank-admin)

one_of-Free :
    (s : Text) (ts : List Text)
    → IsCanonical s
    → All IsCanonical ts
    → one_of ts s ≡ false
    → Free (rank s) ts
unfolding one_of any
one_of-Free s [] c a h = tt
one_of-Free s (t ∷ ts) c (ct, a) h =
    (λ e. ground (arith, text_beq_iff s t, canonical-rank s t), one_of-Free s ts c a (ground arith))

Free-concat : (n : ℕ) (ts : List Text) (s : Text) → Free n ts → rank s ≢ n → Free n (ts ++ s ∷ [])
Free-concat n [] s f h = (h, tt)
Free-concat n (t ∷ ts) s (ft, f) h = (ft, Free-concat n ts s f h)

Distinct-concat :
    (ts : List Text) (s : Text) → Distinct ts → Free (rank s) ts → Distinct (ts ++ s ∷ [])
Distinct-concat [] s d f = (tt, tt)
Distinct-concat (t ∷ ts) s (ft, d) (ne, f) =
    (Free-concat (rank t) ts s ft (λ e. ne (sym e)), Distinct-concat ts s d f)

All-concat :
    (ts : List Text) (s : Text)
    → All IsCanonical ts
    → IsCanonical s
    → All IsCanonical (ts ++ s ∷ [])
All-concat [] s a c = (c, tt)
All-concat (t ∷ ts) s (ct, a) c = (ct, All-concat ts s a c)

abbrev Good : List Text → Type 0
Good ts = All IsCanonical ts × Distinct ts

add_scope-Good : (raw : Text) (out ts : List Text) → add_scope raw out ≡ ok ts → Good out → Good ts
unfolding add_scope
add_scope-Good raw out ts h g = elim (Bool-cases (text_beq (trim_space raw) [])) [
  | inl blank ↦ ground arith
  | inr more ↦
      let (s, e, k) = >>=-eq-ok (normalize_scope (trim_space raw)) _ (rw more at h) in
      let c = normalize-IsCanonical (trim_space raw) s e in
      elim (Bool-cases (one_of out s)) [
        | inl old ↦ ground arith
        | inr new ↦
            ground (
              arith,
              All-concat out s g.0 c,
              Distinct-concat out s g.1 (one_of-Free s out c g.0 new),
            )
      ]
]

add_scopes-Good :
    (raws : List Text) (out ts : List Text) → add_scopes raws out ≡ ok ts → Good out → Good ts
unfolding add_scopes
add_scopes-Good [] out ts h g = ground arith
add_scopes-Good (raw ∷ rest) out ts h g =
    let (mid, e, k) = >>=-eq-ok (add_scope raw out) (add_scopes rest) h in
    add_scopes-Good rest mid ts k (add_scope-Good raw out mid e g)

insert-Free :
    (n : ℕ) (s : Text) (ts : List Text) → Free n ts → rank s ≢ n → Free n (insert_by_rank s ts)
unfolding insert_by_rank
insert-Free n s [] f h = (h, tt)
insert-Free n s (t ∷ ts) f h = ground (arith, insert-Free n s ts f.1 h)

insert-Ascending :
    (n : ℕ) (s : Text) (ts : List Text)
    → n ≤ rank s
    → Free (rank s) ts
    → Ascending n ts
    → Ascending n (insert_by_rank s ts)
unfolding insert_by_rank
insert-Ascending n s [] h f a = (h, tt)
insert-Ascending n s (t ∷ ts) h (ne, f) (le, a) = elim (Bool-cases (leb (rank s) (rank t))) [
  | inl first ↦ rw first (h, (ground arith, a))
  | inr later ↦ rw later (le, insert-Ascending (rank t + 1) s ts (ground arith) f a)
]

insert-IsCanonical :
    (s : Text) (ts : List Text)
    → IsCanonical s
    → All IsCanonical ts
    → All IsCanonical (insert_by_rank s ts)
unfolding insert_by_rank
insert-IsCanonical s [] c a = (c, tt)
insert-IsCanonical s (t ∷ ts) c (ct, a) = ground (arith, insert-IsCanonical s ts c a)

sort-Free : (n : ℕ) (ss : List Text) → Free n ss → Free n (sort_by_rank ss)
unfolding sort_by_rank
sort-Free n [] f = tt
sort-Free n (s ∷ ss) (ne, f) = insert-Free n s (sort_by_rank ss) (sort-Free n ss f) ne

sort-Ascending : (ss : List Text) → Distinct ss → Ascending 0 (sort_by_rank ss)
unfolding sort_by_rank
sort-Ascending [] d = tt
sort-Ascending (s ∷ ss) (f, d) =
    insert-Ascending 0 s (sort_by_rank ss) (omega arith) (sort-Free (rank s) ss f)
      (sort-Ascending ss d)

sort-IsCanonical : (ss : List Text) → All IsCanonical ss → All IsCanonical (sort_by_rank ss)
unfolding sort_by_rank
sort-IsCanonical [] a = tt
sort-IsCanonical (s ∷ ss) (c, a) = insert-IsCanonical s (sort_by_rank ss) c (sort-IsCanonical ss a)

insert-ne-nil : (s : Text) (ts : List Text) → insert_by_rank s ts ≢ []
unfolding insert_by_rank
insert-ne-nil s [] = λ e. cc
insert-ne-nil s (t ∷ ts) = ground arith

sort_or_read-ne-nil : (ss : List Text) → sort_by_rank (or_read ss) ≢ []
unfolding sort_by_rank
sort_or_read-ne-nil [] = insert-ne-nil read _
sort_or_read-ne-nil (s ∷ ss) = insert-ne-nil s _

or_read-Good : (ss : List Text) → Good ss → Good (or_read ss)
or_read-Good [] g = ((inl refl, tt), (tt, tt))
or_read-Good (s ∷ ss) g = g

-- The scopes of a registered client: at least one, all canonical, in ascending order of rank with
-- none repeated.
pub normalize_scopes-Ascending :
    (raws : List Text) (singular : Text) (ts : List Text)
    → normalize_scopes raws singular ≡ ok ts
    → (ts ≢ []) × All IsCanonical ts × Ascending 0 ts
unfolding normalize_scopes
normalize_scopes-Ascending raws singular ts h =
    let (mid, e, k) = >>=-eq-ok (add_scopes raws []) _ h in
    let (out, e', k') = >>=-eq-ok (add_scope singular mid) _ k in
    let g =
      or_read-Good out
        (add_scope-Good singular mid out e' (add_scopes-Good raws [] mid e (tt, tt))) in
    let same : sort_by_rank (or_read out) ≡ ts = ground arith in
    subst (λ (l : List Text). (l ≢ []) × All IsCanonical l × Ascending 0 l) same
      (
        sort_or_read-ne-nil out,
        sort-IsCanonical (or_read out) g.0,
        sort-Ascending (or_read out) g.1,
      )

-- `r` is one of `h ∷ ss`, and none of these has a higher rank.
abbrev MaxOf : Text → List Text → Text → Type 0
MaxOf h ss r = (rank h ≤ rank r) × All (λ t. rank t ≤ rank r) ss × ((r ≡ h) ⊎ Any (λ t. r ≡ t) ss)

MaxOf-up :
    (h s : Text) (ss : List Text) (r : Text) → rank h < rank s → MaxOf s ss r → MaxOf h (s ∷ ss) r
MaxOf-up h s ss r up (le, a, m) = (omega arith, (le, a), inr m)

MaxOf-same :
    (h s : Text) (ss : List Text) (r : Text) → rank s ≤ rank h → MaxOf h ss r → MaxOf h (s ∷ ss) r
MaxOf-same h s ss r same (le, a, inl e) = (le, (omega arith, a), inl e)
MaxOf-same h s ss r same (le, a, inr m) = (le, (omega arith, a), inr (inr m))

module _ (s : Text) (ss : List Text) (h : Text) where
  highest_from_up : ltb (rank h) (rank s) ≡ true → highest_from (s ∷ ss) h ≡ highest_from ss s
  unfolding highest_from
  highest_from_up e = rw e

  highest_from_same : ltb (rank h) (rank s) ≡ false → highest_from (s ∷ ss) h ≡ highest_from ss h
  unfolding highest_from
  highest_from_same e = rw e

highest_from-MaxOf : (ss : List Text) (h : Text) → MaxOf h ss (highest_from ss h)
highest_from-MaxOf [] h = unfold highest_from in (omega arith, tt, inl refl)
highest_from-MaxOf (s ∷ ss) h = elim (Bool-cases (ltb (rank h) (rank s))) [
  | inl up ↦
      subst (MaxOf h (s ∷ ss)) (sym (highest_from_up s ss h up))
        (MaxOf-up h s ss _ (ltb→lt (rank h) (rank s) up) (highest_from-MaxOf ss s))
  | inr same ↦
      subst (MaxOf h (s ∷ ss)) (sym (highest_from_same s ss h same))
        (MaxOf-same h s ss _ (ground arith) (highest_from-MaxOf ss h))
]

canonical-ne-nil : (s : Text) → IsCanonical s → text_beq s [] ≡ false
unfolding text_beq
canonical-ne-nil s (inl e) = rw e
canonical-ne-nil s (inr (inl e)) = rw e
canonical-ne-nil s (inr (inr e)) = rw e

Any-IsCanonical :
    (ss : List Text) (h : Text) → All IsCanonical ss → Any (λ t. h ≡ t) ss → IsCanonical h
Any-IsCanonical [] h a m = elim m [ ]
Any-IsCanonical (s ∷ ss) h (c, a) (inl e) = rw e c
Any-IsCanonical (s ∷ ss) h (c, a) (inr m) = Any-IsCanonical ss h a m

-- The maximum scope of a client is one of its scopes, and none of them has a higher rank.
pub highest_configured-max :
    (ts : List Text)
    → ts ≢ []
    → All IsCanonical ts
    → Any (λ t. highest_configured ts ≡ t) ts × All (λ t. rank t ≤ rank (highest_configured ts)) ts
unfolding highest_configured
highest_configured-max [] ne c = absurd (ne refl)
highest_configured-max (s ∷ ss) ne c =
    let (le, a, m) = highest_from-MaxOf ss s in
    let c' = Any-IsCanonical (s ∷ ss) (highest_from ss s) c m in
    subst (λ (r : Text). Any (λ t. r ≡ t) (s ∷ ss) × All (λ t. rank t ≤ rank r) (s ∷ ss))
      (sym (rw (canonical-ne-nil _ c'))) (m, (le, a))
