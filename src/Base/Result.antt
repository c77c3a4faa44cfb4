-- ===== src/Base/Result.antt =====
-- A Go function that returns a value and an error.
use mathlib.Core.Path.{◌≡◌, refl}
use mathlib.Core.Logic.{◌⊎◌, inl, inr}

pub data Result (E A : Type 0) : Type 0 where
  err : E → Result E A
  ok : A → Result E A

module _ {E A : Type 0} where
  -- `if err != nil { return err }`, and then the rest of the function
  infixl 5 ◌>>=◌
  abbrev pub ◌>>=◌ : {B : Type 0} → Result E A → (A → Result E B) → Result E B
  r >>= rest = elim r [ err e ↦ err e | ok value ↦ rest value ]

  pub Result-cases : (r : Result E A) → ((a : A) × (r ≡ ok a)) ⊎ ((e : E) × (r ≡ err e))
  Result-cases (err e) = inr (e, refl)
  Result-cases (ok a) = inl (a, refl)

  pub >>=-eq-ok :
      {B : Type 0} (r : Result E A) (rest : A → Result E B) {out : B}
      → r >>= rest ≡ ok out
      → (a : A) × (r ≡ ok a) × (rest a ≡ ok out)
  >>=-eq-ok (err e) rest h = cc
  >>=-eq-ok (ok a) rest h = (a, refl, h)
