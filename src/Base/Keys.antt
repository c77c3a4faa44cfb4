-- ===== src/Base/Keys.antt =====
-- What Go asks of the type of a map's keys: that they can be compared.
use Prim.Native.Nat.{ℕ}
use mathlib.Core.Path.{◌≡◌, refl}
use mathlib.Core.Logic.{◌↔◌}
use mathlib.Core.Bool.{Bool, true}
use mcp_hugo_server_go.Base.Tests.{nat_beq, nat_beq_iff}
use mcp_hugo_server_go.Base.Text.{Text, text_beq, text_beq_iff}

pub record Comparable (K : Type 0) : Type 0 where
  pub same : K → K → Bool
  pub same_iff : (j k : K) → (same j k ≡ true) ↔ (j ≡ k)

instance abbrev pub text_eq : Comparable Text
text_eq = record { same = text_beq; same_iff = text_beq_iff }

instance abbrev pub nat_eq : Comparable ℕ
nat_eq = record { same = nat_beq; same_iff = nat_beq_iff }

module _ {K : Type 0} ⦃c : Comparable K⦄ where
  -- `j == k`
  infix 50 ◌==◌
  abbrev pub ◌==◌ : K → K → Bool
  j == k = c.same j k

  pub ==_refl : (k : K) → (k == k) ≡ true
  ==_refl k = (c.same_iff k k).1 refl
