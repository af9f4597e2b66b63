-- ===== src/Base/Equality.antt =====
-- Python's `==` on the keys and names that the program compares, as an interface with its law.
use Prim.Native.Nat.{ℕ}
use Prim.Native.String.{String}
use mathlib.Core.Path.{◌≡◌, refl}
use mathlib.Core.Logic.{◌↔◌}
use mathlib.Core.Bool.{Bool, true}
use native.Mathlib.Omega.{arith}
use text.Mathlib.Text.{◌==◌ as same_text}
use text.Mathlib.TextEquality.{eq_iff}
use argus_mcp.Base.Tests.{eqb}

pub record Comparable {ℓ} (K : Type ℓ) : Type ℓ where
  pub equals : K → K → Bool
  pub equals_iff : (x y : K) → (equals x y ≡ true) ↔ (x ≡ y)

infix 50 ◌==◌
abbrev pub ◌==◌ {ℓ} : {K : Type ℓ} ⦃c : Comparable K⦄ → K → K → Bool
◌==◌ ⦃c⦄ x y = c.equals x y

pub eqb_iff : (m n : ℕ) → (eqb m n ≡ true) ↔ (m ≡ n)
eqb_iff m n = ground arith

instance abbrev pub text_keys : Comparable String
text_keys = record { equals = same_text; equals_iff = eq_iff }

instance abbrev pub number_keys : Comparable ℕ
number_keys = record { equals = eqb; equals_iff = eqb_iff }

pub ==_refl {ℓ} : {K : Type ℓ} ⦃c : Comparable K⦄ (x : K) → (x == x) ≡ true
==_refl ⦃c⦄ x = (c.equals_iff x x).1 refl
