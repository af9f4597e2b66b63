-- ===== src/Base/Remove.antt =====
-- Python's `x in xs` and `xs.remove(x)` on a list, by `==`.
use Prim.Native.Nat.{◌+◌}
use mathlib.Core.Path.{◌≡◌}
use mathlib.Core.Bool.{Bool, true, false, ◌||◌}
use mathlib.Core.List.{List, [], ◌∷◌}
use native.Mathlib.Omega.{arith}
use argus_mcp.Base.Tests.{if◌then◌else◌}
use argus_mcp.Base.Equality.{Comparable, ◌==◌}
use argus_mcp.Base.Lists.{count}

module _ {ℓ} {A : Type ℓ} ⦃c : Comparable A⦄ where
  abbrev pub contains : A → List A → Bool
  contains x [] = false
  contains x (y ∷ ys) = y == x || contains x ys

  -- Takes out the first element that equals `x`; the code removes only what is there.
  unfoldable pub remove_first : A → List A → List A
  remove_first x [] = []
  remove_first x (y ∷ ys) = if y == x then ys else y ∷ remove_first x ys

  pub count-remove_first :
      (p : A → Bool) (x : A) (xs : List A)
      → contains x xs ≡ true
      → (if p x then 1 else 0) + count p (remove_first x xs) ≡ count p xs
  unfolding remove_first
  count-remove_first p x [] h = ground arith
  count-remove_first p x (y ∷ ys) h = ground (arith, c.equals_iff y x, count-remove_first p x ys)
