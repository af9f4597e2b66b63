-- ===== src/Base/Dict.antt =====
-- Python's `dict` as an association list in insertion order: `d.get(k)`, `d[k] = v`, `d.pop(k)`,
-- `k in d`, `d.keys()`, `d.values()`.
use mathlib.Core.Path.{◌≡◌, refl}
use mathlib.Core.Bool.{Bool, true, false, ◌||◌}
use mathlib.Core.Option.{Option, none, some}
use mathlib.Core.List.{List, [], ◌∷◌, map}
use native.Mathlib.Omega.{arith}
use argus_mcp.Base.Tests.{if◌then◌else◌}
use argus_mcp.Base.Equality.{Comparable, ◌==◌}

abbrev pub Dict {ℓ κ} : Type ℓ → Type κ → Type (ℓ ⊔ κ)
Dict K V = List (K × V)

module _ {ℓ κ} {K : Type ℓ} ⦃c : Comparable K⦄ {V : Type κ} where
  unfoldable pub get : Dict K V → K → Option V
  get [] k = none
  get ((j, v) ∷ d) k = if j == k then some v else get d k

  unfoldable pub insert : Dict K V → K → V → Dict K V
  insert [] k v = (k, v) ∷ []
  insert ((j, w) ∷ d) k v = if j == k then (k, v) ∷ d else (j, w) ∷ insert d k v

  unfoldable pub remove : Dict K V → K → Dict K V
  remove [] k = []
  remove ((j, w) ∷ d) k = let rest = remove d k in if j == k then rest else (j, w) ∷ rest

  unfoldable pub has : Dict K V → K → Bool
  has [] k = false
  has ((j, w) ∷ d) k = j == k || has d k

  pub get-insert :
      (d : Dict K V) (k : K) (v : V) (j : K)
      → get (insert d k v) j ≡ (if k == j then some v else get d j)
  unfolding get insert
  get-insert [] k v j = refl
  get-insert ((i, w) ∷ d) k v j =
      ground (arith, c.equals_iff i k, c.equals_iff i j, c.equals_iff k j, get-insert d k v j)

  pub get-remove :
      (d : Dict K V) (k j : K) → get (remove d k) j ≡ (if k == j then none else get d j)
  unfolding get remove
  get-remove [] k j = ground arith
  get-remove ((i, w) ∷ d) k j =
      ground (arith, c.equals_iff i k, c.equals_iff i j, c.equals_iff k j, get-remove d k j)

  pub has-get : (d : Dict K V) (k : K) → has d k ≡ (elim (get d k) [ none ↦ false | some v ↦ true ])
  unfolding get has
  has-get [] k = refl
  has-get ((j, w) ∷ d) k = ground (arith, has-get d k)

  pub has-insert :
      (d : Dict K V) (k : K) (v : V) (j : K) → has (insert d k v) j ≡ (k == j || has d j)
  unfolding has insert
  has-insert [] k v j = refl
  has-insert ((i, w) ∷ d) k v j =
      ground (arith, c.equals_iff i k, c.equals_iff i j, c.equals_iff k j, has-insert d k v j)

  pub has-remove :
      (d : Dict K V) (k j : K) → has (remove d k) j ≡ (if k == j then false else has d j)
  unfolding has remove
  has-remove [] k j = ground arith
  has-remove ((i, w) ∷ d) k j =
      ground (arith, c.equals_iff i k, c.equals_iff i j, c.equals_iff k j, has-remove d k j)

  -- No key stands twice, as in a real `dict`.
  abbrev pub IsUnique : Dict K V → Type 0
  IsUnique [] = Unit
  IsUnique ((k, v) ∷ d) = (has d k ≡ false) × IsUnique d

  pub insert-IsUnique : (d : Dict K V) (k : K) (v : V) → IsUnique d → IsUnique (insert d k v)
  unfolding insert has
  insert-IsUnique [] k v u = (refl, tt)
  insert-IsUnique ((i, w) ∷ d) k v u =
      ground
        (arith, c.equals_iff i k, c.equals_iff k i, has-insert d k v i, insert-IsUnique d k v u.1)

  pub remove-IsUnique : (d : Dict K V) (k : K) → IsUnique d → IsUnique (remove d k)
  unfolding remove
  remove-IsUnique [] k u = tt
  remove-IsUnique ((i, w) ∷ d) k u =
      ground (arith, c.equals_iff k i, has-remove d k i, remove-IsUnique d k u.1)

abbrev pub keys {ℓ κ} : {K : Type ℓ} {V : Type κ} → Dict K V → List K
keys d = map (λ (p : _). p.0) d

abbrev pub values {ℓ κ} : {K : Type ℓ} {V : Type κ} → Dict K V → List V
values d = map (λ (p : _). p.1) d

-- `d.update(e)`
unfoldable pub update {ℓ κ} :
    {K : Type ℓ} ⦃c : Comparable K⦄ {V : Type κ} → Dict K V → Dict K V → Dict K V
unfolding insert
update d [] = d
update d ((k, v) ∷ e) = update (insert d k v) e
