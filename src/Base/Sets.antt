-- ===== src/Base/Sets.antt =====
-- Python's set of keys, as a list.
use mathlib.Core.Path.{◌≡◌}
use mathlib.Core.Bool.{Bool, false, ◌||◌}
use mathlib.Core.List.{List, [], ◌∷◌}
use native.Mathlib.Omega.{arith}
use agenyx.Base.Tests.{if◌then◌else◌}
use agenyx.Base.Keys.{Hashable, ◌==◌, ==_iff}

module _ {ℓ} {K : Type ℓ} ⦃e : Hashable K⦄ where
  -- `k in s`
  unfoldable pub elem : K → List K → Bool
  elem k [] = false
  elem k (j ∷ s) = j == k || elem k s

  -- `s.add(k)`
  unfoldable pub add : K → List K → List K
  unfolding elem
  add k s = if elem k s then s else k ∷ s

  -- `s.discard(k)`
  unfoldable pub discard : K → List K → List K
  discard k [] = []
  discard k (j ∷ s) = let rest = discard k s in if j == k then rest else j ∷ rest

  pub elem-add : (j k : K) (s : List K) → elem j (add k s) ≡ (k == j || elem j s)
  unfolding add
  elem-add j k s = ground (arith, ==_iff k j)

  pub elem-discard :
      (j k : K) (s : List K) → elem j (discard k s) ≡ (if k == j then false else elem j s)
  unfolding elem discard
  elem-discard j k [] = ground arith
  elem-discard j k (i ∷ s) = ground (arith, ==_iff k j, ==_iff i k, ==_iff i j, elem-discard j k s)
