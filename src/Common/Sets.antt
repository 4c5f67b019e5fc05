-- ===== src/Common/Sets.antt =====
-- `HashSet` as a list of its elements.
use mathlib.Core.Path.{◌≡◌, refl}
use mathlib.Core.Bool.{Bool, true, false, not, ◌||◌, ◌&&◌}
use mathlib.Core.List.{List, [], ◌∷◌}
use mathlib.Core.Logic.{inl, inr}
use native.Mathlib.Omega.{arith}
use router_hub.Common.Tests.{Eq, ◌==◌, if◌then◌else◌, Bool-cases}
use router_hub.Common.Maps.{filterb, any, Map, contains_key, keys}
use router_hub.Common.Order.{sort_insert, sort_by}

module _ {K : Type 0} ⦃e : Eq K⦄ where
  unfoldable pub has : K → List K → Bool
  has k [] = false
  has k (j ∷ s) = j == k || has k s

  unfoldable pub set_insert : K → List K → List K
  set_insert k s = if has k s then s else k ∷ s

  unfoldable pub set_remove : K → List K → List K
  set_remove k [] = []
  set_remove k (j ∷ s) = let rest = set_remove k s in if j == k then rest else j ∷ rest

  pub has-set_insert : (k j : K) (s : List K) → has j (set_insert k s) ≡ (k == j || has j s)
  unfolding has set_insert
  has-set_insert k j s = ground (arith, e.beq_iff k j)

  pub has-set_remove : (k j : K) (s : List K) → has j (set_remove k s) ≡ (not (k == j) && has j s)
  unfolding has set_remove
  has-set_remove k j [] = ground arith
  has-set_remove k j (i ∷ s) =
      ground (arith, e.beq_iff k j, e.beq_iff i k, e.beq_iff i j, has-set_remove k j s)

  -- `any` over a set, by what the set holds.
  pub any_of_has :
      (p : K → Bool) (k : K) (s : List K) → has k s ≡ true → p k ≡ true → any p s ≡ true
  unfolding has any
  any_of_has p k [] h q = h
  any_of_has p k (j ∷ s) h q = ground (arith, e.beq_iff j k, any_of_has p k s)

  pub has-filterb : (p : K → Bool) (k : K) (s : List K) → has k (filterb p s) ≡ (p k && has k s)
  unfolding has filterb
  has-filterb p k [] = ground arith
  has-filterb p k (j ∷ s) = ground (arith, e.beq_iff j k, has-filterb p k s)

  pub any_mono :
      (p : K → Bool) (s t : List K)
      → ((k : K) → has k s ≡ true → has k t ≡ true)
      → any p s ≡ true
      → any p t ≡ true
  unfolding has any
  any_mono p [] t sub h = cc
  any_mono p (j ∷ s) t sub h = elim (Bool-cases (p j)) [
    | inl here ↦ any_of_has p j t (sub j (ground (arith, e.beq_iff j j))) here
    | inr there ↦ any_mono p s t (λ k m. sub k (ground (arith, m))) (ground arith)
  ]

  pub any-false_mono :
      (p : K → Bool) (s t : List K)
      → ((k : K) → has k s ≡ true → has k t ≡ true)
      → any p t ≡ false
      → any p s ≡ false
  any-false_mono p s t sub h = elim (Bool-cases (any p s)) [
    | inl hit ↦ cc (any_mono p s t sub hit)
    | inr miss ↦ miss
  ]

  pub any-set_insert :
      (p : K → Bool) (k : K) (s : List K) → any p (set_insert k s) ≡ (p k || any p s)
  unfolding set_insert any
  any-set_insert p k s = ground (arith, any_of_has p k s)

  has-sort_insert :
      (lt : K → K → Bool) (k j : K) (s : List K) → has j (sort_insert lt k s) ≡ (k == j || has j s)
  unfolding has sort_insert
  has-sort_insert lt k j [] = refl
  has-sort_insert lt k j (i ∷ s) = ground (arith, has-sort_insert lt k j s)

  -- Sorting keeps the elements.
  pub has-sort_by : (lt : K → K → Bool) (j : K) (s : List K) → has j (sort_by lt s) ≡ has j s
  unfolding has sort_by
  has-sort_by lt j [] = refl
  has-sort_by lt j (k ∷ s) = rw (has-sort_insert lt k j (sort_by lt s), has-sort_by lt j s) refl

pub has-keys : {K V : Type 0} ⦃e : Eq K⦄ (k : K) (m : Map K V) → has k (keys m) ≡ contains_key k m
unfolding has contains_key
has-keys k [] = refl
has-keys k ((j, v) ∷ m) = rw (has-keys k m) refl
