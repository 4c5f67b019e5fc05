-- ===== src/Common/Order.antt =====
-- Iterator helpers that compare: `min_by_key`, `max`, sums of lengths, and the stable `sort_by`.
use Prim.Native.Nat.{ℕ, max}
use mathlib.Core.Path.{◌≡◌, refl, subst}
use mathlib.Core.Bool.{Bool, true, false}
use mathlib.Core.Option.{Option, none, some}
use mathlib.Core.List.{List, [], ◌∷◌}
use native.Mathlib.Omega.{arith}
use mathlib.Core.Logic.{◌⊎◌, inl, inr}
use router_hub.Common.Tests.{ltb, if◌then◌else◌, Eq, ==_refl}
use router_hub.Common.Maps.{Map, contains_key}

module _ {A : Type 0} where
  -- `Iterator::min_by_key`, by the order of the keys: the first of the least elements.
  unfoldable pub min_from : (A → A → Bool) → A → List A → A
  min_from lt best [] = best
  min_from lt best (x ∷ xs) = min_from lt (if lt x best then x else best) xs

  unfoldable pub min_by : (A → A → Bool) → List A → Option A
  min_by lt [] = none
  min_by lt (x ∷ xs) = some (min_from lt x xs)

  -- `sort_by_key`, which is stable.
  unfoldable pub sort_insert : (A → A → Bool) → A → List A → List A
  sort_insert lt x [] = x ∷ []
  sort_insert lt x (y ∷ ys) =
      let rest = sort_insert lt x ys in if lt y x then y ∷ rest else x ∷ y ∷ ys

  unfoldable pub sort_by : (A → A → Bool) → List A → List A
  sort_by lt [] = []
  sort_by lt (x ∷ xs) = sort_insert lt x (sort_by lt xs)

-- `None < Some(_)`.
abbrev pub opt_lt : Option ℕ → Option ℕ → Bool
opt_lt none none = false
opt_lt none (some b) = true
opt_lt (some a) none = false
opt_lt (some a) (some b) = ltb a b

-- `Iterator::max` on times.
unfoldable pub latest : List ℕ → Option ℕ
latest [] = none
latest (t ∷ ts) = elim (latest ts) [ none ↦ some t | some u ↦ some (max t u) ]

-- Membership, by the places of the list.
abbrev pub In : {A : Type 0} → A → List A → Type 0
In x [] = ⊥
In x (y ∷ ys) = (x ≡ y) ⊎ In x ys

module _ {A : Type 0} (lt : A → A → Bool) where
  pick-In :
      (b : Bool) (z x best : A) (m : List A)
      → In z ((if b then x else best) ∷ m)
      → In z (best ∷ x ∷ m)
  pick-In true z x best m (inl e) = inr (inl e)
  pick-In true z x best m (inr h) = inr (inr h)
  pick-In false z x best m (inl e) = inl e
  pick-In false z x best m (inr h) = inr (inr h)

  min_from-In : (best : A) (m : List A) → In (min_from lt best m) (best ∷ m)
  unfolding min_from
  min_from-In best [] = inl refl
  min_from-In best (x ∷ m) =
      pick-In (lt x best) _ x best m (min_from-In (if lt x best then x else best) m)

  -- The least element is an element.
  pub min_by-In : (m : List A) {x : A} → min_by lt m ≡ some x → In x m
  unfolding min_by
  min_by-In [] h = absurd (ground arith)
  min_by-In (y ∷ m) {x} h =
      let found : min_from lt y m ≡ x = ground arith in
      subst (λ z. In z (y ∷ m)) found (min_from-In y m)

  pub min_by-eq-none : (m : List A) → min_by lt m ≡ none → m ≡ []
  unfolding min_by
  min_by-eq-none [] h = refl
  min_by-eq-none (y ∷ m) h = absurd (ground arith)

-- The keys of a map are those of its entries.
pub contains_key-In :
    {K V : Type 0} ⦃e : Eq K⦄ (m : Map K V) (x : K × V) → In x m → contains_key x.0 m ≡ true
unfolding contains_key
contains_key-In (y ∷ m) x (inl h) = rw h (ground (arith, ==_refl y.0))
contains_key-In (y ∷ m) x (inr h) = ground (arith, contains_key-In m x h)
contains_key-In [] x h = elim h [ ]
