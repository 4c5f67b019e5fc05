-- ===== src/Common/Maps.antt =====
-- `HashMap` as an association list; the order of the list is the order of iteration, which the
-- source leaves open. `insert` replaces the value of a key that is there, and adds one that is not.
use Prim.Native.Nat.{ℕ, suc, ◌+◌, ◌≤◌, ◌<◌}
use mathlib.Core.Path.{◌≡◌, refl, ap}
use mathlib.Core.Bool.{Bool, true, false, not, ◌||◌, ◌&&◌}
use mathlib.Core.Option.{Option, none, some}
use mathlib.Core.List.{List, [], ◌∷◌, ◌++◌, map}
use native.Mathlib.Omega.{arith}
use mathlib.Core.Logic.{inl, inr}
use router_hub.Common.Tests.{Eq, ◌==◌, if◌then◌else◌, Bool-cases}

abbrev pub length {ℓ} : {A : Type ℓ} → List A → ℕ
length [] = 0
length (x ∷ xs) = suc (length xs)

pub length-append {ℓ} : {A : Type ℓ} (xs ys : List A) → length (xs ++ ys) ≡ length xs + length ys
length-append [] ys = omega arith
length-append (x ∷ xs) ys = omega (arith, length-append xs ys)

pub length-map {ℓ κ} :
    {A : Type ℓ} {B : Type κ} (xs : List A) (f : A → B) → length (map f xs) ≡ length xs
length-map [] f = refl
length-map (x ∷ xs) f = ap suc (length-map xs f)

-- `Iterator::filter` by a Boolean test.
unfoldable pub filterb {ℓ} : {A : Type ℓ} → (A → Bool) → List A → List A
filterb p [] = []
filterb p (x ∷ xs) = let rest = filterb p xs in if p x then x ∷ rest else rest

pub length-filterb-le {ℓ} :
    {A : Type ℓ} (p : A → Bool) (xs : List A) → length (filterb p xs) ≤ length xs
unfolding filterb
length-filterb-le p [] = omega arith
length-filterb-le p (x ∷ xs) = ground (arith, length-filterb-le p xs)

abbrev pub All {ℓ κ} : {A : Type ℓ} → (A → Type κ) → List A → Type κ
All P [] = Unit
All P (x ∷ xs) = P x × All P xs

-- What is filtered by a test passes every weaker test.
pub All-filterb :
    {A : Type 0} (p q : A → Bool) (xs : List A)
    → ((x : A) → p x ≡ true → q x ≡ true)
    → All (λ x. q x ≡ true) (filterb p xs)
unfolding filterb
All-filterb p q [] h = tt
All-filterb p q (x ∷ xs) h = elim (Bool-cases (p x)) [
  | inl kept ↦ rw kept (h x kept, All-filterb p q xs h)
  | inr left_out ↦ rw left_out (All-filterb p q xs h)
]

-- `Iterator::any`.
unfoldable pub any {ℓ} : {A : Type ℓ} → (A → Bool) → List A → Bool
any p [] = false
any p (x ∷ xs) = p x || any p xs

abbrev pub Map : Type 0 → Type 0 → Type 0
Map K V = List (K × V)

module _ {K V : Type 0} ⦃e : Eq K⦄ where
  unfoldable pub get : K → Map K V → Option V
  get k [] = none
  get k ((j, v) ∷ m) = if j == k then some v else get k m

  unfoldable pub contains_key : K → Map K V → Bool
  contains_key k [] = false
  contains_key k ((j, v) ∷ m) = j == k || contains_key k m

  unfoldable pub insert : K → V → Map K V → Map K V
  insert k v [] = (k, v) ∷ []
  insert k v ((j, w) ∷ m) = if j == k then (k, v) ∷ m else (j, w) ∷ insert k v m

  unfoldable pub remove : K → Map K V → Map K V
  remove k [] = []
  remove k ((j, w) ∷ m) = let rest = remove k m in if j == k then rest else (j, w) ∷ rest

  -- `HashMap::retain`.
  abbrev pub retain : (K → V → Bool) → Map K V → Map K V
  retain p = filterb (λ x. p x.0 x.1)

abbrev pub keys : {K V : Type 0} → Map K V → List K
keys = map (λ x. x.0)

abbrev pub values : {K V : Type 0} → Map K V → List V
values = map (λ x. x.1)

module _ {K V : Type 0} ⦃e : Eq K⦄ where
  pub get-insert :
      (k j : K) (v : V) (m : Map K V) → get j (insert k v m) ≡ (if k == j then some v else get j m)
  unfolding get insert
  get-insert k j v [] = refl
  get-insert k j v ((i, w) ∷ m) =
      ground (arith, e.beq_iff k j, e.beq_iff i k, e.beq_iff i j, get-insert k j v m)

  pub contains_key-insert :
      (k j : K) (v : V) (m : Map K V) → contains_key j (insert k v m) ≡ (k == j || contains_key j m)
  unfolding contains_key insert
  contains_key-insert k j v [] = refl
  contains_key-insert k j v ((i, w) ∷ m) =
      ground (arith, e.beq_iff k j, e.beq_iff i k, e.beq_iff i j, contains_key-insert k j v m)

  pub get-remove : (k j : K) (m : Map K V) → get j (remove k m) ≡ (if k == j then none else get j m)
  unfolding get remove
  get-remove k j [] = ground arith
  get-remove k j ((i, w) ∷ m) =
      ground (arith, e.beq_iff k j, e.beq_iff i k, e.beq_iff i j, get-remove k j m)

  pub contains_key-remove :
      (k j : K) (m : Map K V) → contains_key j (remove k m) ≡ (not (k == j) && contains_key j m)
  unfolding contains_key remove
  contains_key-remove k j [] = ground arith
  contains_key-remove k j ((i, w) ∷ m) =
      ground (arith, e.beq_iff k j, e.beq_iff i k, e.beq_iff i j, contains_key-remove k j m)

  pub contains_key_of_get :
      (k : K) (m : Map K V) {v : V} → get k m ≡ some v → contains_key k m ≡ true
  unfolding get contains_key
  contains_key_of_get k [] h = cc
  contains_key_of_get k ((i, w) ∷ m) {v} h = ground (arith, contains_key_of_get k m {v = v})

  pub length-insert :
      (k : K) (v : V) (m : Map K V)
      → length (insert k v m) ≡ (if contains_key k m then length m else suc (length m))
  unfolding contains_key insert
  length-insert k v [] = refl
  length-insert k v ((i, w) ∷ m) = ground (arith, length-insert k v m)

  pub length-remove-le : (k : K) (m : Map K V) → length (remove k m) ≤ length m
  unfolding remove
  length-remove-le k [] = omega arith
  length-remove-le k ((i, w) ∷ m) = ground (arith, length-remove-le k m)

  pub length-remove-lt :
      (k : K) (m : Map K V) → contains_key k m ≡ true → length (remove k m) < length m
  unfolding remove contains_key
  length-remove-lt k [] h = cc
  length-remove-lt k ((i, w) ∷ m) h = ground (arith, length-remove-lt k m, length-remove-le k m)

  pub contains_key-retain :
      (p : K → V → Bool) (q : K → Bool) (j : K) (m : Map K V)
      → ((k : K) (v : V) → p k v ≡ q k)
      → contains_key j (retain p m) ≡ (q j && contains_key j m)
  unfolding contains_key filterb
  contains_key-retain p q j [] h = ground arith
  contains_key-retain p q j ((i, w) ∷ m) h =
      ground (arith, h i w, e.beq_iff i j, contains_key-retain p q j m h)

-- `Iterator::filter_map`.
unfoldable pub filter_map : {A B : Type 0} → (A → Option B) → List A → List B
filter_map f [] = []
filter_map f (x ∷ xs) = let rest = filter_map f xs in elim (f x) [ none ↦ rest | some y ↦ y ∷ rest ]
