-- ===== src/Common/Effects.antt =====
-- A method with `&mut` state that can fail: the state is kept as it stood where `?` left.
use mathlib.Core.Path.{◌≡◌, refl, subst, ap}
use mathlib.Core.Bool.{Bool, true, false}
use native.Mathlib.Omega.{arith}
use router_hub.Common.Tests.{Result, ok, err, if◌then◌else◌}

abbrev pub M : Type 0 → Type 0 → Type 0 → Type 0
M E S A = S → Result E A × S

infixl 5 ◌>>=◌ ◌>>◌
abbrev pub ◌>>=◌ : {E S A B : Type 0} → M E S A → (A → M E S B) → M E S B
◌>>=◌ m f s = elim (m s).0 [ ok a ↦ f a (m s).1 | err e ↦ (err e, (m s).1) ]

abbrev pub ◌>>◌ : {E S B : Type 0} → M E S (Unit {0}) → M E S B → M E S B
m >> k = m >>= λ _. k

abbrev pub pure : {E S A : Type 0} → A → M E S A
pure a s = (ok a, s)

abbrev pub modify : {E S : Type 0} → (S → S) → M E S (Unit {0})
modify f s = (ok tt, f s)

abbrev pub throw : {E S A : Type 0} → E → M E S A
throw e s = (err e, s)

-- `.map_err(f)` of a call.
abbrev pub map_err : {X Y E A : Type 0} → (X → Y) → M X E A → M Y E A
map_err f m e = let (r, e1) = m e in elim r [ ok a ↦ (ok a, e1) | err x ↦ (err (f x), e1) ]

-- The end of a run: `Q` of the result and the state, or `R` of the state that an error leaves.
abbrev pub Ends : {E S A : Type 0} → (A → S → Type 0) → (S → Type 0) → Result E A × S → Type 0
Ends Q R (ok a, s) = Q a s
Ends Q R (err e, s) = R s

abbrev pub Triple :
    {E S A : Type 0} → (S → Type 0) → M E S A → (A → S → Type 0) → (S → Type 0) → Type 0
Triple {S} P m Q R = (s : S) → P s → Ends Q R (m s)

module _ {E S A B : Type 0} where
  bind-Ends :
      (Q : A → S → Type 0) (Q' : B → S → Type 0) (R : S → Type 0) (f : A → M E S B)
      (r : Result E A × S)
      → Ends Q R r
      → ((a : A) → Triple (Q a) (f a) Q' R)
      → Ends Q' R (◌>>=◌ {E = E} {S = S} (λ _. r) f r.1)
  bind-Ends Q Q' R f (ok a, s) h k = k a s h
  bind-Ends Q Q' R f (err e, s) h k = h

  -- The rule for `?`.
  pub bind_rule :
      (P : S → Type 0) (Q : A → S → Type 0) (Q' : B → S → Type 0) (R : S → Type 0) (m : M E S A)
      (f : A → M E S B)
      → Triple P m Q R
      → ((a : A) → Triple (Q a) (f a) Q' R)
      → Triple P (m >>= f) Q' R
  bind_rule P Q Q' R m f h k s p = bind-Ends Q Q' R f (m s) (h s p) k

-- What holds at either end holds of the final state.
pub Ends-state : {E S A : Type 0} (P : S → Type 0) (r : Result E A × S) → Ends (λ _. P) P r → P r.1
Ends-state P (ok a, s) h = h
Ends-state P (err e, s) h = h

module _ {E S A : Type 0} (Q : A → S → Type 0) (R : S → Type 0) where
  -- The rule for a test.
  pub if-Ends :
      (c : Bool) (x y : Result E A × S)
      → (c ≡ true → Ends Q R x)
      → (c ≡ false → Ends Q R y)
      → Ends Q R (if c then x else y)
  if-Ends true x y h k = h refl
  if-Ends false x y h k = k refl

  -- The rule of consequence.
  pub Ends-weaken :
      (Q' : A → S → Type 0) (R' : S → Type 0) (r : Result E A × S)
      → ((a : A) (s : S) → Q a s → Q' a s)
      → ((s : S) → R s → R' s)
      → Ends Q R r
      → Ends Q' R' r
  Ends-weaken Q' R' (ok a, s) h k x = h a s x
  Ends-weaken Q' R' (err e, s) h k x = k s x

pub Ends-of_state :
    {E S A : Type 0} (P : S → Type 0) (r : Result E A × S) → P r.1 → Ends (λ _. P) P r
Ends-of_state P (ok a, s) h = h
Ends-of_state P (err e, s) h = h

module _ {E S A : Type 0} (Q : A → S → Type 0) (R : S → Type 0) where
  -- An end is judged by its reply.
  pub Ends-of_reply :
      (r : Result E A × S)
      → ((a : A) → r.0 ≡ ok a → Q a r.1)
      → ((e : E) → r.0 ≡ err e → R r.1)
      → Ends Q R r
  Ends-of_reply (ok a, s) h k = h a refl
  Ends-of_reply (err e, s) h k = k e refl

abbrev ok_or : {E A : Type 0} → A → Result E A → A
ok_or d (ok a) = a
ok_or d (err e) = d

-- What a run that ended well has established.
pub Ends-ok :
    {E S A : Type 0} (Q : A → S → Type 0) (R : S → Type 0) (r : Result E A × S) {a : A}
    → Ends Q R r
    → r.0 ≡ ok a
    → Q a r.1
Ends-ok Q R (ok b, s) {a} h e = subst (λ c. Q c s) (ap (ok_or b) e) h
Ends-ok Q R (err x, s) h e = absurd (ground arith)
