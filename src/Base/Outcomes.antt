-- ===== src/Base/Outcomes.antt =====
-- What holds of the result of an execution, if there is one.
use mathlib.Core.Path.{◌≡◌, refl, subst, sym}
use mathlib.Core.Bool.{Bool, true, false}
use obs_st.Base.Word.{if◌then◌else◌}
use obs_st.Base.Memory.{Exec, ok, fault, ◌>>=◌, Returns}

-- Whatever `m` returns satisfies `P`.
unfoldable pub Ensures {ℓ} : {A : Type ℓ} → Exec A → (A → Type 0) → Type 0
Ensures (ok a) P = P a
Ensures fault P = Unit

module _ {ℓ} {A : Type ℓ} (P : A → Type 0) where
  pub Ensures-ok : (a : A) → P a → Ensures (ok a) P
  unfolding Ensures
  Ensures-ok a p = p

  pub Ensures-ok_of : {m : Exec A} {a : A} → Ensures m P → m ≡ ok a → P a
  unfolding Ensures
  Ensures-ok_of h e = subst (λ m. Ensures m P) e h

  pub Ensures-Returns : {m : Exec A} → Returns m P → Ensures m P
  unfolding Ensures
  Ensures-Returns (a, e, p) = subst (λ m. Ensures m P) (sym e) p

  pub Ensures-bind {μ} :
      {B : Type μ} (Q : B → Type 0) (m : Exec A) (f : A → Exec B)
      → Ensures m P
      → ((a : A) → P a → Ensures (f a) Q)
      → Ensures (m >>= f) Q
  unfolding Ensures
  Ensures-bind Q (ok a) f h next = next a h
  Ensures-bind Q fault f h next = tt

  -- To return and what holds of the result, together.
  pub Returns-both {ν} :
      {Q : A → Type ν} {m : Exec A} → Returns m Q → Ensures m P → Returns m (λ a. Q a × P a)
  unfolding Ensures
  Returns-both (a, e, q) h = (a, e, (q, subst (λ m. Ensures m P) e h))

module _ {ℓ μ} {A : Type ℓ} {B : Type μ} (Q : B → Type 0) where
  -- A step of which nothing need be known.
  pub Ensures-after :
      (m : Exec A) (f : A → Exec B) → ((a : A) → Ensures (f a) Q) → Ensures (m >>= f) Q
  unfolding Ensures
  Ensures-after (ok a) f next = next a
  Ensures-after fault f next = tt

module _ {ℓ μ} {A : Type ℓ} {B : Type μ} (Q : B → Type 0) where
  -- A step of which its result is known.
  pub Ensures-run :
      (m : Exec A) (f : A → Exec B) → ((a : A) → m ≡ ok a → Ensures (f a) Q) → Ensures (m >>= f) Q
  unfolding Ensures
  Ensures-run (ok a) f next = next a refl
  Ensures-run fault f next = tt

module _ {ℓ} {A : Type ℓ} (P : A → Type 0) where
  pub Ensures-if :
      (b : Bool) (x y : Exec A) → Ensures x P → Ensures y P → Ensures (if b then x else y) P
  Ensures-if true x y p q = p
  Ensures-if false x y p q = q

  pub Ensures-split :
      (b : Bool) (x y : Exec A)
      → (b ≡ true → Ensures x P)
      → (b ≡ false → Ensures y P)
      → Ensures (if b then x else y) P
  Ensures-split true x y p q = p refl
  Ensures-split false x y p q = q refl

  pub Ensures-weaken :
      (Q : A → Type 0) (m : Exec A) → Ensures m P → ((a : A) → P a → Q a) → Ensures m Q
  unfolding Ensures
  Ensures-weaken Q (ok a) h f = f a h
  Ensures-weaken Q fault h f = tt

module _ {ℓ} {A : Type ℓ} where
  pub Returns-if {κ} :
      {Q : A → Type κ} (b : Bool) {x y : Exec A}
      → (b ≡ true → Returns x Q)
      → (b ≡ false → Returns y Q)
      → Returns (if b then x else y) Q
  Returns-if true p q = p refl
  Returns-if false p q = q refl
