-- ===== src/Base/Results.antt =====
-- What a chain of fallible steps that ends well says of its steps.
use mathlib.Core.Path.{◌≡◌, refl, subst, sym, ap}
use mathlib.Core.Bool.{Bool, true, false}
use execgo.Base.Errors.{Except, ok, err, ◌>>=◌}
use execgo.Base.Tests.{if◌then◌else◌}

module _ {ℓ κ} {E : Type ℓ} {A : Type κ} where
  abbrev from_ok : A → Except E A → A
  from_ok d (ok a) = a
  from_ok d (err _) = d

  pub ok_injective : (a b : A) → ◌≡◌ {A = Except E A} (ok a) (ok b) → a ≡ b
  ok_injective a b e = ap (from_ok a) e

  pub absurd_ok : (x : E) (a : A) → ◌≡◌ {A = Except E A} (err x) (ok a) → ⊥
  absurd_ok x a e = cc e

  pub if_ok :
      (b : Bool) (x : E) (m : Except E A) (r : A)
      → (if b then err x else m) ≡ ok r
      → (b ≡ false) × (m ≡ ok r)
  if_ok true x m r e = absurd (absurd_ok x r e)
  if_ok false x m r e = (refl, e)

module _ {ℓ κ μ} {E : Type ℓ} {A : Type κ} where
  pub if_either :
      (b : Bool) (m n : Except E A) (r : A) (P : Type μ)
      → (if b then m else n) ≡ ok r
      → (b ≡ true → m ≡ ok r → P)
      → (b ≡ false → n ≡ ok r → P)
      → P
  if_either true m n r P e h k = h refl e
  if_either false m n r P e h k = k refl e

module _ {ℓ κ μ} {E : Type ℓ} {A : Type κ} {B : Type μ} where
  pub bind_ok :
      (m : Except E A) (f : A → Except E B) (r : B)
      → (m >>= f) ≡ ok r
      → (a : A) × (m ≡ ok a) × (f a ≡ ok r)
  bind_ok (ok a) f r e = (a, refl, e)
  bind_ok (err x) f r e = absurd (absurd_ok x r e)

  pub bind_err :
      (m : Except E A) (f : A → Except E B) (x : E) (P : Type 0)
      → (m ≡ err x → P)
      → ((a : A) → m ≡ ok a → f a ≡ err x → P)
      → (m >>= f) ≡ err x
      → P
  bind_err (ok a) f x P h k e = k a refl e
  bind_err (err y) f x P h k e = h (cc e)

  pub bind_intro :
      (m : Except E A) (f : A → Except E B) (a : A) (r : B)
      → m ≡ ok a
      → f a ≡ ok r
      → (m >>= f) ≡ ok r
  bind_intro m f a r e h = subst (λ x. (x >>= f) ≡ ok r) (sym e) h
