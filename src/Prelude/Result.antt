-- ===== src/Prelude/Result.antt =====
-- The outcome of code that can raise: a value, or the exception.
use mathlib.Core.Path.{◌≡◌, refl, ap}
use mathlib.Core.Bool.{Bool, true, false}
use mathlib.Core.Logic.{◌≢◌, ◌⊎◌, inl, inr}

pub data Result {ℓ κ} (E : Type ℓ) (A : Type κ) : Type (ℓ ⊔ κ) where
  ok : A → Result E A
  err : E → Result E A

infixl 5 ◌>>◌ ◌>>=◌
abbrev pub ◌>>=◌ {ℓ κ ρ} :
    {Raised : Type ℓ} {A : Type κ} {B : Type ρ}
    → Result Raised A
    → (A → Result Raised B)
    → Result Raised B
outcome >>= next = elim outcome [ err raised ↦ err raised | ok value ↦ next value ]

-- A check that returns nothing, and what follows it.
abbrev pub ◌>>◌ {ℓ ρ} :
    {Raised : Type ℓ} {B : Type ρ} → Result Raised (Unit {0}) → Result Raised B → Result Raised B
check >> next = check >>= (λ _. next)

-- if test: raise e
abbrev pub raise_if {ℓ} : {E : Type ℓ} → Bool → E → Result E (Unit {0})
raise_if true e = err e
raise_if false e = ok tt

module _ {ℓ κ} {E : Type ℓ} {A : Type κ} where
  pub Result-cases : (r : Result E A) → ((a : A) × (r ≡ ok a)) ⊎ ((e : E) × (r ≡ err e))
  Result-cases (ok a) = inl (a, refl)
  Result-cases (err e) = inr (e, refl)

  -- What a chain that returns went through.
  pub >>=-eq-ok {ρ} :
      {B : Type ρ} (outcome : Result E A) (next : A → Result E B) {final : B}
      → (outcome >>= next) ≡ ok final
      → (value : A) × (outcome ≡ ok value) × (next value ≡ ok final)
  >>=-eq-ok (err raised) next returned = cc
  >>=-eq-ok (ok value) next returned = (value, refl, returned)

  pub passed :
      (test : Bool) (e : E) (k : Result E A) {a : A}
      → (raise_if test e >> k) ≡ ok a
      → (test ≡ false) × (k ≡ ok a)
  passed true e k h = cc
  passed false e k h = (refl, h)

  -- A check that returns nothing.
  pub checked :
      (m : Result E (Unit {0})) (k : Result E A) {a : A}
      → (m >> k) ≡ ok a
      → (m ≡ ok tt) × (k ≡ ok a)
  checked (ok tt) k h = (refl, h)
  checked (err e) k h = cc

  -- What is raised first is raised.
  pub >>=-raised {ρ} :
      {B : Type ρ} (e : E) (outcome : Result E A) (next : A → Result E B)
      → outcome ≡ err e
      → (outcome >>= next) ≡ err e
  >>=-raised e (ok value) next raised = cc
  >>=-raised e (err early) next raised = let same : early ≡ e = cc in ap err same

  pub ok_inj : {a b : A} → ◌≡◌ {A = Result E A} (ok a) (ok b) → a ≡ b
  ok_inj h = cc

  -- An exception that neither part raises.
  pub >>=-ne-err {ρ} :
      {B : Type ρ} (e : E) (m : Result E A) (f : A → Result E B)
      → m ≢ err e
      → ((a : A) → m ≡ ok a → f a ≢ err e)
      → (m >>= f) ≢ err e
  >>=-ne-err e (ok a) f h k = k a refl
  >>=-ne-err e (err x) f h k = λ eq. let same : x ≡ e = cc in h (ap err same)
