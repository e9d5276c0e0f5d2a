-- ===== src/Prelude/Result.antt =====
-- Go's pair of a result and an error: a value, or an error of the component's own type.
use mathlib.Core.Bool.{Bool, true, false}
use mathlib.Core.Logic.{◌⊎◌, inl, inr}
use mathlib.Core.Path.{◌≡◌, refl, ap}

pub data Result {ℓ κ} (E : Type ℓ) (A : Type κ) : Type (ℓ ⊔ κ) where
  ok : A → Result E A
  err : E → Result E A

module _ {ℓ} {E : Type ℓ} where
  infixl 5 ◌>>=◌ ◌>>◌
  abbrev pub ◌>>=◌ {κ μ} : {A : Type κ} {B : Type μ} → Result E A → (A → Result E B) → Result E B
  ok a >>= f = f a
  err e >>= f = err e

  abbrev pub ◌>>◌ {κ} : {B : Type κ} → Result E (Unit {0}) → Result E B → Result E B
  m >> k = m >>= λ _. k

  -- `if test { return err }`.
  abbrev pub fail_if : Bool → E → Result E (Unit {0})
  fail_if true e = err e
  fail_if false e = ok tt

  pub Result-cases {κ} :
      {A : Type κ} (r : Result E A) → ((a : A) × (r ≡ ok a)) ⊎ ((e : E) × (r ≡ err e))
  Result-cases (ok a) = inl (a, refl)
  Result-cases (err e) = inr (e, refl)

  pub ok_inj {κ} : {A : Type κ} {a b : A} → Path (Result E A) (ok a) (ok b) → a ≡ b
  ok_inj e = cc

  pub err_inj {κ} : {A : Type κ} {x y : E} → Path (Result E A) (err x) (err y) → x ≡ y
  err_inj e = cc

  -- A chain that succeeds has succeeded in its first step and in the rest.
  pub >>=-eq-ok {κ μ} :
      {A : Type κ} {B : Type μ} (step : Result E A) (rest : A → Result E B) {last : B}
      → step >>= rest ≡ ok last
      → (first : A) × (step ≡ ok first) × (rest first ≡ ok last)
  >>=-eq-ok (err failed) rest chain = absurd (cc)
  >>=-eq-ok (ok first) rest chain = (first, refl, chain)

  -- A guard that was passed.
  pub fail_if-eq-ok {κ} :
      {A : Type κ} (b : Bool) (e : E) (rest : Result E A) {last : A}
      → fail_if b e >> rest ≡ ok last
      → (b ≡ false) × (rest ≡ ok last)
  fail_if-eq-ok true e rest chain = absurd (cc)
  fail_if-eq-ok false e rest chain = (refl, chain)

  -- An error of neither step is no error of the chain.
  pub >>=-≢ {κ μ} :
      {A : Type κ} {B : Type μ} {e : E} (step : Result E A) (rest : A → Result E B)
      → ¬ (step ≡ err e)
      → ((a : A) → step ≡ ok a → ¬ (rest a ≡ err e))
      → ¬ (step >>= rest ≡ err e)
  >>=-≢ (ok a) rest first later chain = later a refl chain
  >>=-≢ (err x) rest first later chain = first (ap err (err_inj chain))
