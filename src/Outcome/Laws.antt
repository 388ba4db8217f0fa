-- ===== src/Outcome/Laws.antt =====
-- Inversion of chains that returned.
use skifer.Prelude.{◌≡◌, refl, ◌⊎◌, inl, inr, Bool, true, false}
use skifer.Outcome.{Error, Result, ok, err, require, refuse, ◌>>=◌, ◌>>◌}

-- A chain that returned went through a value of its first step.
pub bind_ok {ℓ κ} :
    {Before : Type ℓ} {After : Type κ} (first : Result Before) (next : Before → Result After)
    {last : After}
    → (first >>= next) ≡ ok last
    → (value : Before) × (first ≡ ok value) × (next value ≡ ok last)
bind_ok (err e) next p = cc
bind_ok (ok value) next p = (value, refl, p)

module _ {ℓ} {A : Type ℓ} where
  pub require_ok :
      (test : Bool) (e : Error) (k : Result A) {a : A}
      → (require test e >> k) ≡ ok a
      → (test ≡ true) × (k ≡ ok a)
  require_ok true e k p = (refl, p)
  require_ok false e k p = cc

  pub refuse_ok :
      (test : Bool) (e : Error) (k : Result A) {a : A}
      → (refuse test e >> k) ≡ ok a
      → (test ≡ false) × (k ≡ ok a)
  refuse_ok false e k p = (refl, p)
  refuse_ok true e k p = cc

pub Result-cases {ℓ} :
    {A : Type ℓ} (r : Result A) → ((a : A) × (r ≡ ok a)) ⊎ ((e : Error) × (r ≡ err e))
Result-cases (ok a) = inl (a, refl)
Result-cases (err e) = inr (e, refl)

pub ok-injective {ℓ} : {A : Type ℓ} {a b : A} → ok a ≡ ok b → a ≡ b
ok-injective p = cc
