-- ===== src/Common/Results.antt =====
-- Values with Go's `error`: a value or an error, and the chain that stops at the first error.
use mathlib.Core.Path.{◌≡◌, refl}
use mathlib.Core.Logic.{◌⊎◌, inl, inr}

pub data Result {ℓ κ} (Err : Type ℓ) (Val : Type κ) : Type (ℓ ⊔ κ) where
  ok : Val → Result Err Val
  err : Err → Result Err Val

infixl 5 ◌>>=◌
abbrev pub ◌>>=◌ {ℓ κ μ} :
    {Err : Type ℓ} {Val : Type κ} {Next : Type μ}
    → Result Err Val
    → (Val → Result Err Next)
    → Result Err Next
err x >>= next = err x
ok v >>= next = next v

module _ {ℓ κ} {Err : Type ℓ} {Val : Type κ} where
  pub Result-cases : (r : Result Err Val) → ((v : Val) × (r ≡ ok v)) ⊎ ((x : Err) × (r ≡ err x))
  Result-cases (err x) = inr (x, refl)
  Result-cases (ok v) = inl (v, refl)

  pub ok_inj : {v w : Val} → ◌≡◌ {A = Result Err Val} (ok v) (ok w) → v ≡ w
  ok_inj p = cc

  pub err≢ok : {x : Err} {v : Val} → ◌≡◌ {A = Result Err Val} (err x) (ok v) → ⊥
  err≢ok p = cc

  -- What a chain that succeeded went through.
  pub >>=-eq-ok {μ} :
      {Next : Type μ} (r : Result Err Val) (next : Val → Result Err Next) {w : Next}
      → (r >>= next) ≡ ok w
      → (v : Val) × (r ≡ ok v) × (next v ≡ ok w)
  >>=-eq-ok (err x) next p = cc
  >>=-eq-ok (ok v) next p = (v, refl, p)
