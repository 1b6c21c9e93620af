-- ===== src/Exec.antt =====
-- Methods that change files and talk to a server, and may fail. What was done before a failure stays
-- done, so the state is given back beside the error.
pub mod Keeps
pub mod Ensures
use binport.Base.{◌≡◌, refl, Bool, true, false, Result, ok, err}

abbrev pub Exec {ℓ κ μ} : Type κ → Type μ → Type ℓ → Type (ℓ ⊔ κ ⊔ μ)
Exec E S A = S → Result E A × S

module _ {ℓ κ μ} {E : Type κ} {S : Type μ} {A : Type ℓ} where
  abbrev pub pure : A → Exec E S A
  pure a s = (ok a, s)

  abbrev pub fail : E → Exec E S A
  fail e s = (err e, s)

  -- A step that leaves the state alone.
  abbrev pub lift : Result E A → Exec E S A
  lift r s = (r, s)

  abbrev pub gets : (S → A) → Exec E S A
  gets f s = (ok (f s), s)

abbrev pub modify {κ μ} : {E : Type κ} {S : Type μ} → (S → S) → Exec E S (Unit {0})
modify f s = (ok tt, f s)

abbrev pub after {ℓ κ μ ν} :
    {E : Type κ} {S : Type μ} {A : Type ℓ} {B : Type ν}
    → (A → Exec E S B)
    → Result E A × S
    → Result E B × S
after f (ok a, s) = f a s
after f (err e, s) = (err e, s)

infixl 5 ◌>>=◌ ◌>>◌
abbrev pub ◌>>=◌ {ℓ κ μ ν} :
    {E : Type κ} {S : Type μ} {A : Type ℓ} {B : Type ν} → Exec E S A → (A → Exec E S B) → Exec E S B
◌>>=◌ m f s = after f (m s)

abbrev pub ◌>>◌ {κ μ ν} :
    {E : Type κ} {S : Type μ} {B : Type ν} → Exec E S (Unit {0}) → Exec E S B → Exec E S B
m >> next = m >>= λ _. next
