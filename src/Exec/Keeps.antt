-- ===== src/Exec/Keeps.antt =====
-- Invariants that an action keeps whether it fails or not, and what a success says of its parts.
use binport.Base.{◌≡◌, refl, Result, ok, err, Bool, true, false, if◌then◌else◌}
use binport.Exec.{Exec, pure, fail, lift, gets, after, ◌>>=◌}

module _ {ℓ κ μ ν} {E : Type κ} {S : Type μ} {A : Type ℓ} (P : S → Type ν) where
  pub record Keeps (m : Exec E S A) : Type (ℓ ⊔ κ ⊔ μ ⊔ ν) where
    pub holds : (s : S) → P s → P (m s).1

after-holds {ℓ κ μ ν ρ} :
    {E : Type κ} {S : Type μ} (P : S → Type ν) {A : Type ℓ} {B : Type ρ} (f : A → Exec E S B)
    (out : Result E A × S)
    → P out.1
    → ((a : A) → out.0 ≡ ok a → P (f a out.1).1)
    → P (after f out).1
after-holds P f (ok a, s) h g = g a refl
after-holds P f (err e, s) h g = h

module _ {κ μ ν} {E : Type κ} {S : Type μ} {P : S → Type ν} where
  pub Keeps-lift {ℓ} : {A : Type ℓ} (r : Result E A) → Keeps P (lift r)
  Keeps-lift r = record { holds = λ s h. h }

  pub Keeps-pure {ℓ} : {A : Type ℓ} (a : A) → Keeps {E = E} P (pure a)
  Keeps-pure a = record { holds = λ s h. h }

  pub Keeps-fail {ℓ} : {A : Type ℓ} (e : E) → Keeps {A = A} P (fail e)
  Keeps-fail e = record { holds = λ s h. h }

  pub Keeps-gets {ℓ} : {A : Type ℓ} (f : S → A) → Keeps {E = E} P (gets f)
  Keeps-gets f = record { holds = λ s h. h }

  pub Keeps-if {ℓ} :
      {A : Type ℓ} (b : Bool) (m n : Exec E S A)
      → Keeps P m
      → Keeps P n
      → Keeps P (if b then m else n)
  Keeps-if true m n hm hn = hm
  Keeps-if false m n hm hn = hn

  -- Each branch may use the outcome of the test.
  pub Keeps-test {ℓ} :
      {A : Type ℓ} (b : Bool) (m n : Exec E S A)
      → (b ≡ true → Keeps P m)
      → (b ≡ false → Keeps P n)
      → Keeps P (if b then m else n)
  Keeps-test true m n hm hn = hm refl
  Keeps-test false m n hm hn = hn refl

  pub Keeps-bind {ℓ ρ} :
      {A : Type ℓ} {B : Type ρ} (m : Exec E S A) (f : A → Exec E S B)
      → Keeps P m
      → ((a : A) → Keeps P (f a))
      → Keeps P (m >>= f)
  Keeps-bind m f hm hf = record {
    holds =
        λ s h. after-holds P f (m s) (hm.holds s h) (λ a _. (hf a).holds (m s).1 (hm.holds s h));
  }

  -- The rest may use what the state alone decides.
  pub Keeps-bind_lift {ℓ ρ} :
      {A : Type ℓ} {B : Type ρ} (r : Result E A) (f : A → Exec E S B)
      → ((a : A) → r ≡ ok a → Keeps P (f a))
      → Keeps P (lift r >>= f)
  Keeps-bind_lift (ok a) f hf = record { holds = λ s h. (hf a refl).holds s h }
  Keeps-bind_lift (err e) f hf = record { holds = λ s h. h }

-- A chain that succeeds has succeeded in its first part and in the rest.
pub >>=-eq-ok {ℓ κ μ ν} :
    {E : Type κ} {S : Type μ} {A : Type ℓ} {B : Type ν} (m : Exec E S A) (f : A → Exec E S B)
    (s : S) {b : B} {s'' : S}
    → (m >>= f) s ≡ (ok b, s'')
    → (a : A) × (s' : S) × (m s ≡ (ok a, s')) × (f a s' ≡ (ok b, s''))
>>=-eq-ok {E = E} {S} {A} {B} m f s {b} {s''} h = inspect (m s) h
  where
    inspect :
        (out : Result E A × S)
        → after f out ≡ (ok b, s'')
        → (a : A) × (s' : S) × (out ≡ (ok a, s')) × (f a s' ≡ (ok b, s''))
    inspect (ok a, s') e = (a, s', refl, e)
    inspect (err x, s') e = cc

-- The same where the first part leaves the state alone.
pub lift-eq-ok {ℓ κ μ ν} :
    {E : Type κ} {S : Type μ} {A : Type ℓ} {B : Type ν} (r : Result E A) (f : A → Exec E S B)
    (s : S) {b : B} {s'' : S}
    → (lift r >>= f) s ≡ (ok b, s'')
    → (a : A) × (r ≡ ok a) × (f a s ≡ (ok b, s''))
lift-eq-ok (ok a) f s h = (a, refl, h)
lift-eq-ok (err e) f s h = cc

pub ruleset keeps_rules = (Keeps-pure, Keeps-fail, Keeps-lift, Keeps-gets, Keeps-if, Keeps-bind)
