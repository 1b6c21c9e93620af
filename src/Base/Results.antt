-- ===== src/Base/Results.antt =====
-- `Result<A, E>`, with `?` as the bind of a `do` block.
use mathlib.Core.Path.{◌≡◌, refl}
use mathlib.Core.Logic.{◌⊎◌, inl, inr}
use mathlib.Core.Bool.{Bool, true, false}
use mathlib.Core.Option.{Option, none, some}

pub data Result {ℓ κ} (E : Type κ) (A : Type ℓ) : Type (ℓ ⊔ κ) where
  ok : A → Result E A
  err : E → Result E A

infixl 5 ◌>>=◌ ◌>>◌
abbrev pub ◌>>=◌ {κ ℓ μ} :
    {E : Type κ} {X : Type ℓ} {Y : Type μ} → Result E X → (X → Result E Y) → Result E Y
err e >>= g = err e
ok x >>= g = g x

abbrev pub ◌>>◌ {κ μ} : {E : Type κ} {Y : Type μ} → Result E (Unit {0}) → Result E Y → Result E Y
r >> next = r >>= λ _. next

-- `if b { return Err(e) }`
abbrev pub refuse_if {κ} : {E : Type κ} → Bool → E → Result E (Unit {0})
refuse_if true e = err e
refuse_if false e = ok tt

-- `o.ok_or(e)`
abbrev pub ok_or {ℓ κ} : {E : Type κ} {A : Type ℓ} → Option A → E → Result E A
ok_or none e = err e
ok_or (some a) e = ok a

pub >>=-eq-ok {κ ℓ μ} :
    {E : Type κ} {X : Type ℓ} {Y : Type μ} (r : Result E X) (g : X → Result E Y) {y : Y}
    → (r >>= g) ≡ ok y
    → (x : X) × (r ≡ ok x) × (g x ≡ ok y)
>>=-eq-ok (err e) g eq = cc
>>=-eq-ok (ok x) g eq = (x, refl, eq)

pub >>-eq-ok {κ μ} :
    {E : Type κ} {B : Type μ} (r : Result E (Unit {0})) (k : Result E B) {b : B}
    → (r >> k) ≡ ok b
    → (r ≡ ok tt) × (k ≡ ok b)
>>-eq-ok (ok tt) k h = (refl, h)
>>-eq-ok (err e) k h = cc

pub refuse_if-eq-ok {κ} : {E : Type κ} (b : Bool) (e : E) → refuse_if b e ≡ ok tt → b ≡ false
refuse_if-eq-ok true e h = cc
refuse_if-eq-ok false e h = refl

pub ok_or-eq-ok {ℓ κ} :
    {E : Type κ} {A : Type ℓ} (o : Option A) (e : E) {a : A} → ok_or o e ≡ ok a → o ≡ some a
ok_or-eq-ok none e h = cc
ok_or-eq-ok (some a) e h = cc

pub ok-injective {ℓ κ} :
    {E : Type κ} {A : Type ℓ} {a b : A} → ◌≡◌ {A = Result E A} (ok a) (ok b) → a ≡ b
ok-injective h = cc

-- A check that succeeds was passed, and so was what stands behind it.
pub passed {κ μ} :
    {E : Type κ} {Y : Type μ} (b : Bool) (e : E) (next : Result E Y) {y : Y}
    → (refuse_if b e >> next) ≡ ok y
    → (b ≡ false) × (next ≡ ok y)
passed true e next h = cc
passed false e next h = (refl, h)

-- Where an error of a chain comes from.
pub >>=-eq-err {κ ℓ μ} :
    {E : Type κ} {X : Type ℓ} {Y : Type μ} (r : Result E X) (g : X → Result E Y) {e : E}
    → (r >>= g) ≡ err e
    → (r ≡ err e) ⊎ ((x : X) × (r ≡ ok x) × (g x ≡ err e))
>>=-eq-err (err e) g eq = inl (cc)
>>=-eq-err (ok x) g eq = inr (x, refl, eq)

pub ok_or-eq-err {κ ℓ} :
    {E : Type κ} {A : Type ℓ} (o : Option A) (e : E) {e' : E} → ok_or o e ≡ err e' → e' ≡ e
ok_or-eq-err none e h = cc
ok_or-eq-err (some a) e h = cc

pub refuse_if-eq-err {κ} :
    {E : Type κ} (b : Bool) (e : E) {e' : E} → refuse_if b e ≡ err e' → e' ≡ e
refuse_if-eq-err true e h = cc
refuse_if-eq-err false e h = cc

pub err-injective {ℓ κ} :
    {E : Type κ} {A : Type ℓ} {e e' : E} → ◌≡◌ {A = Result E A} (err e) (err e') → e ≡ e'
err-injective h = cc

-- `r.map_err(f)`
abbrev pub map_err {ℓ κ μ} :
    {E : Type κ} {F : Type μ} {A : Type ℓ} → (E → F) → Result E A → Result F A
map_err f (ok a) = ok a
map_err f (err e) = err (f e)
