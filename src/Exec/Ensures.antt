-- ===== src/Exec/Ensures.antt =====
-- What a success of an action ensures, from what holds before.
use binport.Base.{◌≡◌, refl, ap, subst, Result, ok, Bool, true, false, if◌then◌else◌, ok-injective}
use binport.Exec.{Exec, pure, lift, ◌>>=◌}
use binport.Exec.Keeps.{>>=-eq-ok, lift-eq-ok}

module _ {ℓ κ μ ν} {E : Type κ} {S : Type μ} {A : Type ℓ} (P : S → Type ν) where
  pub record Ensures (m : Exec E S A) (Q : A → S → Type ν) : Type (ℓ ⊔ κ ⊔ μ ⊔ ν) where
    pub holds : (s s' : S) (a : A) → P s → m s ≡ (ok a, s') → Q a s'

module _ {ν} {E : Type 0} {S : Type 0} {P : S → Type ν} where
  pub Ensures-bind :
      {A B : Type 0} {R : B → S → Type ν} (m : Exec E S A) (f : A → Exec E S B) (Q : A → S → Type ν)
      → Ensures P m Q
      → ((a : A) → Ensures (Q a) (f a) R)
      → Ensures P (m >>= f) R
  Ensures-bind m f Q hm hf = record {
    holds = λ s s'' b p h.
        let (a, s', here, later) = >>=-eq-ok m f s h in
        (hf a).holds s' s'' b (hm.holds s s' a p here) later;
  }

  pub Ensures-bind_lift :
      {A B : Type 0} {R : B → S → Type ν} (r : Result E A) (f : A → Exec E S B)
      → ((a : A) → r ≡ ok a → Ensures P (f a) R)
      → Ensures P (lift r >>= f) R
  Ensures-bind_lift r f hf = record {
    holds =
        λ s s'' b p h. let (a, is, later) = lift-eq-ok r f s h in (hf a is).holds s s'' b p later;
  }

  pub Ensures-if :
      {A : Type 0} {Q : A → S → Type ν} (b : Bool) (m n : Exec E S A)
      → (b ≡ true → Ensures P m Q)
      → (b ≡ false → Ensures P n Q)
      → Ensures P (if b then m else n) Q
  Ensures-if true m n hm hn = hm refl
  Ensures-if false m n hm hn = hn refl

  pub Ensures-weaken :
      {A : Type 0} {Q R : A → S → Type ν} (m : Exec E S A)
      → Ensures P m Q
      → ((a : A) (s : S) → Q a s → R a s)
      → Ensures P m R
  Ensures-weaken m h k = record { holds = λ s s' a p e. k a s' (h.holds s s' a p e) }

  pub Ensures-before :
      {A : Type 0} {P' : S → Type ν} {Q : A → S → Type ν} (m : Exec E S A)
      → ((s : S) → P s → P' s)
      → Ensures P' m Q
      → Ensures P m Q
  Ensures-before m k h = record { holds = λ s s' a p e. h.holds s s' a (k s p) e }

  -- A fact that is no matter of the state.
  pub Ensures-fact :
      {A : Type 0} {F : Type ν} {Q : A → S → Type ν} (m : Exec E S A)
      → (F → Ensures P m Q)
      → Ensures (λ s. P s × F) m Q
  Ensures-fact m h = record { holds = λ s s' a p e. (h p.1).holds s s' a p.0 e }

pub Ensures-pure {ν} :
    {E S A : Type 0} (Q : A → S → Type ν) (a : A) → Ensures {E = E} (Q a) (pure a) Q
Ensures-pure {E} {S} {A} Q a = record {
  holds = λ s s' a' p e.
      subst (Q a') (ap (λ (out : Result E A × S). out.1) e)
        (subst (λ x. Q x s) (ok-injective (ap (λ (out : Result E A × S). out.0) e)) p);
}
