-- ===== src/Outcome/Keeps.antt =====
-- Invariants of calls and the faults they may stop in, one rule for each way in which calls are put
-- together.
use mlnserver_web.Prelude.{Bool, true, false, ◌≡◌, refl, Option, none, some, ◌⊎◌, inl, inr}
use mlnserver_web.Outcome.{
  Exn, Fault, Outcome, ok, raise, fault, M, pure, throw, stop, continue, ◌>>=◌, handle, catching,
  or_throw, or_stop, check,
}

-- A condition on states, and the faults in which a call may stop.
pub record Contract (S : Type 0) : Type 1 where
  pub holds : S → Type 0
  pub may : Fault → Type 0

-- A call stops in no other fault than these, and what it returns satisfies `Q`.
abbrev pub EndsIn : {A : Type 0} → (Fault → Type 0) → (A → Type 0) → Outcome A → Type 0
EndsIn may Q (ok a) = Q a
EndsIn may Q (raise e) = Unit {0}
EndsIn may Q (fault f) = may f

abbrev pub StopsIn : {A : Type 0} → (Fault → Type 0) → Outcome A → Type 0
StopsIn may o = EndsIn may (λ _. Unit {0}) o

-- From a state in which the condition holds, the call leaves one in which it holds, however it ends;
-- it stops in no other fault than the contract's, and what it returns satisfies `Q`.
pub record KeepsTo {S A : Type 0} (P : Contract S) (Q : A → Type 0) (m : M S A) : Type 0 where
  pub at : (s : S) → P.holds s → P.holds (m s).1 × EndsIn P.may Q (m s).0

abbrev pub Keeps : {S A : Type 0} → Contract S → M S A → Type 0
Keeps P m = KeepsTo P (λ _. Unit {0}) m

pub StopsIn-any : {A : Type 0} (o : Outcome A) → StopsIn (λ _. Unit {0}) o
StopsIn-any (ok a) = tt
StopsIn-any (raise e) = tt
StopsIn-any (fault f) = tt

weakened :
    {A : Type 0} (may : Fault → Type 0) (Q R : A → Type 0)
    → ((a : A) → Q a → R a)
    → (o : Outcome A) → EndsIn may Q o
    → EndsIn may R o
weakened may Q R k (ok a) h = k a h
weakened may Q R k (raise e) h = tt
weakened may Q R k (fault f) h = h

module _ {S A : Type 0} {P : Contract S} where
  pub KeepsTo-mono :
      (Q R : A → Type 0) (m : M S A) → ((a : A) → Q a → R a) → KeepsTo P Q m → KeepsTo P R m
  KeepsTo-mono Q R m f k = record {
    at = λ s h. ((k.at s h).0, weakened P.may Q R f (m s).0 (k.at s h).1);
  }

  pub KeepsTo-Keeps : (Q : A → Type 0) (m : M S A) → KeepsTo P Q m → Keeps P m
  KeepsTo-Keeps Q m = KeepsTo-mono Q (λ _. Unit {0}) m (λ a h. tt)

  pub Keeps-pure : (a : A) → Keeps P (pure a)
  Keeps-pure a = record { at = λ s h. (h, tt) }

  pub Keeps-throw : (e : Exn) → Keeps P (throw {A = A} e)
  Keeps-throw e = record { at = λ s h. (h, tt) }

  pub Keeps-stop : (f : Fault) → P.may f → Keeps P (stop {A = A} f)
  Keeps-stop f k = record { at = λ s h. (h, k) }

  pub Keeps-or_throw : (o : Option A) (e : Exn) → Keeps P (or_throw o e)
  Keeps-or_throw none e = record { at = λ s h. (h, tt) }
  Keeps-or_throw (some a) e = record { at = λ s h. (h, tt) }

  pub Keeps-or_stop : (o : Option A) (f : Fault) → (o ≡ none → P.may f) → Keeps P (or_stop o f)
  Keeps-or_stop none f k = record { at = λ s h. (h, k refl) }
  Keeps-or_stop (some a) f k = record { at = λ s h. (h, tt) }

  handled :
      (r : Outcome A × S) (h : Exn → M S A)
      → P.holds r.1 × StopsIn P.may r.0
      → ((e : Exn) → Keeps P (h e))
      → P.holds (handle r h).1 × StopsIn P.may (handle r h).0
  handled (ok a, s) h p k = p
  handled (raise e, s) h p k = (k e).at s p.0
  handled (fault c, s) h p k = p

  pub Keeps-catching :
      (m : M S A) (h : Exn → M S A)
      → Keeps P m
      → ((e : Exn) → Keeps P (h e))
      → Keeps P (catching m h)
  Keeps-catching m h km kh = record { at = λ s p. handled (m s) h (km.at s p) kh }

-- A check that succeeds, or may fail.
pub Keeps-check :
    {S : Type 0} {P : Contract S} (b : Bool) (f : Fault)
    → (b ≡ true) ⊎ P.may f
    → Keeps P (check {S = S} b f)
Keeps-check true f k = record { at = λ s h. (h, tt) }
Keeps-check false f (inl h) = cc
Keeps-check false f (inr k) = record { at = λ s h. (h, k) }

module _ {S A B : Type 0} {P : Contract S} where
  continued :
      (Q : A → Type 0) (R : B → Type 0) (r : Outcome A × S) (f : A → M S B)
      → P.holds r.1 × EndsIn P.may Q r.0
      → ((a : A) → Q a → KeepsTo P R (f a))
      → P.holds (continue r f).1 × EndsIn P.may R (continue r f).0
  continued Q R (ok a, s) f p k = (k a p.1).at s p.0
  continued Q R (raise e, s) f p k = p
  continued Q R (fault c, s) f p k = p

  -- What follows may use what the call returns.
  pub KeepsTo-bind :
      (Q : A → Type 0) (R : B → Type 0) (m : M S A) (f : A → M S B)
      → KeepsTo P Q m
      → ((a : A) → Q a → KeepsTo P R (f a))
      → KeepsTo P R (m >>= f)
  KeepsTo-bind Q R m f km kf = record { at = λ s p. continued Q R (m s) f (km.at s p) kf }

  pub Keeps-bind_to :
      (Q : A → Type 0) (m : M S A) (f : A → M S B)
      → KeepsTo P Q m
      → ((a : A) → Q a → Keeps P (f a))
      → Keeps P (m >>= f)
  Keeps-bind_to Q m f km kf = KeepsTo-bind Q (λ _. Unit {0}) m f km kf

  pub Keeps-bind :
      (m : M S A) (f : A → M S B) → Keeps P m → ((a : A) → Keeps P (f a)) → Keeps P (m >>= f)
  Keeps-bind m f km kf = KeepsTo-bind (λ _. Unit {0}) (λ _. Unit {0}) m f km λ a _. kf a
