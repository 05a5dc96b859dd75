-- ===== src/Outcome.antt =====
-- How a C++ call ends: with a value, with an exception, or in a state where the code has no
-- defined behaviour or stops the process. `M S A` is a call that reads and changes a state `S`.
pub mod Keeps
use mlnserver_web.Prelude.{
  ℕ, ◌≡◌, refl, sym, ap, ◌⊎◌, inl, inr, Bool, true, false, Option, none, some, Bytes,
}

-- The exception classes that a `catch` clause of the program tells apart.
pub data Exn : Type 0 where
  -- std::out_of_range, and MysqlFailedRead of mlnserver/lobbyServerUtils.h
  out_of_range failed_read : Exn
  -- boost::mysql::bad_field_access, boost::system::system_error with its code and its message
  bad_field_access : Exn
  system_error : ℕ → Bytes → Exn
  -- sw::redis::Error and its subclass TimeoutError
  redis_error timeout_error : Bytes → Exn
  -- std::invalid_argument, std::bad_optional_access, std::runtime_error, any other std::exception
  invalid_argument bad_optional_access : Exn
  runtime_error : Bytes → Exn
  other_exception : Exn
  -- a type that does not derive from std::exception
  foreign : Exn

pub data Fault : Type 0 where
  -- a call through a null pointer, `row[0]` of an empty row, a failed `assert`, an array of `char`
  -- that is read beyond its end
  null_connection null_redis null_checker empty_row assertion unterminated : Fault
  -- std::exit, and a loop that the model cut off
  exited out_of_fuel : Fault

pub data Outcome (A : Type 0) : Type 0 where
  ok : A → Outcome A
  raise : Exn → Outcome A
  fault : Fault → Outcome A

-- `catch (const std::exception&)`.
abbrev pub is_std : Exn → Bool
is_std foreign = false
is_std _ = true

abbrev pub M : Type 0 → Type 0 → Type 0
M S A = S → Outcome A × S

abbrev pub pure : {S A : Type 0} → A → M S A
pure a s = (ok a, s)

abbrev pub throw : {S A : Type 0} → Exn → M S A
throw e s = (raise e, s)

abbrev pub stop : {S A : Type 0} → Fault → M S A
stop f s = (fault f, s)

abbrev pub continue : {S A B : Type 0} → Outcome A × S → (A → M S B) → Outcome B × S
continue (ok a, s) f = f a s
continue (raise e, s) f = (raise e, s)
continue (fault c, s) f = (fault c, s)

infixl 5 ◌>>=◌ ◌>>◌
abbrev pub ◌>>=◌ : {S A B : Type 0} → M S A → (A → M S B) → M S B
◌>>=◌ m f s = continue (m s) f

abbrev pub ◌>>◌ : {S B : Type 0} → M S (Unit {0}) → M S B → M S B
m >> k = m >>= λ _. k

-- `try { m } catch …`: the handler sees the state as the exception left it.
abbrev pub handle : {S A : Type 0} → Outcome A × S → (Exn → M S A) → Outcome A × S
handle (ok a, s) h = (ok a, s)
handle (raise e, s) h = h e s
handle (fault c, s) h = (fault c, s)

abbrev pub catching : {S A : Type 0} → M S A → (Exn → M S A) → M S A
catching m h s = handle (m s) h

-- A value that is there or not, and what stands in for one that is not.
abbrev pub or_throw : {S A : Type 0} → Option A → Exn → M S A
or_throw none e = throw e
or_throw (some a) e = pure a

abbrev pub or_stop : {S A : Type 0} → Option A → Fault → M S A
or_stop none f = stop f
or_stop (some a) f = pure a

abbrev pub check : {S : Type 0} → Bool → Fault → M S (Unit {0})
check true f = pure tt
check false f = stop f

pub Outcome-cases :
    {A : Type 0} (o : Outcome A)
    → ((a : A) × (o ≡ ok a)) ⊎ ((e : Exn) × (o ≡ raise e)) ⊎ ((f : Fault) × (o ≡ fault f))
Outcome-cases (ok a) = inl (a, refl)
Outcome-cases (raise e) = inr (inl (e, refl))
Outcome-cases (fault f) = inr (inr (f, refl))

-- Inversion of a call that returned.
pub continue-eq-ok :
    {S A B : Type 0} (r : Outcome A × S) (f : A → M S B) {b : B} {t : S}
    → continue r f ≡ (ok b, t)
    → (a : A) × (s : S) × (r ≡ (ok a, s)) × (f a s ≡ (ok b, t))
continue-eq-ok (ok a, s) f h = (a, s, refl, h)
continue-eq-ok (raise e, s) f h = cc
continue-eq-ok (fault c, s) f h = cc

pub check-eq-ok :
    {S : Type 0} (b : Bool) (f : Fault) (s t : S) {a : Unit {0}}
    → check b f s ≡ (ok a, t)
    → (b ≡ true) × (t ≡ s)
check-eq-ok true f s t h = (refl, sym (ap (λ r. r.1) h))
check-eq-ok false f s t h = cc

pub or_throw-eq-ok :
    {S A : Type 0} (o : Option A) (e : Exn) (s t : S) {a : A}
    → or_throw o e s ≡ (ok a, t)
    → o ≡ some a
or_throw-eq-ok none e s t h = cc
or_throw-eq-ok (some b) e s t h = cc (ap (λ r. r.0) h)

pub ok-injective : {A : Type 0} {a b : A} → ok a ≡ ok b → a ≡ b
ok-injective h = cc

-- Calls that go on in the same way end in the same way.
pub continue_same :
    {S A B : Type 0} (r : Outcome A × S) (f g : A → M S B)
    → ((a : A) (s : S) → f a s ≡ g a s)
    → continue r f ≡ continue r g
continue_same (ok a, s) f g h = h a s
continue_same (raise e, s) f g h = refl
continue_same (fault c, s) f g h = refl
