-- ===== src/Number/Bounds.antt =====
-- How `std::stoull` ends, and the range of the conversion of a port to `int`.
use mlnserver_web.Prelude.{
  ℕ, ◌+◌, ◌-◌, ◌^◌, ◌<◌, ◌≡◌, ◌⊎◌, refl, sym, ap, ◌∙◌, Bool, true, false, Bool-cases, inl, inr, [],
  ◌∷◌, arith, Bytes, ltb, leb, ◌==◌, pos, negsuc,
}
use mlnserver_web.Outcome.{Exn, Fault, ok, raise, is_std}
use mlnserver_web.Outcome.Keeps.{StopsIn}
use mlnserver_web.Conf.{u32_mod, to_int32}
use mlnserver_web.Number.{
  u64_mod, to_string, value, starts_with_digit, unsigned, signed, skip_spaces, stoull,
}
use mlnserver_web.Number.Laws.{IsDigit, decimal-Begins, value-to_string}

-- Whatever text `std::stoull` is given, it returns or throws.
unsigned-StopsIn :
    (may : Fault → Type 0) (negative : Bool) (s : Bytes) → StopsIn may (unsigned negative s)
unfolding unsigned
unsigned-StopsIn may negative s = elim (Bool-cases (starts_with_digit s)) [
  | inr other ↦ rw other tt
  | inl number ↦ rw number (elim (Bool-cases (leb u64_mod (value 0 s))) [
    | inl large ↦ rw large tt
    | inr fits ↦ rw fits tt
  ])
]

signed-StopsIn : (may : Fault → Type 0) (s : Bytes) → StopsIn may (signed s)
unfolding signed
signed-StopsIn may [] = tt
signed-StopsIn may (c ∷ s) = elim (Bool-cases (c == b'-')) [
  | inl minus ↦ rw minus (unsigned-StopsIn may true s)
  | inr other ↦ rw other (elim (Bool-cases (c == b'+')) [
    | inl plus ↦ rw plus (unsigned-StopsIn may false s)
    | inr digit ↦ rw digit (unsigned-StopsIn may false (c ∷ s))
  ])
]

pub stoull-StopsIn : (may : Fault → Type 0) (s : Bytes) → StopsIn may (stoull s)
unfolding stoull
stoull-StopsIn may s = signed-StopsIn may (skip_spaces s)

-- What `std::stoull` throws derives from std::exception.
unsigned-is_std :
    (negative : Bool) (s : Bytes) (e : Exn) → unsigned negative s ≡ raise e → is_std e ≡ true
unfolding unsigned
unsigned-is_std negative s e h = ground arith

signed-is_std : (s : Bytes) (e : Exn) → signed s ≡ raise e → is_std e ≡ true
unfolding signed
signed-is_std [] e h = ground arith
signed-is_std (c ∷ s) e h =
    ground
      (arith, unsigned-is_std true s e, unsigned-is_std false s e, unsigned-is_std false (c ∷ s) e)

pub stoull-is_std : (s : Bytes) (e : Exn) → stoull s ≡ raise e → is_std e ≡ true
unfolding stoull
stoull-is_std s e h = signed-is_std (skip_spaces s) e h

stoull_digits_exact :
    (c : ℕ) (s : Bytes) (m : ℕ) → IsDigit c → stoull (c ∷ s) ≡ ok m → value 0 (c ∷ s) ≡ m
unfolding stoull
stoull_digits_exact c s m d h = ground arith

-- What is read back from a number's text is that number.
pub stoull_exact : (n m : ℕ) → stoull (to_string n) ≡ ok m → n ≡ m
unfolding to_string
stoull_exact n m h =
    let (c, t, e, d) = decimal-Begins n n (omega arith) in
    sym (value-to_string n) ∙ ap (value 0) e ∙ stoull_digits_exact c t m d (ap stoull (sym e) ∙ h)

-- The conversion of a `uint32_t` to `int` keeps a number below 2 ^ 31; a larger one becomes the
-- negative number that lies 2 ^ 32 below it.
pub to_int32_range :
    (n : ℕ)
    → n < u32_mod
    → ((n < 2 ^ 31) × (to_int32 n ≡ pos n))
      ⊎ ((k : ℕ) × (k < 2 ^ 31) × (n + k + 1 ≡ u32_mod) × (to_int32 n ≡ negsuc k))
to_int32_range n h = elim (Bool-cases (ltb n (2 ^ 31))) [
  | inl small ↦ inl (ground arith, rw small refl)
  | inr large ↦ inr (u32_mod - n - 1, ground arith, ground arith, rw large refl)
]
