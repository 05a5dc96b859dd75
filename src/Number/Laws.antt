-- ===== src/Number/Laws.antt =====
-- Printing and reading a 64-bit integer are inverse, and printing is injective.
use mlnserver_web.Prelude.{
  ℕ, zero, suc, ◌+◌, ◌-◌, ◌*◌, ◌/◌, ◌%◌, ◌≤◌, ◌<◌, ◌≡◌, refl, sym, ap, ◌∙◌, true, false, [], ◌∷◌,
  ◌++◌, arith, Bytes, ltb, Bool-cases, inl, inr, All, All-append,
}
use mlnserver_web.Outcome.{ok}
use mlnserver_web.Number.{u64_mod, decimal, to_string, is_digit, value, stoull}

abbrev pub IsDigit : ℕ → Type 0
IsDigit c = is_digit c ≡ true

decimal-zero : (n : ℕ) → decimal zero n ≡ (b'0' + n) ∷ []
unfolding decimal
decimal-zero n = refl

decimal_small : (f n : ℕ) → ltb n 10 ≡ true → decimal (suc f) n ≡ (b'0' + n) ∷ []
unfolding decimal
decimal_small f n h = rw (h, decimal)

decimal_large :
    (f n : ℕ) → ltb n 10 ≡ false → decimal (suc f) n ≡ decimal f (n / 10) ++ ((b'0' + n % 10) ∷ [])
unfolding decimal
decimal_large f n h = rw (h, decimal)

decimal-IsDigit : (f n : ℕ) → n ≤ f → All IsDigit (decimal f n)
decimal-IsDigit zero n h = rw decimal-zero (ground arith, tt)
decimal-IsDigit (suc f) n h = elim (Bool-cases (ltb n 10)) [
  | inl small ↦ rw (decimal_small f n small) (ground arith, tt)
  | inr large ↦ rw (decimal_large f n large) (
      All-append IsDigit (decimal f (n / 10)) _ (decimal-IsDigit f (n / 10) (ground arith))
        (ground arith, tt))
]

value-append : (acc : ℕ) (s t : Bytes) → All IsDigit s → value acc (s ++ t) ≡ value (value acc s) t
unfolding value
value-append acc [] t h = refl
value-append acc (c ∷ s) t (d, h) = rw (d, value) (value-append (acc * 10 + (c - b'0')) s t h)

value_one : (acc d : ℕ) → d < 10 → value acc ((b'0' + d) ∷ []) ≡ acc * 10 + d
unfolding value
value_one acc d h = ground arith

value-decimal : (f n : ℕ) → n ≤ f → value 0 (decimal f n) ≡ n
value-decimal zero n h = rw decimal-zero (omega (arith, value_one 0 n (omega arith)))
value-decimal (suc f) n h = elim (Bool-cases (ltb n 10)) [
  | inl small ↦ rw (decimal_small f n small) (omega (arith, value_one 0 n (ground arith)))
  | inr large ↦ rw (decimal_large f n large) (
      value-append 0 (decimal f (n / 10)) _ (decimal-IsDigit f (n / 10) (ground arith))
      ∙ omega (
        arith,
        value-decimal f (n / 10) (ground arith),
        value_one (value 0 (decimal f (n / 10))) (n % 10) (omega arith),
      ))
]

-- The digits of any number spell it.
pub value-to_string : (n : ℕ) → value 0 (to_string n) ≡ n
unfolding to_string
value-to_string n = value-decimal n n (omega arith)

pub to_string_injective : (m n : ℕ) → to_string m ≡ to_string n → m ≡ n
to_string_injective m n e = sym (value-to_string m) ∙ ap (value 0) e ∙ value-to_string n

-- A number's text begins with a digit, so nothing is skipped and no sign is read.
abbrev pub Begins : Bytes → Type 0
Begins s = (c : ℕ) × (t : Bytes) × (s ≡ c ∷ t) × IsDigit c

pub decimal-Begins : (f n : ℕ) → n ≤ f → Begins (decimal f n)
decimal-Begins zero n h = rw decimal-zero (_, _, refl, ground arith)
decimal-Begins (suc f) n h = elim (Bool-cases (ltb n 10)) [
  | inl small ↦ rw (decimal_small f n small) (_, _, refl, ground arith)
  | inr large ↦
      let (c, t, e, d) = decimal-Begins f (n / 10) (ground arith) in
      rw (decimal_large f n large, e) (c, t ++ ((b'0' + n % 10) ∷ []), refl, d)
]

stoull_digits :
    (c : ℕ) (s : Bytes)
    → IsDigit c
    → value 0 (c ∷ s) < u64_mod
    → stoull (c ∷ s) ≡ ok (value 0 (c ∷ s))
unfolding stoull
stoull_digits c s d h = ground arith

-- Every 64-bit integer is read back from its text.
pub stoull-to_string : (n : ℕ) → n < u64_mod → stoull (to_string n) ≡ ok n
unfolding to_string
stoull-to_string n h =
    let (c, t, e, d) = decimal-Begins n n (omega arith) in
    let exact : value 0 (c ∷ t) ≡ n = ap (value 0) (sym e) ∙ value-to_string n in
    rw e (stoull_digits c t d (rw exact h) ∙ ap ok exact)
