-- ===== src/Number.antt =====
-- The conversions between 64-bit integers and decimal text that the session code uses:
-- `std::to_string` (and `{}` of a format string) and `std::stoull`, for mlnserver/sessionManager.cpp
-- and mlnserver/myPacketHandler/handleAccount.cpp.
pub mod Laws
pub mod Bounds
use mlnserver_web.Prelude.{
  ℕ, zero, suc, ◌+◌, ◌-◌, ◌*◌, ◌/◌, ◌%◌, ◌^◌, Bool, true, false, ◌&&◌, ◌||◌, List, [], ◌∷◌, ◌++◌,
  Bytes, ltb, leb, ◌==◌, if◌then◌else◌,
}
use mlnserver_web.Outcome.{Exn, Outcome, ok, raise}

abbrev pub u64_mod : ℕ
u64_mod = 2 ^ 64

-- Digits from the last one on; the fuel is the number itself, which no number's digits outnumber.
pub decimal : ℕ → ℕ → Bytes
decimal zero n = (b'0' + n) ∷ []
decimal (suc f) n = elim (ltb n 10) [
  | true ↦ (b'0' + n) ∷ []
  | false ↦ decimal f (n / 10) ++ ((b'0' + n % 10) ∷ [])
]

unfoldable pub to_string : ℕ → Bytes
unfolding decimal
to_string n = decimal n n

abbrev pub is_space : ℕ → Bool
is_space c = (leb 9 c && leb c 13) || c == 32

abbrev pub is_digit : ℕ → Bool
is_digit c = leb b'0' c && leb c b'9'

skip_spaces : Bytes → Bytes
skip_spaces [] = []
skip_spaces (c ∷ s) = if is_space c then skip_spaces s else c ∷ s

-- The longest run of digits, with its exact value behind `acc`. What follows it is not read.
pub value : ℕ → Bytes → ℕ
value acc [] = acc
value acc (c ∷ s) = elim (is_digit c) [ true ↦ value (acc * 10 + (c - b'0')) s | false ↦ acc ]

starts_with_digit : Bytes → Bool
starts_with_digit [] = false
starts_with_digit (c ∷ s) = is_digit c

-- A value over the range is an error; a minus sign negates within the range.
unsigned : Bool → Bytes → Outcome ℕ
unsigned negative s =
    let n = value 0 s in
    if starts_with_digit s
    then (if leb u64_mod n
        then raise Exn.out_of_range
        else ok (if negative then (u64_mod - n) % u64_mod else n))
    else raise Exn.invalid_argument

signed : Bytes → Outcome ℕ
signed [] = raise Exn.invalid_argument
signed (c ∷ s) =
    if c == b'-'
    then unsigned true s
    else if c == b'+'
    then unsigned false s
    else unsigned false (c ∷ s)

unfoldable pub stoull : Bytes → Outcome ℕ
unfolding skip_spaces value starts_with_digit unsigned signed
stoull s = signed (skip_spaces s)
