-- ===== src/Tests/Text.antt =====
-- Texts and enumerations at concrete inputs.
use mlnserver_web.Prelude.{
  ℕ, ◌≤◌, ◌<◌, ◌≡◌, ◌⊎◌, refl, true, false, some, List, [], ◌∷◌, ◌++◌, All, Bytes, codes, arith,
  ltb, if◌then◌else◌, pos, inl, inr,
}
use mlnserver_web.Outcome.{Exn, Outcome, ok, raise}
use mlnserver_web.StringUtils.{Utf8, encode_utf8, conv_utf8}
use mlnserver_web.StringUtils.Laws.{
  IsAscii, IsShort, utf8_bytes, utf8_text, Utf8Laws, conv_utf8_cases, conv_utf8_replaces,
}
use mlnserver_web.Enums.{my_type, lookup, register_all, lookup-register_all}

-- A conversion that knows the numbers of at most three bytes, and ends at one that is no code point.
abbrev up_to_three : List ℕ → Outcome (Unit {0}) × List ℕ
up_to_three [] = (ok tt, [])
up_to_three (c ∷ s) =
    let rest = up_to_three s in
    if ltb 1114111 c then (raise Exn.other_exception, []) else (rest.0, utf8_bytes c ++ rest.1)

abbrev short_codes : Utf8
short_codes = record {
  utf8_to_32 = up_to_three;
  utf32_to_8 = up_to_three;
  utf16_to_8 = up_to_three;
}

short_small : (c : ℕ) → IsShort c → ltb 1114111 c ≡ false
short_small c (inl h) = ground arith
short_small c (inr (_, h)) = ground arith

three_written : (s : List ℕ) → All IsShort s → up_to_three s ≡ (ok tt, utf8_text s)
three_written [] h = refl
three_written (c ∷ s) (h, hs) = rw (short_small c h, three_written s hs) refl

three_ends :
    (before rest : List ℕ) (c : ℕ)
    → All IsAscii before
    → 0x10ffff < c
    → up_to_three (before ++ (c ∷ rest)) ≡ (raise Exn.other_exception, before)
three_ends [] rest c h large = let big : ltb 1114111 c ≡ true = ground arith in rw big refl
three_ends (b ∷ before) rest c (h, hs) large =
    let small : ltb 1114111 b ≡ false = ground arith in
    let one : ltb b 128 ≡ true = ground arith in
    rw (small, three_ends before rest c hs large, one) refl

short_codes-Utf8Laws : Utf8Laws short_codes
short_codes-Utf8Laws = record { written = three_written; no_code_point = three_ends }

-- The name of a café, in UTF-8.
abbrev cafe : Bytes
cafe = codes "caf" ++ (195 ∷ 169 ∷ [])

cafe_cut : conv_utf8 short_codes 32 cafe ≡ (raise Exn.other_exception, codes "caf")
unfolding conv_utf8 encode_utf8
cafe_cut = refl

conv_utf8_cases_example :
    (All IsAscii cafe × (conv_utf8 short_codes 32 cafe ≡ (ok tt, cafe)))
    ⊎ ((before rest : Bytes) × (c : ℕ) × (cafe ≡ before ++ (c ∷ rest))
        × All IsAscii before
        × (128 ≤ c)
        × (conv_utf8 short_codes 32 cafe ≡ (raise Exn.other_exception, before)))
conv_utf8_cases_example = conv_utf8_cases short_codes-Utf8Laws cafe

-- On Windows, both bytes of the é become other characters.
conv_utf8_replaces_example :
    conv_utf8 short_codes 16 cafe ≡ (ok tt, codes "caf" ++ (239 ∷ 191 ∷ 131 ∷ 239 ∷ 190 ∷ 169 ∷ []))
conv_utf8_replaces_example =
    conv_utf8_replaces short_codes-Utf8Laws cafe
      (omega arith, (omega arith, (omega arith, (omega arith, (omega arith, tt)))))

lookup-register_all_example : lookup (pos 1) (register_all my_type []) ≡ some (codes "Apple")
lookup-register_all_example = lookup-register_all (pos 1) my_type []
