-- ===== src/StringUtils.antt =====
-- mlnserver/stringUtils.hpp: wrappers over the copy of utf8-cpp. A `char` is signed, as on x86, and
-- the width of a `wchar_t` is a parameter: 32 bits on Linux, 16 on Windows.
pub mod Laws
use mlnserver_web.Prelude.{
  ℕ, ◌+◌, ◌-◌, ◌^◌, Bool, true, false, List, [], ◌∷◌, ◌++◌, Bytes, ltb, if◌then◌else◌,
}
use mlnserver_web.Outcome.{Exn, Fault, Outcome, ok, raise, fault, M}

-- utf8-cpp: what a conversion writes, and how it ends.
pub record Utf8 : Type 0 where
  pub utf8_to_32 : Bytes → Outcome (Unit {0}) × List ℕ
  pub utf32_to_8 : List ℕ → Outcome (Unit {0}) × Bytes
  pub utf16_to_8 : List ℕ → Outcome (Unit {0}) × Bytes

-- The conversion of a `char`, given as its byte, to a `wchar_t` of `width` bits, as the unsigned
-- number that utf8-cpp reads: a negative one keeps its sign.
abbrev pub widen : ℕ → ℕ → ℕ
widen width b = if ltb b 128 then b else 2 ^ width + b - 256

-- `std::wstring im(bytes.begin(), bytes.end())`
abbrev pub widen_all : ℕ → Bytes → List ℕ
widen_all width [] = []
widen_all width (b ∷ bytes) = widen width b ∷ widen_all width bytes

-- What an output iterator at the end of a container does.
abbrev appended : List ℕ → Outcome (Unit {0}) × List ℕ → Outcome (Unit {0}) × List ℕ
appended s (o, out) = (o, s ++ out)

module _ (utf8 : Utf8) where
  unfoldable pub decode_utf8 : Bytes → M (List ℕ) (Unit {0})
  decode_utf8 bytes wstr = appended wstr (utf8.utf8_to_32 bytes)

  unfoldable pub encode_utf8 : List ℕ → M Bytes (Unit {0})
  encode_utf8 wstr bytes = appended bytes (utf8.utf32_to_8 wstr)

  -- The text is changed in place; it is cleared before the conversion.
  unfoldable pub conv_utf8 : ℕ → M Bytes (Unit {0})
  unfolding encode_utf8
  conv_utf8 width bytes = encode_utf8 (widen_all width bytes) []

  abbrev returned : Outcome (Unit {0}) × Bytes → Outcome Bytes
  returned (ok a, out) = ok out
  returned (raise e, out) = raise e
  returned (fault f, out) = fault f

  unfoldable pub make_comment : List ℕ → Outcome Bytes
  make_comment wide_string = returned (utf8.utf16_to_8 wide_string)
