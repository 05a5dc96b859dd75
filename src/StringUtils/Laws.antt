-- ===== src/StringUtils/Laws.antt =====
-- What `convUtf8` does to a text.
use mlnserver_web.Prelude.{
  ℕ, ◌+◌, ◌/◌, ◌%◌, ◌-◌, ◌^◌, ◌∙◌, true, false, if◌then◌else◌, ◌<◌, ◌≤◌, ◌≡◌, ◌⊎◌, refl, ap,
  Bool-cases, inl, inr, List, [], ◌∷◌, ◌++◌, All, Bytes, arith, ltb,
}
use mlnserver_web.Outcome.{Exn, ok, raise}
use mlnserver_web.StringUtils.{Utf8, widen, widen_all, conv_utf8}

abbrev pub IsAscii : ℕ → Type 0
IsAscii c = c < 128

-- A code point of one byte, or one of three bytes from U+E000 on.
abbrev pub IsShort : ℕ → Type 0
IsShort c = IsAscii c ⊎ ((0xe000 ≤ c) × (c < 0x10000))

-- UTF-8, for these code points.
abbrev pub utf8_bytes : ℕ → Bytes
utf8_bytes c =
    if ltb c 128 then c ∷ [] else (224 + c / 4096) ∷ (128 + c / 64 % 64) ∷ (128 + c % 64) ∷ []

abbrev pub utf8_text : List ℕ → Bytes
utf8_text [] = []
utf8_text (c ∷ s) = utf8_bytes c ++ utf8_text s

-- What the code relies on of utf8-cpp: such code points are written in UTF-8, and a number that is no
-- code point ends the conversion behind what was written before it.
pub record Utf8Laws (utf8 : Utf8) : Type 0 where
  pub written : (s : List ℕ) → All IsShort s → utf8.utf32_to_8 s ≡ (ok tt, utf8_text s)
  pub no_code_point :
      (before rest : List ℕ) (c : ℕ)
      → All IsAscii before
      → 0x10ffff < c
      → utf8.utf32_to_8 (before ++ (c ∷ rest)) ≡ (raise Exn.other_exception, before)

-- ASCII throughout, or ASCII up to a byte that is not.
abbrev Split : Bytes → Type 0
Split s =
    All IsAscii s
    ⊎ ((before rest : Bytes) × (c : ℕ) × (s ≡ before ++ (c ∷ rest))
        × All IsAscii before
        × (128 ≤ c))

prepend-Split : (b : ℕ) (s : Bytes) → IsAscii b → Split s → Split (b ∷ s)
prepend-Split b s h (inl all) = inl (h, all)
prepend-Split b s h (inr (before, rest, c, e, all, large)) =
    inr (b ∷ before, rest, c, ap (λ l. b ∷ l) e, (h, all), large)

split : (s : Bytes) → Split s
split [] = inl tt
split (b ∷ s) = elim (Bool-cases (ltb b 128)) [
  | inl small ↦ prepend-Split b s (ground arith) (split s)
  | inr large ↦ inr ([], s, b, refl, tt, ground arith)
]

ascii_text : (s : Bytes) → All IsAscii s → All IsShort s × (utf8_text s ≡ s)
ascii_text [] h = (tt, refl)
ascii_text (b ∷ s) (h, hs) =
    let one : ltb b 128 ≡ true = ground arith in
    let (short, same) = ascii_text s hs in ((inl h, short), rw (one, same) refl)

widen_all_ascii : (width : ℕ) (s : Bytes) → All IsAscii s → widen_all width s ≡ s
widen_all_ascii width [] h = refl
widen_all_ascii width (b ∷ s) (h, hs) =
    let same : widen width b ≡ b = ground arith in rw (same, widen_all_ascii width s hs) refl

widen_all-append :
    (width : ℕ) (before rest : Bytes) (c : ℕ)
    → All IsAscii before
    → widen_all width (before ++ (c ∷ rest)) ≡ before ++ (widen width c ∷ widen_all width rest)
widen_all-append width [] rest c h = refl
widen_all-append width (b ∷ before) rest c (h, hs) =
    let same : widen width b ≡ b = ground arith in
    rw (same, widen_all-append width before rest c hs) refl

-- Where utf8-cpp keeps its laws and a `wchar_t` has 32 bits: `convUtf8` leaves a text of ASCII, and
-- it throws at the first byte that is not ASCII, with what stands before that byte as the text.
pub conv_utf8_cases :
    {utf8 : Utf8} (laws : Utf8Laws utf8) (s : Bytes)
    → (All IsAscii s × (conv_utf8 utf8 32 s ≡ (ok tt, s)))
      ⊎ ((before rest : Bytes) × (c : ℕ) × (s ≡ before ++ (c ∷ rest))
          × All IsAscii before
          × (128 ≤ c)
          × (conv_utf8 utf8 32 s ≡ (raise Exn.other_exception, before)))
unfolding conv_utf8
conv_utf8_cases {utf8} laws s = elim (split s) [
  | inl all ↦ inl (
    all,
    let (short, same) = ascii_text s all in
        rw (widen_all_ascii 32 s all, laws.written s short, same) refl,
  )
  | inr (before, rest, c, e, all, large) ↦
      let too_large : 0x10ffff < widen 32 c = ground arith in
      inr (
        before,
        rest,
        c,
        e,
        all,
        large,
        rw
            (
              e,
              widen_all-append 32 before rest c all,
              laws.no_code_point before (widen_all 32 rest) (widen 32 c) all too_large,
            )
            refl,
      )
]

-- What a `wchar_t` of 16 bits makes of a byte: U+FF00 and the byte, if it is not ASCII.
abbrev pub replaced : Bytes → Bytes
replaced [] = []
replaced (b ∷ s) =
    if ltb b 128 then b ∷ replaced s else 239 ∷ (188 + b / 64) ∷ (128 + b % 64) ∷ replaced s

widen-IsShort : (b : ℕ) → b < 256 → IsShort (widen 16 b)
widen-IsShort b h = elim (Bool-cases (ltb b 128)) [
  | inl small ↦ rw small (inl (ground arith))
  | inr large ↦ rw large (inr (ground arith, ground arith))
]

widen_bytes :
    (b : ℕ) (s : Bytes) → b < 256 → utf8_bytes (widen 16 b) ++ replaced s ≡ replaced (b ∷ s)
widen_bytes b s h = elim (Bool-cases (ltb b 128)) [
  | inl small ↦ rw (small, small) refl
  | inr large ↦
      let c = 2 ^ 16 + b - 256 in
      let long : ltb c 128 ≡ false = ground arith in
      let first : 224 + c / 4096 ≡ 239 = ground arith in
      let second : 128 + c / 64 % 64 ≡ 188 + b / 64 = ground arith in
      let third : 128 + c % 64 ≡ 128 + b % 64 = ground arith in
      rw (large, long, first, second, third) refl
]

widen_replaced :
    (s : Bytes)
    → All (λ b. b < 256) s
    → All IsShort (widen_all 16 s) × (utf8_text (widen_all 16 s) ≡ replaced s)
widen_replaced [] h = (tt, refl)
widen_replaced (b ∷ s) (h, hs) =
    let (short, same) = widen_replaced s hs in
    ((widen-IsShort b h, short), ap (λ t. utf8_bytes (widen 16 b) ++ t) same ∙ widen_bytes b s h)

-- Where utf8-cpp keeps its laws and a `wchar_t` has 16 bits: `convUtf8` returns for every text of
-- bytes, with each byte b that is not ASCII replaced by the three bytes of another character, 239,
-- 188 + b / 64 and 128 + b % 64.
pub conv_utf8_replaces :
    {utf8 : Utf8} (laws : Utf8Laws utf8) (s : Bytes)
    → All (λ b. b < 256) s
    → conv_utf8 utf8 16 s ≡ (ok tt, replaced s)
unfolding conv_utf8
conv_utf8_replaces laws s h =
    let (short, same) = widen_replaced s h in rw (laws.written (widen_all 16 s) short, same) refl
