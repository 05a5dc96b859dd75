-- ===== src/Enums.antt =====
-- include/enums/myType.h with the entries of include/enums/myType.dat: an enumeration whose names are
-- registered in a map when the program starts.
use mlnserver_web.Prelude.{
  ◌≡◌, refl, Bool, true, false, Bool-cases, inl, inr, Option, none, some, List, [], ◌∷◌, Bytes,
  codes, if◌then◌else◌, ℤ, pos, int_eq, int_eq_refl, int_eq→eq,
}

-- An entry `DAT(name, value, text)`.
pub record Dat : Type 0 where
  pub value : ℤ
  pub text : Bytes

abbrev pub my_type : List Dat
my_type =
    record { value = pos 0; text = codes "None" }
    ∷ record { value = pos 1; text = codes "Apple" }
    ∷ record { value = pos 2; text = codes "Orange" }
    ∷ []

-- `std::map<int, std::string>`
abbrev pub DefMap : Type 0
DefMap = List (ℤ × Bytes)

abbrev pub lookup : ℤ → DefMap → Option Bytes
lookup k [] = none
lookup k ((j, v) ∷ m) = if int_eq j k then some v else lookup k m

-- `DEFMAP[value] = str`
unfoldable pub set_value : Bytes → ℤ → DefMap → DefMap
set_value str value [] = (value, str) ∷ []
set_value str value ((j, v) ∷ m) =
    if int_eq j value then (j, str) ∷ m else (j, v) ∷ set_value str value m

-- What the constructors of the registrations do, in their order.
unfoldable pub register_all : List Dat → DefMap → DefMap
unfolding set_value
register_all [] m = m
register_all (d ∷ dats) m = register_all dats (set_value d.text d.value m)

-- The struct MY_TYPE: its map when the program starts its `main`, `setValue`, and the constants.
pub record MyType : Type 0 where
  pub def_map : DefMap
  pub set_value : Bytes → ℤ → DefMap → DefMap
  pub none_value : ℤ
  pub apple_value : ℤ
  pub orange_value : ℤ

pub my_type_struct : MyType
unfolding register_all
my_type_struct = record {
  def_map = register_all my_type [];
  set_value = set_value;
  none_value = pos 0;
  apple_value = pos 1;
  orange_value = pos 2;
}

abbrev pub last_text : ℤ → List Dat → Option Bytes → Option Bytes
last_text k [] o = o
last_text k (d ∷ dats) o = last_text k dats (if int_eq d.value k then some d.text else o)

last_wins :
    (b : Bool) (s t : Bytes) (rest : Option Bytes)
    → (if b then some s else rest) ≡ (if b then some s else if b then some t else rest)
last_wins true s t rest = refl
last_wins false s t rest = refl

not_there : (k j value : ℤ) → j ≡ k → int_eq j value ≡ false → int_eq value k ≡ false
not_there k j value one other = elim (Bool-cases (int_eq value k)) [
  | inl same ↦
      let two : value ≡ k = int_eq→eq value k same in
      let bad : ◌≡◌ {A = Bool} true false = rw (one, ← two, int_eq_refl value) at other in cc
  | inr apart ↦ apart
]

lookup-set_value :
    (k : ℤ) (str : Bytes) (value : ℤ) (m : DefMap)
    → lookup k (set_value str value m) ≡ (if int_eq value k then some str else lookup k m)
unfolding set_value
lookup-set_value k str value [] = refl
lookup-set_value k str value ((j, v) ∷ m) = elim (Bool-cases (int_eq j value)) [
  | inl same ↦
      let one : j ≡ value = int_eq→eq j value same in
      rw (same, ← one) (last_wins (int_eq j k) str v (lookup k m))
  | inr other ↦ rw other (elim (Bool-cases (int_eq j k)) [
    | inl here ↦
        let one : j ≡ k = int_eq→eq j k here in rw (here, not_there k j value one other) refl
    | inr later ↦ rw later (lookup-set_value k str value m)
  ])
]

-- After any registrations, a value has the text of the last entry with that value, and a value
-- without an entry has the text that it had before.
pub lookup-register_all :
    (k : ℤ) (dats : List Dat) (m : DefMap)
    → lookup k (register_all dats m) ≡ last_text k dats (lookup k m)
unfolding register_all
lookup-register_all k [] m = refl
lookup-register_all k (d ∷ dats) m =
    rw
      (lookup-register_all k dats (set_value d.text d.value m), lookup-set_value k d.text d.value m)
      refl
