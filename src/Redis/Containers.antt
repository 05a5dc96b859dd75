-- ===== src/Redis/Containers.antt =====
-- `std::unordered_map<std::string, std::string>` as an association list with distinct keys: the
-- operations that the session and Redis code uses. Its order of iteration is not used.
use mlnserver_web.Prelude.{
  ◌≡◌, refl, ◌≢◌, Bool, true, false, Option, none, some, List, [], ◌∷◌, ◌++◌, arith, Bytes,
  bytes_eq, bytes_eq_refl, bytes_eq→eq, Bool-cases, ◌∙◌, inl, inr, if◌then◌else◌,
}
use mlnserver_web.Platform.{Fields}

abbrev pub is_empty {ℓ} : {A : Type ℓ} → List A → Bool
is_empty [] = true
is_empty (_ ∷ _) = false

unfoldable pub find : Bytes → Fields → Option Bytes
find k [] = none
find k ((j, v) ∷ m) = if bytes_eq j k then some v else find k m

abbrev emplace_at : Option Bytes → Bytes → Bytes → Fields → Fields
emplace_at none k v m = m ++ ((k, v) ∷ [])
emplace_at (some w) k v m = m

-- `insert` and `emplace` leave the value of a key that is there.
unfoldable pub emplace : Bytes → Bytes → Fields → Fields
emplace k v m = emplace_at (find k m) k v m

-- What `std::inserter` does with each pair in turn.
unfoldable pub insert_all : Fields → Fields → Fields
unfolding emplace find
insert_all m [] = m
insert_all m ((k, v) ∷ rest) = insert_all (emplace k v m) rest

-- `m[k]` as a value: a missing key reads as the empty string.
abbrev pub text_or_empty : Option Bytes → Bytes
text_or_empty none = []
text_or_empty (some v) = v

-- The value of a field after HMSET: the new one if there is one.
abbrev pub overwritten : Option Bytes → Option Bytes → Option Bytes
overwritten none o = o
overwritten (some v) o = some v

pub find-append : (k : Bytes) (m n : Fields) → find k (m ++ n) ≡ overwritten (find k m) (find k n)
unfolding find
find-append k [] n = refl
find-append k ((j, v) ∷ m) n = ground (arith, find-append k m n)

pub find-emplace :
    (k j v : Bytes) (m : Fields) {w : Bytes} → find j m ≡ some w → find j (emplace k v m) ≡ some w
unfolding emplace
find-emplace k j v m h = ground (arith, find-append j m ((k, v) ∷ []))

pub find-insert_all_kept :
    (k : Bytes) (m rest : Fields) {w : Bytes}
    → find k m ≡ some w
    → find k (insert_all m rest) ≡ some w
unfolding insert_all
find-insert_all_kept k m [] h = h
find-insert_all_kept k m ((j, v) ∷ rest) h =
    find-insert_all_kept k (emplace j v m) rest (find-emplace j k v m h)

find-emplace_new : (k v : Bytes) (m : Fields) → find k m ≡ none → find k (emplace k v m) ≡ some v
unfolding emplace find
find-emplace_new k v m h = ground (arith, find-append k m ((k, v) ∷ []), bytes_eq_refl k)

find-emplace_other :
    (k j v : Bytes) (m : Fields) → bytes_eq k j ≡ false → find j (emplace k v m) ≡ find j m
unfolding emplace find
find-emplace_other k j v m h = ground (arith, find-append j m ((k, v) ∷ []))

-- Copied into an empty map, the first pair of each key counts.
insert_all_lem :
    (k : Bytes) (m rest : Fields) → find k m ≡ none → find k (insert_all m rest) ≡ find k rest
unfolding insert_all find
insert_all_lem k m [] h = h
insert_all_lem k m ((j, v) ∷ rest) h = elim (Bool-cases (bytes_eq j k)) [
  | inl same ↦
      let e = bytes_eq→eq j k same in
      rw same (find-insert_all_kept k (emplace j v m) rest (rw e (find-emplace_new k v m h)))
  | inr other ↦
      rw other (insert_all_lem k (emplace j v m) rest (find-emplace_other j k v m other ∙ h))
]

pub find-insert_all : (k : Bytes) (found : Fields) → find k (insert_all [] found) ≡ find k found
unfolding find
find-insert_all k found = insert_all_lem k [] found refl

emplace-ne-nil : (k v : Bytes) (m : Fields) → emplace k v m ≢ []
unfolding emplace find
emplace-ne-nil k v [] = cc
emplace-ne-nil k v (x ∷ m) = ground arith

insert_all-ne-nil : (m found : Fields) → m ≢ [] → insert_all m found ≢ []
unfolding insert_all
insert_all-ne-nil m [] h = h
insert_all-ne-nil m ((k, v) ∷ found) h =
    insert_all-ne-nil (emplace k v m) found (emplace-ne-nil k v m)

-- The copy is empty exactly when nothing was copied.
pub is_empty-insert_all : (found : Fields) → is_empty (insert_all [] found) ≡ is_empty found
unfolding insert_all
is_empty-insert_all [] = refl
is_empty-insert_all ((k, v) ∷ found) =
    ground (arith, insert_all-ne-nil (emplace k v []) found (emplace-ne-nil k v []))
