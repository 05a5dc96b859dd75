-- ===== src/Tables.antt =====
-- TableManager of mlnserver/tableManager.cpp and mlnserver/tableManager.h, with the row type of
-- mlnserver/myDesignTable/MyDataTable.h.
pub mod Rows
pub mod Loading
use mlnserver_web.Prelude.{
  ◌++◌, Bool, true, false, Option, none, some, List, [], ◌∷◌, Bytes, codes, ℤ, pos, int_eq,
  if◌then◌else◌,
}
use mlnserver_web.Outcome.{
  Exn, is_std, Outcome, ok, M, pure, throw, ◌>>=◌, ◌>>◌, catching, or_throw,
}

pub record MyData : Type 0 where
  pub id : ℤ
  pub str_value : Bytes
  pub boolean_value : Bool
  pub arr_value : List ℤ

-- `std::unordered_map<int, MyData>`, as an association list.
abbrev pub MyDataList : Type 0
MyDataList = List (ℤ × MyData)

abbrev pub lookup : ℤ → MyDataList → Option MyData
lookup k [] = none
lookup k ((j, v) ∷ m) = if int_eq j k then some v else lookup k m

abbrev emplace_at : Option MyData → ℤ → MyData → MyDataList → MyDataList
emplace_at none k v m = m ++ ((k, v) ∷ [])
emplace_at (some w) k v m = m

-- `emplace` leaves the row of a key that is there.
unfoldable pub emplace_row : ℤ → MyData → MyDataList → MyDataList
emplace_row k v m = emplace_at (lookup k m) k v m

-- The files, nlohmann::json and struct_mapping: what a file holds, the rows of a JSON text, the text
-- of a row, `obj["ID"]` as an `int`, and the struct that a text maps to.
pub record TableSource : Type 1 where
  pub Value : Type 0
  pub read_file : Bytes → Option Bytes
  pub parse : Bytes → Outcome (List Value)
  pub dump : Value → Outcome Bytes
  pub id_of : Value → Outcome ℤ
  pub map_json_to_struct : Bytes → Outcome MyData

module _ (src : TableSource) where
  -- A call of one of these libraries leaves the table alone.
  abbrev pub result : {A : Type 0} → Outcome A → M MyDataList A
  result o s = (o, s)

  emplace : ℤ → MyData → M MyDataList (Unit {0})
  unfolding emplace_row
  emplace k v s = pure tt (emplace_row k v s)

  -- The rest of the loop's body: a row whose ID is 0 is passed over.
  pub load_row : Bytes → ℤ → M MyDataList (Unit {0})
  unfolding emplace
  load_row row_string id =
      if int_eq id (pos 0)
      then pure tt
      else (result (src.map_json_to_struct row_string) >>= emplace id)

  -- The body of the loop.
  unfoldable pub load_one : src.Value → M MyDataList (Unit {0})
  unfolding load_row
  load_one row = do
    row_string ← result (src.dump row)
    id ← result (src.id_of row)
    load_row row_string id

  unfoldable pub load_rows : List src.Value → M MyDataList (Unit {0})
  unfolding load_one
  load_rows [] = pure tt
  load_rows (row ∷ rows) = load_one row >> load_rows rows

  unfoldable pub load_table : Bytes → M MyDataList (Unit {0})
  unfolding load_rows
  load_table file_path = do
    text ←
        or_throw (src.read_file file_path)
          (Exn.runtime_error (codes "Failed open file:" ++ file_path))
    rows ← result (src.parse text)
    load_rows rows

  abbrev pub validate : M MyDataList Bool
  validate = pure true

  -- Any `std::exception` gives false, and the rows that were loaded before it stay.
  unfoldable pub load_tables : Bytes → M MyDataList Bool
  unfolding load_table
  load_tables table_path =
      catching
        (load_table (table_path ++ codes "/MyDataTable.json") >> (validate >>= λ _. pure true))
        (λ e. if is_std e then pure false else throw e)
