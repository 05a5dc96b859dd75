-- ===== src/Tables/Loading.antt =====
-- When `loadTables` returns true, and which rows it has then loaded.
use mlnserver_web.Prelude.{
  ◌≡◌, ◌≢◌, ◌↔◌, refl, ◌∙◌, ap, ◌++◌, Bool, true, false, Bool-cases, inl, inr, Option-cases, some,
  List, Bytes, codes, ℤ, pos, if◌then◌else◌, arith,
}
use mlnserver_web.Outcome.{
  Exn, is_std, Outcome, ok, raise, fault, pure, throw, continue, ◌>>=◌, handle, continue-eq-ok,
}
use mlnserver_web.Tables.{
  MyDataList, lookup, TableSource, load_rows, load_table, load_tables, validate,
}
use mlnserver_web.Tables.Rows.{or_else, AllReadable, first_row, load_rows-eq-ok, load_rows-ok}

raise-ne-ok :
    {A S : Type 0} {e : Exn} {a : A} {s t : S} → ◌≢◌ {A = Outcome A × S} (raise e, s) (ok a, t)
raise-ne-ok h = cc

module _ (src : TableSource) where
  -- The rows that the table's file holds.
  abbrev pub IsFileOf : Bytes → List src.Value → Type 0
  IsFileOf table_path rows =
      (text : Bytes) × (src.read_file (table_path ++ codes "/MyDataTable.json") ≡ some text)
      × (src.parse text ≡ ok rows)

  handled-eq-true :
      (r : Outcome (Unit {0}) × MyDataList) (t : MyDataList)
      → handle
          (continue r (λ _. validate src >>= λ _. pure true))
          (λ e. if is_std e then pure false else throw e)
        ≡ (ok true, t)
      → r ≡ (ok tt, t)
  handled-eq-true (ok a, s) t h =
      ap {B = Outcome (Unit {0}) × MyDataList} (λ u. (ok tt, u)) (ap (λ r. r.1) h)
  handled-eq-true (raise e, s) t h = elim (Bool-cases (is_std e)) [
    | inl std ↦ absurd (ground arith)
    | inr other ↦ absurd (ground arith)
  ]
  handled-eq-true (fault f, s) t h = cc

  -- What the loading of a file comes down to, when it returns.
  load_table-eq-ok :
      (file : Bytes) (s t : MyDataList)
      → load_table src file s ≡ (ok tt, t)
      → (text : Bytes) × (rows : List src.Value) × (src.read_file file ≡ some text)
        × (src.parse text ≡ ok rows)
        × (load_rows src rows s ≡ (ok tt, t))
  unfolding load_table
  load_table-eq-ok file s t h = elim (Option-cases (src.read_file file)) [
    | inl missing ↦ absurd (raise-ne-ok (rw (missing, load_table) at h))
    | inr (text, found) ↦
        let (rows, s', e, h') =
          continue-eq-ok (src.parse text, s) (load_rows src) (rw (found, load_table) at h) in
        (text, rows, found, ap (λ r. r.0) e, ap (load_rows src rows) (ap (λ r. r.1) e) ∙ h')
  ]

  load_tables_unfolded :
      (table_path : Bytes) (s t : MyDataList)
      → load_tables src table_path s ≡ (ok true, t)
      → load_table src (table_path ++ codes "/MyDataTable.json") s ≡ (ok tt, t)
  unfolding load_tables
  load_tables_unfolded table_path s t h =
      handled-eq-true (load_table src (table_path ++ codes "/MyDataTable.json") s) t h

  -- A file whose rows can all be read loads.
  load_tables_of_rows :
      (table_path : Bytes) (s : MyDataList) (rows : List src.Value)
      → IsFileOf table_path rows
      → AllReadable src rows
      → (t : MyDataList) × (load_tables src table_path s ≡ (ok true, t))
  unfolding load_tables load_table
  load_tables_of_rows table_path s rows (text, found, parsed) readable =
      let (t, e) = load_rows-ok src rows s readable in (t, rw (found, parsed, e) refl)

  -- `loadTables` returns true exactly if the file is there, its text parses, and each of its rows has
  -- a text, an ID, and, unless the ID is 0, a struct that it maps to.
  pub load_tables_iff :
      (table_path : Bytes) (s : MyDataList)
      → ((load_tables src table_path s).0 ≡ ok true)
        ↔ ((rows : List src.Value) × IsFileOf table_path rows × AllReadable src rows)
  load_tables_iff table_path s = (
    λ h.
        let t = (load_tables src table_path s).1 in
        let (text, rows, found, parsed, e) = load_table-eq-ok _ s t (
          load_tables_unfolded table_path s t
            (ap {B = Outcome Bool × MyDataList} (λ o. (o, t)) h)) in
        (rows, (text, found, parsed), (load_rows-eq-ok src rows s t e).0),
    λ (rows, file, readable).
        let (t, e) = load_tables_of_rows table_path s rows file readable in ap (λ r. r.0) e,
  )

  -- After `loadTables` returned true, a key that was in the table keeps its row, and any other key
  -- than 0 has the first row of the file with that ID, if there is one.
  pub load_tables-lookup :
      (table_path : Bytes) (s t : MyDataList)
      → load_tables src table_path s ≡ (ok true, t)
      → (rows : List src.Value) × IsFileOf table_path rows
        × ((k : ℤ) → k ≢ pos 0 → lookup k t ≡ or_else (lookup k s) (first_row src k rows))
  load_tables-lookup table_path s t h =
      let (text, rows, found, parsed, e) =
        load_table-eq-ok _ s t (load_tables_unfolded table_path s t h) in
      (rows, (text, found, parsed), (load_rows-eq-ok src rows s t e).1)
