-- ===== src/Tables/Rows.antt =====
-- Which rows of a file load, and what the table then holds.
use mlnserver_web.Prelude.{
  ◌≡◌, ◌≢◌, refl, ◌∙◌, ap, sym, ◌⊎◌, inl, inr, ◌++◌, Bool, true, false, Bool-cases, Option, none,
  some, Option-cases, List, [], ◌∷◌, Bytes, ℤ, pos, int_eq, int_eq→eq, arith, if◌then◌else◌,
}
use mlnserver_web.Outcome.{Outcome, ok, continue, continue-eq-ok}
use mlnserver_web.Tables.{
  MyData, MyDataList, lookup, emplace_row, TableSource, emplace, load_row, load_one, load_rows,
}

abbrev pub or_else : Option MyData → Option MyData → Option MyData
or_else none o = o
or_else (some d) o = some d

or_else_assoc : (a b c : Option MyData) → or_else (or_else a b) c ≡ or_else a (or_else b c)
or_else_assoc none b c = refl
or_else_assoc (some d) b c = refl

or_else-none : (a : Option MyData) → or_else a none ≡ a
or_else-none none = refl
or_else-none (some d) = refl

lookup-append : (k : ℤ) (m n : MyDataList) → lookup k (m ++ n) ≡ or_else (lookup k m) (lookup k n)
lookup-append k [] n = refl
lookup-append k ((j, v) ∷ m) n = ground (arith, lookup-append k m n)

-- The row at one key, when it is the one looked for.
abbrev at : ℤ → ℤ → MyData → Option MyData
at k i d = if int_eq i k then some d else none

lookup-emplace_row :
    (k i : ℤ) (d : MyData) (m : MyDataList)
    → lookup k (emplace_row i d m) ≡ or_else (lookup k m) (at k i d)
unfolding emplace_row
lookup-emplace_row k i d m = elim (Option-cases (lookup i m)) [
  | inl missing ↦ rw missing (lookup-append k m ((i, d) ∷ []))
  | inr (w, there) ↦ rw there (elim (Bool-cases (int_eq i k)) [
    | inl same ↦
        let found : lookup k m ≡ some w = ap (λ j. lookup j m) (sym (int_eq→eq i k same)) ∙ there in
        rw (found) refl
    | inr other ↦ rw other (sym (or_else-none (lookup k m)))
  ])
]

true-ne-false : true ≢ false
true-ne-false h = cc

module _ (src : TableSource) where
  -- A row of the file that loads: its text, its ID, and unless that is 0 the struct it maps to.
  abbrev pub IsReadable : src.Value → Type 0
  IsReadable row =
      (text : Bytes) × (i : ℤ) × (src.dump row ≡ ok text)
      × (src.id_of row ≡ ok i)
      × ((i ≡ pos 0) ⊎ ((d : MyData) × (src.map_json_to_struct text ≡ ok d)))

  -- What a row of the file says of a key.
  abbrev pub has_id : ℤ → Outcome ℤ → Bool
  has_id k (ok i) = int_eq i k
  has_id k _ = false

  abbrev pub data_of : Outcome MyData → Option MyData
  data_of (ok d) = some d
  data_of _ = none

  abbrev pub mapped : Outcome Bytes → Option MyData
  mapped (ok text) = data_of (src.map_json_to_struct text)
  mapped _ = none

  abbrev pub row_at : ℤ → src.Value → Option MyData
  row_at k row = if has_id k (src.id_of row) then mapped (src.dump row) else none

  -- The first row with the key as its ID.
  abbrev pub first_row : ℤ → List src.Value → Option MyData
  first_row k [] = none
  first_row k (row ∷ rows) = or_else (row_at k row) (first_row k rows)

  load_row-eq-ok :
      (text : Bytes) (i : ℤ) (s t : MyDataList)
      → load_row src text i s ≡ (ok tt, t)
      → ((i ≡ pos 0) × (t ≡ s))
        ⊎ ((d : MyData) × (i ≢ pos 0)
            × (src.map_json_to_struct text ≡ ok d)
            × (t ≡ emplace_row i d s))
  unfolding load_row emplace
  load_row-eq-ok text i s t h = elim (Bool-cases (int_eq i (pos 0))) [
    | inl zero_id ↦
        inl (int_eq→eq i (pos 0) zero_id, sym (ap (λ r. r.1) (rw (zero_id, load_row) at h)))
    | inr other ↦
        let (d, s', e, h') =
          continue-eq-ok (src.map_json_to_struct text, s) (emplace src i)
            (rw (other, load_row) at h) in
        inr (
          d,
          λ none_id. absurd (true-ne-false (sym (ap (λ j. int_eq j (pos 0)) none_id) ∙ other)),
          ap (λ r. r.0) e,
          sym (ap (λ r. r.1) h') ∙ ap (emplace_row i d) (sym (ap (λ r. r.1) e)),
        )
  ]

  row_at-skipped :
      (k : ℤ) (row : src.Value) → src.id_of row ≡ ok (pos 0) → k ≢ pos 0 → row_at k row ≡ none
  row_at-skipped k row id nonzero = elim (Bool-cases (int_eq (pos 0) k)) [
    | inl same ↦ absurd (nonzero (sym (int_eq→eq (pos 0) k same)))
    | inr other ↦ rw (id, has_id) (rw other refl)
  ]

  row_at-loaded :
      (k i : ℤ) (row : src.Value) (text : Bytes) (d : MyData)
      → src.id_of row ≡ ok i
      → src.dump row ≡ ok text
      → src.map_json_to_struct text ≡ ok d
      → row_at k row ≡ at k i d
  row_at-loaded k i row text d id dumped data' = rw (id, dumped, data') refl

  load_one-eq-ok :
      (row : src.Value) (s t : MyDataList)
      → load_one src row s ≡ (ok tt, t)
      → IsReadable row × ((k : ℤ) → k ≢ pos 0 → lookup k t ≡ or_else (lookup k s) (row_at k row))
  unfolding load_one
  load_one-eq-ok row s t h =
      let (text, s₁, e₁, h₁) = continue-eq-ok (src.dump row, s) _ h in
      let (i, s₂, e₂, h₂) = continue-eq-ok (src.id_of row, s₁) _ h₁ in
      let dumped : src.dump row ≡ ok text = ap (λ r. r.0) e₁ in
      let id : src.id_of row ≡ ok i = ap (λ r. r.0) e₂ in
      let same : s₂ ≡ s = sym (ap (λ r. r.1) e₂) ∙ sym (ap (λ r. r.1) e₁) in
      elim (load_row-eq-ok text i s₂ t h₂) [
        | inl (skipped, kept) ↦ (
          (text, i, dumped, id, inl skipped),
          λ k nonzero.
              ap (lookup k) (kept ∙ same)
              ∙ sym (or_else-none (lookup k s))
              ∙ ap (or_else (lookup k s)) (sym (row_at-skipped k row (id ∙ ap ok skipped) nonzero)),
        )
        | inr (d, nonzero_id, data', stored) ↦ (
          (text, i, dumped, id, inr (d, data')),
          λ k nonzero.
              ap (lookup k) (stored ∙ ap (emplace_row i d) same)
              ∙ lookup-emplace_row k i d s
              ∙ ap (or_else (lookup k s)) (sym (row_at-loaded k i row text d id dumped data')),
        )
      ]

  -- A row that is readable loads.
  load_one-ok :
      (row : src.Value) (s : MyDataList)
      → IsReadable row
      → (t : MyDataList) × (load_one src row s ≡ (ok tt, t))
  unfolding load_one load_row emplace
  load_one-ok row s (text, i, dumped, id, inl skipped) = (s, rw (dumped, id, skipped) refl)
  load_one-ok row s (text, i, dumped, id, inr (d, data')) = elim (Bool-cases (int_eq i (pos 0))) [
    | inl zero_id ↦ (s, rw (dumped, id, zero_id) refl)
    | inr other ↦ (emplace_row i d s, rw (dumped, id, other, data') refl)
  ]

  abbrev pub AllReadable : List src.Value → Type 0
  AllReadable [] = Unit
  AllReadable (row ∷ rows) = IsReadable row × AllReadable rows

  pub load_rows-eq-ok :
      (rows : List src.Value) (s t : MyDataList)
      → load_rows src rows s ≡ (ok tt, t)
      → AllReadable rows
        × ((k : ℤ) → k ≢ pos 0 → lookup k t ≡ or_else (lookup k s) (first_row k rows))
  unfolding load_rows
  load_rows-eq-ok [] s t h =
      (tt, λ k nonzero. ap (λ r. lookup k r.1) (sym h) ∙ sym (or_else-none (lookup k s)))
  load_rows-eq-ok (row ∷ rows) s t h =
      let (_, s₁, e₁, h₁) = continue-eq-ok (load_one src row s) _ h in
      let (readable, one) = load_one-eq-ok row s s₁ e₁ in
      let (all_readable, rest) = load_rows-eq-ok rows s₁ t h₁ in
      (
        (readable, all_readable),
        λ k nonzero.
            rest k nonzero
            ∙ ap (λ o. or_else o (first_row k rows)) (one k nonzero)
            ∙ or_else_assoc (lookup k s) (row_at k row) (first_row k rows),
      )

  pub load_rows-ok :
      (rows : List src.Value) (s : MyDataList)
      → AllReadable rows
      → (t : MyDataList) × (load_rows src rows s ≡ (ok tt, t))
  unfolding load_rows
  load_rows-ok [] s h = (s, refl)
  load_rows-ok (row ∷ rows) s (h, hs) =
      let (s₁, e₁) = load_one-ok row s h in
      let (t, e) = load_rows-ok rows s₁ hs in (t, rw (e₁, continue) e)
