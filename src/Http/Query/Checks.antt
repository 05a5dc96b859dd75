-- ===== src/Http/Query/Checks.antt =====
-- What `queryInsertAndCheck` makes of its count, and what `readAll` reports.
use mlnserver_web.Prelude.{
  ℕ, ◌≡◌, ◌≢◌, ◌↔◌, refl, Bool, true, false, Bool-cases, inl, inr, Bytes, ◌==◌, arith,
  if◌then◌else◌,
}
use mlnserver_web.Outcome.{Exn, Outcome, ok, raise, fault, M, pure, continue, ◌>>=◌}
use mlnserver_web.Platform.{Platform, ReadOne}
use mlnserver_web.Process.{Process, ConnPtr}
use mlnserver_web.Http.Query.{
  check_error, check_noted, resume, keep_info, send_query, read_one, read_all, purge_result,
  query_insert_and_check,
}
use mlnserver_web.Http.Query.Failed.{left_info}
use mlnserver_web.Http.Query.Returned.{read_one-Returned}

flag-eq-false : (n m : ℕ) → ((if n == m then false else true) ≡ false) ↔ (n ≡ m)
flag-eq-false n m = elim (Bool-cases (n == m)) [
  | inl same ↦ rw same ((λ _. ground arith), (λ _. refl))
  | inr other ↦ rw other ((λ e. cc), (λ e. ground arith))
]

module _ (p : Platform) where
  -- Both ends are the same but for the Boolean, which tells where the count is not the expected one.
  abbrev pub Agree : ℕ → ℕ → Outcome (Bool × p.ResultSet) → Outcome (Bool × p.ResultSet) → Type 0
  Agree n m (ok (b, r)) (ok (c, q)) =
      (r ≡ q) × ((b ≡ false) ↔ (n ≡ p.affected_rows r)) × ((c ≡ false) ↔ (m ≡ p.affected_rows r))
  Agree n m (raise e) (raise f) = e ≡ f
  Agree n m (fault e) (fault f) = e ≡ f
  Agree n m _ _ = ⊥

  abbrev flagged : ℕ → p.ResultSet → M (Process p) (Bool × p.ResultSet)
  flagged n r = pure (if n == p.affected_rows r then false else true, r)

  flagged-Agree :
      (n m : ℕ) (r : Outcome p.ResultSet × Process p)
      → Agree n m (continue r (flagged n)).0 (continue r (flagged m)).0
        × ((continue r (flagged n)).1 ≡ (continue r (flagged m)).1)
  flagged-Agree n m (ok r, s) =
      ((refl, flag-eq-false n (p.affected_rows r), flag-eq-false m (p.affected_rows r)), refl)
  flagged-Agree n m (raise e, s) = (refl, refl)
  flagged-Agree n m (fault f, s) = (refl, refl)

  purged-Agree :
      (n m : ℕ) (conn : ConnPtr p) (sql : Bytes) (r : Outcome p.ResultSet × Process p)
      → let runs = λ (k : ℕ). continue r (λ _. send_query p conn sql >>= flagged k) in
        Agree n m (runs n).0 (runs m).0 × ((runs n).1 ≡ (runs m).1)
  purged-Agree n m conn sql (ok r, s) = flagged-Agree n m (send_query p conn sql s)
  purged-Agree n m conn sql (raise e, s) = (refl, refl)
  purged-Agree n m conn sql (fault f, s) = (refl, refl)

  -- Whatever count of rows `queryInsertAndCheck` expects, it leaves the same state and ends in the
  -- same way: a count that is not the expected one stops nothing. Where it returns, the Boolean is
  -- false exactly if the statement affected as many rows as expected.
  pub query_insert_and_check-Agree :
      (rounds : ℕ) (result : p.ResultSet) (conn : ConnPtr p) (sql : Bytes) (n m : ℕ) (s : Process p)
      → let runs = λ (k : ℕ). query_insert_and_check p rounds result conn sql k s in
        Agree n m (runs n).0 (runs m).0 × ((runs n).1 ≡ (runs m).1)
  unfolding query_insert_and_check
  query_insert_and_check-Agree rounds result conn sql n m s =
      purged-Agree n m conn sql (purge_result p rounds result s)

  -- A reading of all rows that fails right after a row was read is reported with what other handlers
  -- have left of the diagnostics of that row's reading, whatever its own are.
  pub read_one-read_all :
      (first result : p.ResultSet) (s t : Process p) (r : ReadOne p.ResultSet p.Field)
      → read_one p first s ≡ (ok r, t)
      → (p.read_all result t.ext).0.ec ≢ 0
      → (read_all p result t).0
        ≡ raise (
            Exn.system_error (p.read_all result t.ext).0.ec (
              left_info p t
                (p.read_all result t.ext).1
                (left_info p s (p.read_one first s.ext).1 (p.read_one first s.ext).0.info)))
  unfolding read_all check_error check_noted resume keep_info
  read_one-read_all first result s t r h failed =
      let ret = read_one-Returned first s t r h in
      let bad : ((p.read_all result t.ext).0.ec == 0) ≡ false = ground arith in
      rw (bad, ret.info_noted) refl
