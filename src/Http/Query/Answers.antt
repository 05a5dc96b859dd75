-- ===== src/Http/Query/Answers.antt =====
-- The database wrappers send nothing.
use mlnserver_web.Prelude.{ℕ, zero, suc, ◌≡◌, Bytes, Bool-cases, inl, inr, List, arith}
use mlnserver_web.Platform.{Platform, Reply}
use mlnserver_web.Process.{Process, ConnPtr}
use mlnserver_web.Http.Response.{Response}
use mlnserver_web.Http.Answers.{Quiet, continue-Quiet}
use mlnserver_web.Http.Query.{check_error, async, send_query, read_one, purge_result}

module _ (p : Platform) where
  check_error-Quiet :
      (err : ℕ) (info : Bytes) (s : Process p) → Quiet s.sent (check_error p err info s)
  unfolding check_error
  check_error-Quiet err info s = ground arith

  async-Quiet :
      {A : Type 0} (op : p.State → Reply A × p.State) (before : List Response) (s : Process p)
      → s.sent ≡ before
      → Quiet before (async p op s)
  unfolding async
  async-Quiet op before s h = ground arith

  pub send_query-Quiet :
      (conn : ConnPtr p) (sql : Bytes) (before : List Response) (s : Process p)
      → s.sent ≡ before
      → Quiet before (send_query p conn sql s)
  unfolding send_query
  send_query-Quiet conn sql before s h = ground (arith)

  pub read_one-Quiet :
      (result : p.ResultSet) (before : List Response) (s : Process p)
      → s.sent ≡ before
      → Quiet before (read_one p result s)
  unfolding read_one
  read_one-Quiet result before s h = async-Quiet (p.read_one result) before s h

  pub purge_result-Quiet :
      (rounds : ℕ) (result : p.ResultSet) (before : List Response) (s : Process p)
      → s.sent ≡ before
      → Quiet before (purge_result p rounds result s)
  unfolding purge_result
  purge_result-Quiet zero result before s h = ground arith
  purge_result-Quiet (suc rounds) result before s h = elim (Bool-cases (p.complete result)) [
    | inl done ↦ rw done (record { same = h })
    | inr more ↦ rw more (
        continue-Quiet (read_one-Quiet result before s h) (λ r s' h'. elim (Bool-cases r.found) [
          | inl row ↦ rw row (purge_result-Quiet rounds r.after before s' h')
          | inr last ↦ rw last (record { same = h' })
        ]))
  ]
