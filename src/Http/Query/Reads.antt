-- ===== src/Http/Query/Reads.antt =====
-- How a query and the readings of its rows end: each reports an error of its own, or none.
use mlnserver_web.Prelude.{
  ℕ, zero, suc, ◌<◌, ◌≡◌, ◌≢◌, ◌⊎◌, refl, true, false, some, Bytes, Bool-cases, inl, inr, ◌==◌,
  arith,
}
use mlnserver_web.Outcome.{Exn, Outcome, ok, raise}
use mlnserver_web.Platform.{Platform, ErrorCode, ErrorInfo}
use mlnserver_web.Process.{Process}
use mlnserver_web.Http.Query.{
  check_error, check_noted, resume, note_info, async, send_query, read_one, purge_result,
}
use mlnserver_web.Http.Query.Failed.{resumed_state}
use mlnserver_web.Http.Query.Purge.{RowLaws}

module _ {p : Platform} where
  -- The state in which a handler goes on after a reading.
  abbrev pub read_state : p.ResultSet → Process p → Process p
  read_state r s =
      let (reply, e) = p.read_one r s.ext in
      let held = p.resumed e (s.param_string, reply.info) in
      record s { ext = e; param_string = held.0; additional_info = held.1 }

  pub send_query-done :
      (c : p.Conn) (sql : Bytes) (s : Process p)
      → (p.query c sql s.ext).0.ec ≡ 0
      → send_query p (some c) sql s ≡ (ok (p.query c sql s.ext).0.result, resumed_state p c sql s)
  unfolding send_query async note_info check_noted check_error resume
  send_query-done c sql s good =
      let none_reported : ((p.query c sql s.ext).0.ec == 0) ≡ true = ground arith in
      rw none_reported refl

  pub read_one-done :
      (r : p.ResultSet) (s : Process p)
      → (p.read_one r s.ext).0.ec ≡ 0
      → read_one p r s ≡ (ok (p.read_one r s.ext).0.result, read_state r s)
  unfolding read_one async note_info check_noted check_error resume
  read_one-done r s good =
      let none_reported : ((p.read_one r s.ext).0.ec == 0) ≡ true = ground arith in
      rw none_reported refl

  pub read_one-failed :
      (r : p.ResultSet) (s : Process p)
      → (p.read_one r s.ext).0.ec ≢ 0
      → (info : ErrorInfo) × (read_one p r s
          ≡ (raise (Exn.system_error (p.read_one r s.ext).0.ec info), read_state r s))
  unfolding read_one async note_info check_noted check_error resume
  read_one-failed r s failed =
      let reported : ((p.read_one r s.ext).0.ec == 0) ≡ false = ground arith in
      ((read_state r s).additional_info, rw reported refl)

module _ (p : Platform) where
  -- The resultsets that readings make of one, in whatever states they read.
  pub data Later : p.ResultSet → p.ResultSet → Type 0 where
    same : (r : p.ResultSet) → Later r r
    behind :
        {r r' : p.ResultSet} (e : p.State) → Later (p.read_one r e).0.result.after r' → Later r r'

  -- A loop of readings returned, or a reading reported an error, which it threw.
  abbrev pub Purged : p.ResultSet → Outcome p.ResultSet × Process p → Type 0
  Purged r q =
      ((r' : p.ResultSet) × (t : Process p) × (q ≡ (ok r', t)))
      ⊎ ((r' : p.ResultSet) × (e : p.State) × Later r r'
          × ((p.read_one r' e).0.ec ≢ 0)
          × (err : ErrorCode) × (info : ErrorInfo) × (t : Process p) × (q
              ≡ (raise (Exn.system_error err info), t)))

  later-Purged :
      {r : p.ResultSet} (e : p.State) (q : Outcome p.ResultSet × Process p)
      → Purged (p.read_one r e).0.result.after q
      → Purged r q
  later-Purged e q (inl ended) = inl ended
  later-Purged e q (inr (r', e', later, failed, err, info, t, thrown)) =
      inr (r', e', behind e later, failed, err, info, t, thrown)

  -- Where a read that finds a row takes it off, with more rounds than pending rows, `purgeResult`
  -- returns, or one of its readings reports an error and it throws that.
  pub purge_result-Purged :
      (laws : RowLaws p) (rounds : ℕ) (r : p.ResultSet) (s : Process p)
      → laws.pending r < rounds
      → Purged r (purge_result p rounds r s)
  unfolding purge_result
  purge_result-Purged laws zero r s h = absurd (omega arith)
  purge_result-Purged laws (suc rounds) r s h = elim (Bool-cases (p.complete r)) [
    | inl done ↦ rw done (inl (r, s, refl))
    | inr more ↦ rw more (elim (Bool-cases ((p.read_one r s.ext).0.ec == 0)) [
      | inr reported ↦
          let (info, thrown) = read_one-failed r s (ground arith) in
          rw thrown (inr (r, s.ext, same r, ground arith, _, info, read_state r s, refl))
      | inl good ↦
          rw (read_one-done r s (ground arith))
            (elim (Bool-cases (p.read_one r s.ext).0.result.found) [
              | inr last ↦ rw last (inl (_, read_state r s, refl))
              | inl found ↦
                  let fewer = laws.row_taken r s.ext found in
                  rw found (
                    later-Purged s.ext _ (
                      purge_result-Purged laws rounds (p.read_one r s.ext).0.result.after
                        (read_state r s) (omega arith)))
            ])
    ])
  ]
