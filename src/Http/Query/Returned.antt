-- ===== src/Http/Query/Returned.antt =====
-- Inversion of the wrappers: one that returned had no error.
use mlnserver_web.Prelude.{
  ◌≡◌, refl, ap, sym, Bool, true, false, none, some, Bytes, ◌==◌, arith, if◌then◌else◌,
}
use mlnserver_web.Outcome.{Exn, ok, pure, throw, continue}
use mlnserver_web.Platform.{Platform, Reply, ReadOne}
use mlnserver_web.Process.{Process, ConnPtr}
use mlnserver_web.Http.Query.{
  check_error, check_noted, resume, async, note_info, send_query, read_one,
}

module _ {p : Platform} where
  -- The call reported success, the state that it left is that of the call, and the diagnostics are
  -- what other handlers have left of its own.
  pub record Returned {A : Type 0} (op : p.State → Reply A × p.State) (s t : Process p) (a : A)
      : Type 0 where
    pub no_error : (op s.ext).0.ec ≡ 0
    pub result_same : (op s.ext).0.result ≡ a
    pub ext_left : t.ext ≡ (op s.ext).1
    pub open_kept : t.redis_open ≡ s.redis_open
    pub info_noted :
        t.additional_info ≡ (p.resumed (op s.ext).1 (s.param_string, (op s.ext).0.info)).1

  checked :
      {A : Type 0} (b : Bool) (e : Exn) (a' : A) (s t : Process p) {a : A}
      → continue ((if b then pure tt else throw e) s) (λ _. pure a') ≡ (ok a, t)
      → (b ≡ true) × (a' ≡ a) × (s ≡ t)
  checked true e a' s t h = (refl, cc, cc)
  checked false e a' s t h = cc

  async-Returned :
      {A : Type 0} (op : p.State → Reply A × p.State) (s t : Process p) (a : A)
      → async p op s ≡ (ok a, t)
      → Returned op s t a
  unfolding async check_error check_noted resume note_info
  async-Returned op s t a h =
      let (good, same, left) = checked ((op s.ext).0.ec == 0) _ (op s.ext).0.result _ t h in
      record {
        no_error = ground arith;
        result_same = same;
        ext_left = ap (λ q. q.ext) (sym left);
        open_kept = ap (λ q. q.redis_open) (sym left);
        info_noted = ap (λ q. q.additional_info) (sym left);
      }

  pub send_query-Returned :
      (conn : ConnPtr p) (sql : Bytes) (s t : Process p) (a : p.ResultSet)
      → send_query p conn sql s ≡ (ok a, t)
      → (c : p.Conn) × Returned (p.query c sql) s t a
  unfolding send_query
  send_query-Returned none sql s t a h = cc
  send_query-Returned (some c) sql s t a h = (c, async-Returned (p.query c sql) s t a h)

  pub read_one-Returned :
      (r : p.ResultSet) (s t : Process p) (a : ReadOne p.ResultSet p.Field)
      → read_one p r s ≡ (ok a, t)
      → Returned (p.read_one r) s t a
  unfolding read_one
  read_one-Returned r s t a h = async-Returned (p.read_one r) s t a h
