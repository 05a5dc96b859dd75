-- ===== src/Http/Query/Failed.antt =====
-- What a query that failed throws: the diagnostics that the thread-local variable holds where the
-- handler goes on.
use mlnserver_web.Prelude.{◌≡◌, ◌≢◌, refl, false, some, Bytes, ◌==◌, arith}
use mlnserver_web.Outcome.{Exn, raise}
use mlnserver_web.Platform.{Platform}
use mlnserver_web.Process.{Process}
use mlnserver_web.Http.Query.{check_error, check_noted, resume, note_info, async, send_query}

module _ (p : Platform) where
  -- What other handlers have left of the diagnostics where a handler goes on after a wait.
  abbrev pub left_info : Process p → p.State → Bytes → Bytes
  left_info s e info = (p.resumed e (s.param_string, info)).1

  -- The state in which a handler goes on after a query.
  abbrev pub resumed_state : p.Conn → Bytes → Process p → Process p
  resumed_state c sql s =
      let (reply, e) = p.query c sql s.ext in
      let held = p.resumed e (s.param_string, reply.info) in
      record s { ext = e; param_string = held.0; additional_info = held.1 }

  -- A query that failed throws the diagnostics that other handlers have left.
  pub send_query-failed :
      (c : p.Conn) (sql : Bytes) (s : Process p)
      → (p.query c sql s.ext).0.ec ≢ 0
      → let (reply, e) = p.query c sql s.ext in
        send_query p (some c) sql s
        ≡ (raise (Exn.system_error reply.ec (left_info s e reply.info)), resumed_state c sql s)
  unfolding send_query async note_info check_noted check_error resume
  send_query-failed c sql s failed =
      let bad : ((p.query c sql s.ext).0.ec == 0) ≡ false = ground arith in rw bad refl
