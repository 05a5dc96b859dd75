-- ===== src/Mysql/Answers.antt =====
-- The connection manager sends nothing.
use mlnserver_web.Prelude.{ℕ, ◌≡◌, List, [], ◌∷◌, arith, ltb, length, get_elem?}
use mlnserver_web.Outcome.{Exn, Fault}
use mlnserver_web.Conf.{MysqlConf}
use mlnserver_web.Platform.{Platform}
use mlnserver_web.Process.{Process, ConnPtr}
use mlnserver_web.Http.Response.{Response}
use mlnserver_web.Http.Answers.{Quiet, continue-Quiet, or_throw-Quiet, check-Quiet}
use mlnserver_web.Mysql.{connect_or_null, create_conn, pop_or_create, get_conn}

module _ (p : Platform) where
  connect_or_null-Quiet :
      (conf : MysqlConf) (before : List Response) (s : Process p)
      → s.sent ≡ before
      → Quiet before (connect_or_null p conf s)
  connect_or_null-Quiet conf before s h = ground arith

  pub create_conn-Quiet :
      (target_idx : ℕ) (before : List Response) (s : Process p)
      → s.sent ≡ before
      → Quiet before (create_conn p target_idx s)
  unfolding create_conn
  create_conn-Quiet target_idx before s h =
      continue-Quiet (check-Quiet (ltb target_idx (length s.opts)) Fault.assertion s h) λ _ s' h'.
        continue-Quiet (or_throw-Quiet (get_elem? s.opts target_idx) Exn.out_of_range s' h')
          λ conf s'' h''. connect_or_null-Quiet conf before s'' h''

  pop_or_create-Quiet :
      (target_idx : ℕ) (pool : List (ConnPtr p)) (before : List Response) (s : Process p)
      → s.sent ≡ before
      → Quiet before (pop_or_create p target_idx pool s)
  unfolding pop_or_create
  pop_or_create-Quiet target_idx [] before s h = create_conn-Quiet target_idx before s h
  pop_or_create-Quiet target_idx (conn ∷ rest) before s h = record { same = h }

  pub get_conn-Quiet :
      (target_idx : ℕ) (before : List Response) (s : Process p)
      → s.sent ≡ before
      → Quiet before (get_conn p target_idx s)
  unfolding get_conn
  get_conn-Quiet target_idx before s h =
      continue-Quiet (check-Quiet (ltb target_idx (length s.pools)) Fault.assertion s h) λ _ s' h'.
        continue-Quiet (or_throw-Quiet (get_elem? s.pools target_idx) Exn.out_of_range s' h')
          λ pool s'' h''. pop_or_create-Quiet target_idx pool before s'' h''
