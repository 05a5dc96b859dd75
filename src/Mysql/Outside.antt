-- ===== src/Mysql/Outside.antt =====
-- What the steps of the connection manager change outside.
use mlnserver_web.Prelude.{
  ℕ, Bool-cases, Option-cases, inl, inr, some, none, ltb, length, get_elem?, if◌then◌else◌,
}
use mlnserver_web.Outcome.{is_std, Outcome, ok, raise, fault, pure, throw, continue, handle}
use mlnserver_web.Conf.{MysqlConf}
use mlnserver_web.Platform.{Platform}
use mlnserver_web.Process.{Process, ConnPtr, Loader, call}
use mlnserver_web.Mysql.{create_conn, release_conn, init_target}
use mlnserver_web.Mysql.Steps.{Step, init_targets, gets, releases, loads, push_round, load_round}
use mlnserver_web.Mysql.Pools.{Inv, get_conn_of_Inv}

module _ {p : Platform} (J : p.State → Type 0)
    (k : (conf : MysqlConf) (e : p.State) → J e → J (p.connect conf e).1) where
  attempted-keeps :
      (r : Outcome p.Conn × Process p)
      → J r.1.ext
      → J
          (handle
            (continue r (λ conn. pure (some conn)))
            (λ e. if is_std e then pure none else throw e)).1.ext
  attempted-keeps (ok c, s) h = h
  attempted-keeps (raise e, s) h = elim (Bool-cases (is_std e)) [
    | inl std ↦ rw std h
    | inr other ↦ rw other h
  ]
  attempted-keeps (fault f, s) h = h

  create_conn-keeps :
      (target_idx : ℕ) (s : Process p) → J s.ext → J (create_conn p target_idx s).1.ext
  unfolding create_conn
  create_conn-keeps target_idx s h = elim (Bool-cases (ltb target_idx (length s.opts))) [
    | inr missing ↦ rw missing h
    | inl there ↦ elim (Option-cases (get_elem? s.opts target_idx)) [
      | inl none_there ↦ rw (there, none_there) h
      | inr (conf, e) ↦ rw (there, e) (attempted-keeps (call (p.connect conf) s) (k conf s.ext h))
    ]
  ]

  pushed-keeps :
      (i : ℕ) (l : Loader p) (r : Outcome (ConnPtr p) × Process p)
      → J r.1.ext
      → J (continue r (push_round p i l)).1.ext
  unfolding push_round
  pushed-keeps i l (ok conn, s) h = h
  pushed-keeps i l (raise e, s) h = h
  pushed-keeps i l (fault f, s) h = h

  -- What connection attempts keep, the steps keep.
  pub Step-keeps : {s t : Process p} → Inv p s → Step p s t → J s.ext → J t.ext
  unfolding init_target release_conn load_round
  Step-keeps inv (init_targets conf) h = h
  Step-keeps {s} inv (gets target_idx) h =
      rw (get_conn_of_Inv p target_idx s inv) (create_conn-keeps target_idx s h)
  Step-keeps inv (releases conn) h = h
  Step-keeps {s} inv (loads i l e lt) h =
      pushed-keeps i l (create_conn p l.target s) (create_conn-keeps l.target s h)
