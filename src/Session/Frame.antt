-- ===== src/Session/Frame.antt =====
-- What the sessions rely on of Redis and the other libraries while other handlers run.
use mlnserver_web.Prelude.{ℕ, [], ◌∷◌, Bytes, codes}
use mlnserver_web.Conf.{MysqlConf}
use mlnserver_web.Platform.{Platform, Fields}
use mlnserver_web.Number.{to_string}
use mlnserver_web.Http.Response.{Response}
use mlnserver_web.Session.{gen_session_key}
use mlnserver_web.Session.Changes.{Hashes, Puts, Puts-session, ChangeLaws}
use mlnserver_web.Outer.{OuterKeeps}

-- What the code relies on of Redis and the other libraries while other handlers run: during a call
-- these make changes of the kind `R`, and only HMSET makes one of its own.
pub record HashFrame (p : Platform) (hash : p.State → Hashes) (R : Hashes → Hashes → Type 0)
    : Type 0 where
  pub connect_frame : (conf : MysqlConf) (e : p.State) → R (hash e) (hash (p.connect conf e).1)
  pub query_frame :
      (conn : p.Conn) (sql : Bytes) (e : p.State) → R (hash e) (hash (p.query conn sql e).1)
  pub read_one_frame : (r : p.ResultSet) (e : p.State) → R (hash e) (hash (p.read_one r e).1)
  pub generate_uuid_frame : (e : p.State) → R (hash e) (hash (p.generate_uuid e).1)
  pub hgetall_frame : (key : Bytes) (e : p.State) → R (hash e) (hash (p.hgetall key e).1)
  pub expire_frame :
      (key : Bytes) (sec : ℕ) (e : p.State) → R (hash e) (hash (p.expire key sec e).1)
  pub send_frame : (res : Response) (e : p.State) → R (hash e) (hash (p.send res e).1)
  pub send_ine_frame : (res : Response) (e : p.State) → R (hash e) (hash (p.send_ine res e).1)
  pub hmset_frame :
      (key : Bytes) (fields : Fields) (e : p.State)
      → (h h' : Hashes) × R (hash e) h × Puts key fields h h' × R h' (hash (p.hmset key fields e).1)

module _ {p : Platform} {hash : p.State → Hashes} {R : Hashes → Hashes → Type 0}
    (change : ChangeLaws R) (frame : HashFrame p hash R) where
  hmset_session :
      (n : ℕ) (e : p.State)
      → R (hash e) (hash (p.hmset (gen_session_key n) ((codes "mbuid", to_string n) ∷ []) e).1)
  hmset_session n e =
      let (h, h', before, puts, behind) =
        frame.hmset_frame (gen_session_key n) ((codes "mbuid", to_string n) ∷ []) e in
      change.after _ h _ before
        (change.after h h' _ (change.stored h h' (Puts-session n h h' puts)) behind)

  -- A condition on the hashes that the changes keep is kept by all calls.
  pub OnHashes-OuterKeeps :
      (K : Hashes → Type 0)
      → ((h h' : Hashes) → R h h' → K h → K h')
      → OuterKeeps p (λ e. K (hash e))
  OnHashes-OuterKeeps K keeps = record {
    calls = record {
      connect_keeps = λ conf e. keeps _ _ (frame.connect_frame conf e);
      read_one_keeps = λ r e. keeps _ _ (frame.read_one_frame r e);
      generate_uuid_keeps = λ e. keeps _ _ (frame.generate_uuid_frame e);
      hgetall_keeps = λ key e. keeps _ _ (frame.hgetall_frame key e);
      expire_keeps = λ key sec e. keeps _ _ (frame.expire_frame key sec e);
      send_keeps = λ res e. keeps _ _ (frame.send_frame res e);
      send_ine_keeps = λ res e. keeps _ _ (frame.send_ine_frame res e);
      hmset_keeps = λ n e. keeps _ _ (hmset_session n e);
    };
    query_keeps = λ conn sql e. keeps _ _ (frame.query_frame conn sql e);
  }
