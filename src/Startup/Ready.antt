-- ===== src/Startup/Ready.antt =====
-- After the start-up, the database target that the handlers use is there.
use mlnserver_web.Prelude.{
  ℕ, true, Bytes, codes, ◌++◌, Option, none, some, [], ◌∷◌, get_elem?, ◌≡◌, refl, ◌∙◌, ap, sym,
}
use mathlib.Core.Path.{subst}
use mlnserver_web.Outcome.{
  Exn, Outcome, ok, raise, fault, or_throw, pure, ok-injective, ◌>>=◌, continue, continue-eq-ok,
}
use mlnserver_web.Platform.{Platform}
use mlnserver_web.Process.{Process, with_ext}
use mlnserver_web.Conf.{MysqlConf, Config}
use mlnserver_web.Startup.{
  Server, StartupSource, netconfig, with_config, with_process, fill_config, load, prepare, register,
}
use mlnserver_web.Mysql.{init_target, create_conn, get_conn, connect_or_null}
use mlnserver_web.Mysql.Steps.{IsFresh, Reach, Reach-trans, here, later, init_targets}
use mlnserver_web.Requests.Serving.{InService}
use mlnserver_web.Mysql.Pools.{Inv, Reach-Inv, get_conn-eq-create_conn, init_target-create_conn}

module _ {p : Platform} where
  -- A load leaves the process but for what lies outside, and the listening, and it returns the
  -- configuration that it leaves.
  pub record Loads (s : Server p) (r : Outcome Config × Server p) : Type 0 where
    pub process_kept : r.1.process ≡ record s.process { ext = r.1.process.ext }
    pub listening_kept : r.1.listening ≡ s.listening
    pub config_left : (conf : Config) → r.0 ≡ ok conf → r.1.config ≡ conf

module _ (p : Platform) (src : StartupSource p) where
  filled-Loads :
      (s : Server p) (e : p.State) (r : Outcome (Unit {0}) × Config)
      → Loads s (
          continue
            (with_config (record s { process = record s.process { ext = e } }) r)
            (λ _ t. pure t.config t))
  filled-Loads s e (ok a, c) = record {
    process_kept = refl;
    listening_kept = refl;
    config_left = λ conf same. ok-injective same;
  }
  filled-Loads s e (raise x, c) = record {
    process_kept = refl;
    listening_kept = refl;
    config_left = λ conf same. cc;
  }
  filled-Loads s e (fault f, c) = record {
    process_kept = refl;
    listening_kept = refl;
    config_left = λ conf same. cc;
  }

  read-Loads :
      (path : Bytes) (s : Server p) (r : Outcome (Option Bytes) × p.State)
      → Loads s (
          continue (with_process s (with_ext s.process r)) (λ contents.
            or_throw contents (Exn.runtime_error (codes "Failed open file:" ++ path))
            >>= fill_config p src))
  unfolding fill_config
  read-Loads path s (ok (some text), e) =
      filled-Loads s e (src.map_json_to_struct s.registered text s.config)
  read-Loads path s (ok none, e) = record {
    process_kept = refl;
    listening_kept = refl;
    config_left = λ conf same. cc;
  }
  read-Loads path s (raise x, e) = record {
    process_kept = refl;
    listening_kept = refl;
    config_left = λ conf same. cc;
  }
  read-Loads path s (fault f, e) = record {
    process_kept = refl;
    listening_kept = refl;
    config_left = λ conf same. cc;
  }

  pub load-Loads : (path : Bytes) (s : Server p) → Loads s (load p src path s)
  unfolding load
  load-Loads path s = read-Loads path s (src.read_config path s.process.ext)

  ext-IsFresh : (e : p.State) (q : Process p) → IsFresh p q → IsFresh p (record q { ext = e })
  ext-IsFresh e q h = record {
    no_pools = h.no_pools;
    no_opts = h.no_opts;
    no_loaders = h.no_loaders;
    zero_targets = h.zero_targets;
  }

  first_target :
      (conf : MysqlConf) (q u : Process p)
      → IsFresh p q
      → Reach p (init_target p conf q).1 u
      → get_conn p 0 u ≡ connect_or_null p conf u
  unfolding init_target
  first_target conf q u fresh reach =
      let (n, same, made) = init_target-create_conn p conf fresh here reach in
      let zero_target : n ≡ 0 = sym (ok-injective same) ∙ fresh.zero_targets in
      get_conn-eq-create_conn p fresh (Reach-trans p (later here (init_targets conf)) reach) 0
      ∙ subst (λ m. create_conn p m u ≡ connect_or_null p conf u) zero_target made

  -- What a preparation leaves of the process.
  prepared-target :
      (rounds : ℕ) (s t : Server p)
      → IsFresh p s.process
      → prepare p src rounds s ≡ (ok tt, t)
      → (q : Process p) × IsFresh p q × (t.process ≡ (init_target p t.config.mysql_conf q).1)
  unfolding prepare register init_target
  prepared-target rounds s t fresh h =
      let (conf, s₁, e₁, h₁) = continue-eq-ok (load p src netconfig s) _ h in
      let loads = subst (Loads s) e₁ (load-Loads netconfig s) in
      let fresh₁ =
        subst (IsFresh p) (sym loads.process_kept) (ext-IsFresh s₁.process.ext s.process fresh) in
      let configured : t.config.mysql_conf ≡ conf.mysql_conf =
        ap (λ q. q.1.config.mysql_conf) (sym h₁)
        ∙ ap (λ c. c.mysql_conf) (loads.config_left conf refl) in
      (
        s₁.process,
        fresh₁,
        ap (λ q. q.1.process) (sym h₁) ∙ ap (λ c. (init_target p c s₁.process).1) (sym configured),
      )

  -- Where no target was set up before and the preparation of the server returned, every state that
  -- the steps of the manager reach from there has the database target of the handlers: there,
  -- `getConn(0)` attempts a connection with the configuration that was loaded.
  pub prepare-get_conn :
      (rounds : ℕ) (s t : Server p) (u : Process p)
      → IsFresh p s.process
      → prepare p src rounds s ≡ (ok tt, t)
      → Reach p t.process u
      → get_conn p 0 u ≡ connect_or_null p t.config.mysql_conf u
  prepare-get_conn rounds s t u fresh h reach =
      let (q, fresh₁, prepared) = prepared-target rounds s t fresh h in
      first_target t.config.mysql_conf q u fresh₁ (subst (λ v. Reach p v u) prepared reach)

  first_option :
      (conf : MysqlConf) (q : Process p)
      → q.opts ≡ []
      → get_elem? (init_target p conf q).1.opts 0 ≡ some conf
  unfolding init_target
  first_option conf q none_yet = ap (λ l. get_elem? (l ++ (conf ∷ [])) 0) none_yet

  -- After a preparation that returned, of a process without targets, in which the Redis client is
  -- open.
  pub prepare-InService :
      (rounds : ℕ) (s t : Server p)
      → IsFresh p s.process
      → prepare p src rounds s ≡ (ok tt, t)
      → t.process.redis_open ≡ true
      → InService t.config.mysql_conf t.process
  prepare-InService rounds s t fresh h is_open =
      let (q, fresh₁, prepared) = prepared-target rounds s t fresh h in
      record {
        inv =
            subst (Inv p) (sym prepared)
              (Reach-Inv p fresh₁ (later here (init_targets t.config.mysql_conf)));
        configured =
            ap (λ v. get_elem? v.opts 0) prepared
            ∙ first_option t.config.mysql_conf q fresh₁.no_opts;
        redis_open = is_open;
      }
