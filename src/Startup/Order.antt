-- ===== src/Startup/Order.antt =====
-- The order of `main`: nothing is listened to before the tables have loaded.
use mlnserver_web.Prelude.{
  ℕ, ◌≡◌, ◌≢◌, refl, ◌∙◌, ap, sym, Bool, true, false, Bool-cases, inl, inr, Option, none, some,
  List, codes, length, ◌==◌, arith, if◌then◌else◌,
}
use mlnserver_web.Outcome.{Fault, Outcome, ok, raise, fault, M, pure, stop, continue, ◌>>◌, ◌>>=◌}
use mlnserver_web.Conf.{RedisConf, Config}
use mlnserver_web.Platform.{Platform}
use mlnserver_web.Process.{call}
use mlnserver_web.Tables.{load_tables}
use mlnserver_web.Tables.Rows.{AllReadable}
use mlnserver_web.Tables.Loading.{IsFileOf, load_tables_iff}
use mlnserver_web.Mysql.{init_target}
use mlnserver_web.Startup.{
  Server, StartupSource, netconfig, on_process, on_tables, load, prepare, register, listen, run,
  open_redis, with_loaded, register_orm, with_orm, main, lobby_handler_account,
  lobby_handler_player,
}
use mlnserver_web.Startup.Ready.{load-Loads}
use mlnserver_web.Startup.Directory.{set_executable_path}

idle_some : {A : Type 0} {o : Option A} {a : A} {Q : Type 0} → o ≡ none → o ≡ some a → Q
idle_some idle h = cc

module _ {p : Platform} {port threads : ℕ} where
  -- Where a call did not listen, a server that listens afterwards does so by what follows.
  after :
      {A B : Type 0} {Q : Type 0} (r : Outcome A × Server p) (f : A → M (Server p) B)
      → r.1.listening ≡ none
      → ((a : A) (s : Server p)
          → r ≡ (ok a, s)
          → s.listening ≡ none
          → (f a s).1.listening ≡ some (port, threads)
          → Q)
      → (continue r f).1.listening ≡ some (port, threads)
      → Q
  after (ok a, s) f idle k h = k a s refl idle h
  after (raise e, s) f idle k h = idle_some idle h
  after (fault c, s) f idle k h = idle_some idle h

module _ (p : Platform) (src : StartupSource p) where
  registered-listening :
      (rounds : ℕ) (r : Outcome Config × Server p)
      → (continue r (λ conf. on_process (init_target p conf.mysql_conf) >>= λ _.
          (register p src (lobby_handler_account p src rounds)
            >> register p src (lobby_handler_player p src rounds)))).1.listening
        ≡ r.1.listening
  unfolding register init_target
  registered-listening rounds (ok conf, s) = refl
  registered-listening rounds (raise e, s) = refl
  registered-listening rounds (fault f, s) = refl

  prepare-listening :
      (rounds : ℕ) (s : Server p) → (prepare p src rounds s).1.listening ≡ s.listening
  unfolding prepare
  prepare-listening rounds s =
      registered-listening rounds (load p src netconfig s)
      ∙ (load-Loads p src netconfig s).listening_kept

  run-listening :
      (rounds port threads q th : ℕ) (s : Server p)
      → s.listening ≡ none
      → (run p src rounds q th s).1.listening ≡ some (port, threads)
      → (q ≡ port) × (th ≡ threads)
  unfolding run listen
  run-listening rounds port threads q th s idle =
      after (prepare p src rounds s) _ (prepare-listening rounds s ∙ idle) λ a s' e idle' h.
        let same : ◌≡◌ {A = Option (ℕ × ℕ)} (some (q, th)) (some (port, threads)) = h in (cc, cc)

  if_listening :
      (rounds port threads q : ℕ) (s : Server p)
      → s.listening ≡ none
      → ((if q == 0 then pure tt else run p src rounds q 20) s).1.listening ≡ some (port, threads)
      → (q ≢ 0) × (q ≡ port) × (20 ≡ threads)
  if_listening rounds port threads q s idle h = elim (Bool-cases (q == 0)) [
    | inl off ↦ idle_some idle (rw off at h)
    | inr on ↦
        let (same, count) = run-listening rounds port threads q 20 s idle (rw on at h) in
        (ground arith, same, count)
  ]

  open_redis-listening :
      (conf : RedisConf) (s : Server p) → (open_redis p src conf s).1.listening ≡ s.listening
  unfolding open_redis
  open_redis-listening conf s = elim (Bool-cases (length conf.redis_host == 0)) [
    | inl absent ↦ rw absent refl
    | inr present ↦ rw present refl
  ]

  slept-listening :
      (r : Outcome (Unit {0}) × Server p)
      → (continue r (λ _. on_process (call (p.sleep_for 5000)))).1.listening ≡ r.1.listening
  slept-listening (ok a, s) = refl
  slept-listening (raise e, s) = refl
  slept-listening (fault f, s) = refl

  with_loaded-listening :
      (rounds port threads q : ℕ) (b : Bool) (s : Server p)
      → s.listening ≡ none
      → (with_loaded p src rounds q b s).1.listening ≡ some (port, threads)
      → (b ≡ true) × (q ≢ 0) × (q ≡ port) × (20 ≡ threads)
  unfolding with_loaded
  with_loaded-listening rounds port threads q false s idle h =
      after (on_process (call (p.sleep_for 3000)) s) (λ _. stop Fault.exited) idle
        (λ a s' e idle' h'. idle_some idle' h') h
  with_loaded-listening rounds port threads q true s idle h =
      let (on, same, count) =
        if_listening rounds port threads q s idle (sym (slept-listening _) ∙ h) in
      (refl, on, same, count)

  -- If a server that does not listen runs `main`, however it ends, and has then been told to listen,
  -- then with 20 threads on the port of the configuration, which is not 0 and was loaded, after the
  -- registration of its members, from the directory that it had changed to; and
  -- the table file was there, with every row readable.
  pub main-listening :
      (rounds port threads : ℕ) (s : Server p)
      → s.listening ≡ none
      → (main p src rounds s).1.listening ≡ some (port, threads)
      → (s₀ : Server p) × (on_process
            (call (set_executable_path src.directory_source rounds src.system))
            s
          ≡ (ok tt, s₀))
        × (conf : Config) × ((load p src netconfig (with_orm s₀)).0 ≡ ok conf)
        × (conf.myapp_http_port ≡ port)
        × (port ≢ 0)
        × (20 ≡ threads)
        × (rows : List src.table_source.Value) × IsFileOf src.table_source
            (codes "myDesignTable/Json")
            rows
        × AllReadable src.table_source rows
  unfolding main register_orm
  main-listening rounds port threads s idle =
      after (on_process (call (set_executable_path src.directory_source rounds src.system)) s) _
        idle
        λ a₀ s₀ e₀ idle₀.
          after (load p src netconfig (with_orm s₀)) _
            ((load-Loads p src netconfig (with_orm s₀)).listening_kept ∙ idle₀)
            λ conf s₁ e₁ idle₁.
              after (open_redis p src conf.redis_conf s₁) _
                (open_redis-listening conf.redis_conf s₁ ∙ idle₁)
                λ a s₂ e₂ idle₂.
                  after (on_tables (load_tables src.table_source (codes "myDesignTable/Json")) s₂) _
                    idle₂
                    λ b s₃ e₃ idle₃ h.
                      let (loaded, on, same, count) =
                        with_loaded-listening rounds port threads conf.myapp_http_port b s₃ idle₃
                          h in
                      let read : (load_tables src.table_source (codes "myDesignTable/Json")
                            s₂.tables).0
                          ≡ ok true =
                        ap (λ r. r.0) e₃ ∙ ap ok loaded in
                      let (rows, file, readable) =
                        (load_tables_iff src.table_source (codes "myDesignTable/Json") s₂.tables).0
                          read in
                      (
                        s₀,
                        e₀,
                        conf,
                        ap (λ r. r.0) e₁,
                        same,
                        λ off. on (same ∙ off),
                        count,
                        rows,
                        file,
                        readable,
                      )
