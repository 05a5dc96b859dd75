-- ===== src/Mysql/Pools.antt =====
-- What every state that the manager and its loader threads reach satisfies, and what a caller of
-- `getConn` gets in it.
use mlnserver_web.Prelude.{
  ℕ, ◌+◌, ◌<◌, ◌≡◌, refl, ◌∙◌, ap, true, false, some, [], ◌∷◌, arith, ltb, lt→ltb, length,
  get_elem?, length-append, get_elem?-lt, All, All-append, All-get_elem?, All-set, All-mono,
  get_elem?→lt, get_elem?-append, get_elem?-length, Bool-cases, inl, inr, sym,
}
use mlnserver_web.Outcome.{Fault, Outcome, ok, raise, fault, continue}
use mlnserver_web.Conf.{MysqlConf}
use mlnserver_web.Platform.{Platform}
use mlnserver_web.Process.{Process, ConnPtr, Loader}
use mlnserver_web.Mysql.{connect_or_null, create_conn, get_conn, release_conn, init_target}
use mlnserver_web.Mysql.Steps.{
  Step, init_targets, gets, releases, loads, Reach, here, later, IsFresh, push_round, load_round,
}

module _ (p : Platform) where
  pub record Inv (s : Process p) : Type 0 where
    -- a pool and a configuration for each target that was handed out
    pub pools_count : length s.pools ≡ s.next_target
    pub opts_count : length s.opts ≡ s.next_target
    -- every pool of the manager is empty
    pub empty_pools : All (λ pool. pool ≡ []) s.pools
    -- every loader fills a target that exists
    pub loader_targets : All (λ (l : Loader p). l.target < s.next_target) s.loaders

  -- What a connection attempt leaves alone.
  record SameManager (s t : Process p) : Type 0 where
    pools_same : t.pools ≡ s.pools
    opts_same : t.opts ≡ s.opts
    loaders_same : t.loaders ≡ s.loaders
    next_same : t.next_target ≡ s.next_target
    redis_same : t.redis_open ≡ s.redis_open

  create_conn-SameManager :
      (target_idx : ℕ) (s : Process p) → SameManager s (create_conn p target_idx s).1
  unfolding create_conn
  create_conn-SameManager target_idx s = ground arith

  SameManager-Inv : {s t : Process p} → SameManager s t → Inv s → Inv t
  SameManager-Inv same inv = record {
    pools_count = rw (same.pools_same, same.next_same) inv.pools_count;
    opts_count = rw (same.opts_same, same.next_same) inv.opts_count;
    empty_pools = rw same.pools_same inv.empty_pools;
    loader_targets = rw (same.loaders_same, same.next_same) inv.loader_targets;
  }

  create_conn_missing :
      (target_idx : ℕ) (s : Process p)
      → ltb target_idx (length s.opts) ≡ false
      → create_conn p target_idx s ≡ (fault Fault.assertion, s)
  unfolding create_conn
  create_conn_missing target_idx s h = rw h

  pub create_conn_at :
      (target_idx : ℕ) (s : Process p) {conf : MysqlConf}
      → get_elem? s.opts target_idx ≡ some conf
      → create_conn p target_idx s ≡ connect_or_null p conf s
  unfolding create_conn
  create_conn_at target_idx s e = rw (lt→ltb _ _ (get_elem?→lt s.opts target_idx e), e)

  get_conn_missing :
      (target_idx : ℕ) (s : Process p)
      → ltb target_idx (length s.pools) ≡ false
      → get_conn p target_idx s ≡ (fault Fault.assertion, s)
  unfolding get_conn
  get_conn_missing target_idx s h = rw h

  get_conn_empty :
      (target_idx : ℕ) (s : Process p)
      → ltb target_idx (length s.pools) ≡ true
      → get_elem? s.pools target_idx ≡ some []
      → get_conn p target_idx s ≡ create_conn p target_idx s
  unfolding get_conn
  get_conn_empty target_idx s there e = rw (there, e)

  pub get_conn_of_Inv :
      (target_idx : ℕ) (s : Process p)
      → Inv s
      → get_conn p target_idx s ≡ create_conn p target_idx s
  get_conn_of_Inv target_idx s inv = elim (Bool-cases (ltb target_idx (length s.pools))) [
    | inl there ↦
        let (pool, e) = get_elem?-lt s.pools target_idx (ground arith) in
        get_conn_empty target_idx s there
          (e ∙ ap some (All-get_elem? (λ q. q ≡ []) s.pools target_idx pool inv.empty_pools e))
    | inr missing ↦
        get_conn_missing target_idx s missing
        ∙ sym (create_conn_missing target_idx s (rw (inv.opts_count, ← inv.pools_count) missing))
  ]

  init_target-Inv : (conf : MysqlConf) (s : Process p) → Inv s → Inv (init_target p conf s).1
  unfolding init_target
  init_target-Inv conf s inv = record {
    pools_count = omega (arith, length-append s.pools ([] ∷ []), inv.pools_count);
    opts_count = omega (arith, length-append s.opts (conf ∷ []), inv.opts_count);
    empty_pools = All-append (λ pool. pool ≡ []) s.pools ([] ∷ []) inv.empty_pools (refl, tt);
    loader_targets =
        All-append (λ (l : Loader p). l.target < s.next_target + 1) s.loaders _
          (All-mono s.loaders (λ l h. omega arith) inv.loader_targets) (omega arith, tt);
  }

  push_round-Inv :
      (i : ℕ) (l : Loader p) (conn : ConnPtr p) (s : Process p)
      → l.target < s.next_target
      → Inv s
      → Inv (push_round p i l conn s).1
  unfolding push_round
  push_round-Inv i l conn s h inv = record {
    pools_count = inv.pools_count;
    opts_count = inv.opts_count;
    empty_pools = inv.empty_pools;
    loader_targets =
        All-set (λ (k : Loader p). k.target < s.next_target) s.loaders i _ inv.loader_targets h;
  }

  pushed-Inv :
      (i : ℕ) (l : Loader p) (r : Outcome (ConnPtr p) × Process p)
      → l.target < r.1.next_target
      → Inv r.1
      → Inv (continue r (push_round p i l)).1
  pushed-Inv i l (ok conn, s) h inv = push_round-Inv i l conn s h inv
  pushed-Inv i l (raise e, s) h inv = inv
  pushed-Inv i l (fault f, s) h inv = inv

  -- Every step keeps the invariant.
  pub Step-Inv : {s t : Process p} → Step p s t → Inv s → Inv t
  unfolding release_conn load_round
  Step-Inv {s} (init_targets conf) inv = init_target-Inv conf s inv
  Step-Inv {s} (gets target_idx) inv =
      rw (get_conn_of_Inv target_idx s inv)
        (SameManager-Inv (create_conn-SameManager target_idx s) inv)
  Step-Inv (releases conn) inv = inv
  Step-Inv {s} (loads i l e h) inv =
      let same = create_conn-SameManager l.target s in
      pushed-Inv i l (create_conn p l.target s)
        (rw same.next_same (
          All-get_elem? (λ (k : Loader p). k.target < s.next_target) s.loaders i l
            inv.loader_targets e))
        (SameManager-Inv same inv)

  pub Reach-Inv : {s t : Process p} → IsFresh p s → Reach p s t → Inv t
  Reach-Inv fresh here = record {
    pools_count = rw (fresh.no_pools, fresh.zero_targets) refl;
    opts_count = rw (fresh.no_opts, fresh.zero_targets) refl;
    empty_pools = rw fresh.no_pools tt;
    loader_targets = rw fresh.no_loaders tt;
  }
  Reach-Inv fresh (later r st) = Step-Inv st (Reach-Inv fresh r)

  -- However the loader threads and the callers interleave, the pools that the manager looks into
  -- stay empty: in every reachable state `getConn` does what `createConn` does, at every index.
  pub get_conn-eq-create_conn :
      {s t : Process p}
      → IsFresh p s
      → Reach p s t
      → (target_idx : ℕ) → get_conn p target_idx t ≡ create_conn p target_idx t
  get_conn-eq-create_conn {t} fresh r target_idx = get_conn_of_Inv target_idx t (Reach-Inv fresh r)

  -- A configuration stays at its index.
  pushed-opts :
      (i : ℕ) (l : Loader p) (r : Outcome (ConnPtr p) × Process p)
      → (continue r (push_round p i l)).1.opts ≡ r.1.opts
  unfolding push_round
  pushed-opts i l (ok conn, s) = refl
  pushed-opts i l (raise e, s) = refl
  pushed-opts i l (fault f, s) = refl

  pub Step-opts :
      {s t : Process p} (n : ℕ) {conf : MysqlConf}
      → Inv s
      → Step p s t
      → get_elem? s.opts n ≡ some conf
      → get_elem? t.opts n ≡ some conf
  unfolding init_target release_conn load_round
  Step-opts {s} n inv (init_targets conf') h = get_elem?-append s.opts _ n h
  Step-opts {s} n inv (gets target_idx) h =
      rw (get_conn_of_Inv target_idx s inv, (create_conn-SameManager target_idx s).opts_same) h
  Step-opts n inv (releases conn) h = h
  Step-opts {s} n inv (loads i l e lt) h =
      rw
        (pushed-opts i l (create_conn p l.target s), (create_conn-SameManager l.target s).opts_same)
        h

  pushed-redis_open :
      (i : ℕ) (l : Loader p) (r : Outcome (ConnPtr p) × Process p)
      → (continue r (push_round p i l)).1.redis_open ≡ r.1.redis_open
  unfolding push_round
  pushed-redis_open i l (ok conn, s) = refl
  pushed-redis_open i l (raise e, s) = refl
  pushed-redis_open i l (fault f, s) = refl

  pub Step-redis_open : {s t : Process p} → Inv s → Step p s t → t.redis_open ≡ s.redis_open
  unfolding init_target release_conn load_round
  Step-redis_open inv (init_targets conf') = refl
  Step-redis_open {s} inv (gets target_idx) =
      rw (get_conn_of_Inv target_idx s inv) (create_conn-SameManager target_idx s).redis_same
  Step-redis_open inv (releases conn) = refl
  Step-redis_open {s} inv (loads i l e lt) =
      pushed-redis_open i l (create_conn p l.target s)
      ∙ (create_conn-SameManager l.target s).redis_same

  Reach-opts :
      {s t : Process p} (n : ℕ) {conf : MysqlConf}
      → Inv s
      → Reach p s t
      → get_elem? s.opts n ≡ some conf
      → Inv t × (get_elem? t.opts n ≡ some conf)
  Reach-opts n inv here h = (inv, h)
  Reach-opts n inv (later r st) h =
      let (inv', h') = Reach-opts n inv r h in (Step-Inv st inv', Step-opts n inv' st h')

  -- `initTarget` returns a target that keeps its configuration through every later step: a
  -- connection made for that target is made with it.
  pub init_target-create_conn :
      {s t u : Process p} (conf : MysqlConf)
      → IsFresh p s
      → Reach p s t
      → Reach p (init_target p conf t).1 u
      → (n : ℕ) × ((init_target p conf t).0 ≡ ok n) × (create_conn p n u ≡ connect_or_null p conf u)
  unfolding init_target
  init_target-create_conn {t} {u} conf fresh before after =
      let inv = Reach-Inv fresh before in
      let (inv', e) =
        Reach-opts (length t.opts) (init_target-Inv conf t inv) after
          (get_elem?-length t.opts conf) in
      (length t.opts, ap ok (sym inv.opts_count), create_conn_at (length t.opts) u e)
