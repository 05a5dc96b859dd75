-- ===== src/Mysql/Steps.antt =====
-- The manager and its loader threads as a step relation, over all interleavings.
use mlnserver_web.Prelude.{ℕ, ◌-◌, ◌<◌, ◌≡◌, some, [], ◌∷◌, get_elem?, set}
use mlnserver_web.Outcome.{M, pure, ◌>>=◌}
use mlnserver_web.Conf.{MysqlConf}
use mlnserver_web.Platform.{Platform}
use mlnserver_web.Process.{Process, ConnPtr, Loader}
use mlnserver_web.Mysql.{create_conn, get_conn, release_conn, init_target}

module _ (p : Platform) where
  -- One round of the thread `i`: it makes a connection and pushes it on the pool that it holds.
  unfoldable pub push_round : ℕ → Loader p → ConnPtr p → M (Process p) (Unit {0})
  push_round i l conn s = pure tt (record s {
    loaders = set s.loaders i (record l { remaining = l.remaining - 1; pool = conn ∷ l.pool });
  })

  unfoldable pub load_round : ℕ → Loader p → M (Process p) (Unit {0})
  unfolding push_round
  load_round i l = create_conn p l.target >>= push_round i l

  -- Any thread may take the next step: a caller of `initTarget`, `getConn` or `releaseConn`, or a
  -- loader that has rounds left.
  pub data Step (s : Process p) : Process p → Type 0 where
    init_targets : (conf : MysqlConf) → Step s (init_target p conf s).1
    gets : (target_idx : ℕ) → Step s (get_conn p target_idx s).1
    releases : (conn : ConnPtr p) → Step s (release_conn p conn s).1
    loads :
        (i : ℕ) (l : Loader p)
        → get_elem? s.loaders i ≡ some l
        → 0 < l.remaining
        → Step s (load_round i l s).1

  pub data Reach (s : Process p) : Process p → Type 0 where
    here : Reach s s
    later : {t u : Process p} → Reach s t → Step t u → Reach s u

  pub Reach-trans : {q r u : Process p} → Reach q r → Reach r u → Reach q u
  Reach-trans before here = before
  Reach-trans before (later after st) = later (Reach-trans before after) st

  -- No target yet: the state in which the server starts.
  pub record IsFresh (s : Process p) : Type 0 where
    pub no_pools : s.pools ≡ []
    pub no_opts : s.opts ≡ []
    pub no_loaders : s.loaders ≡ []
    pub zero_targets : s.next_target ≡ 0
