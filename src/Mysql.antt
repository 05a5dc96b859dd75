-- ===== src/Mysql.antt =====
-- mlnserver/mysqlConn: the connection manager ConnMgr. Its child modules hold the loader threads,
-- and what holds in every state that they and the callers reach. The class Conn of
-- mlnserver/mysqlConn/mysqlConn.cpp is used by nothing.
pub mod Answers
pub mod Keeps
pub mod Steps
pub mod Pools
pub mod Filling
pub mod Closing
pub mod Outside
use mlnserver_web.Prelude.{
  ℕ, zero, suc, ◌+◌, ◌-◌, Bool, true, false, Option, none, some, List, [], ◌∷◌, ◌++◌, Bytes, ltb,
  length, get_elem?, set, if◌then◌else◌,
}
use mlnserver_web.Outcome.{
  Exn, is_std, Fault, Outcome, ok, M, pure, throw, stop, continue, ◌>>=◌, ◌>>◌, handle, catching,
  or_throw, or_stop, check,
}
use mlnserver_web.Conf.{MysqlConf}
use mlnserver_web.Platform.{Platform}
use mlnserver_web.Process.{Process, ConnPtr, Loader, call, get}

-- The class of mlnserver/mysqlConn/mysqlConn.h.
pub data ConnStatus : Type 0 where
  closed connecting connected using_now : ConnStatus

pub record PooledConn : Type 0 where
  pub target_idx : ℕ
  pub conf : MysqlConf
  pub status : ConnStatus

pub new_conn : ℕ → MysqlConf → PooledConn
new_conn target_idx pool_opts = record {
  target_idx = target_idx;
  conf = pool_opts;
  status = closed;
}

-- `Conn::connect` and `Conn::~Conn` have empty bodies: the status stays as it is.
pub connect : M PooledConn (Unit {0})
connect = pure tt

pub destroy_conn : M PooledConn (Unit {0})
destroy_conn = pure tt

module _ (p : Platform) where
  -- Any `std::exception` of the connection attempt gives the null pointer.
  abbrev pub connect_or_null : MysqlConf → M (Process p) (ConnPtr p)
  connect_or_null conf =
      catching (call (p.connect conf) >>= λ conn. pure (some conn))
        (λ e. if is_std e then pure none else throw e)

  unfoldable pub create_conn : ℕ → M (Process p) (ConnPtr p)
  create_conn target_idx s =
      (check (ltb target_idx (length s.opts)) Fault.assertion
          >> (or_throw (get_elem? s.opts target_idx) Exn.out_of_range >>= connect_or_null))
        s

  -- The top of a pool that is not empty, else a new connection.
  pop_or_create : ℕ → List (ConnPtr p) → M (Process p) (ConnPtr p)
  pop_or_create target_idx [] s = create_conn target_idx s
  pop_or_create target_idx (conn ∷ rest) s =
      pure conn (record s { pools = set s.pools target_idx rest })

  unfoldable pub get_conn : ℕ → M (Process p) (ConnPtr p)
  unfolding pop_or_create
  get_conn target_idx s =
      (check (ltb target_idx (length s.pools)) Fault.assertion
          >> (or_throw (get_elem? s.pools target_idx) Exn.out_of_range
              >>= pop_or_create target_idx))
        s

  unfoldable pub release_conn : ConnPtr p → M (Process p) Bool
  release_conn conn = pure true

  -- The loop of `createPoolFunc` for the rounds left: each round pushes one connection.
  unfoldable pub create_pool_func : ℕ → ℕ → List (ConnPtr p) → M (Process p) (List (ConnPtr p))
  create_pool_func zero target_idx pool = pure pool
  create_pool_func (suc rounds) target_idx pool =
      create_conn target_idx >>= λ conn. create_pool_func rounds target_idx (conn ∷ pool)

  -- `std::bind` stores a copy of the pool in the new thread, and the thread fills that copy.
  unfoldable pub init_target : MysqlConf → M (Process p) ℕ
  init_target conf s = pure s.next_target (record s {
    opts = s.opts ++ (conf ∷ []);
    pools = s.pools ++ ([] ∷ []);
    loaders =
        s.loaders
        ++ (record { remaining = conf.mysql_conn_pool_max; target = s.next_target; pool = [] }
            ∷ []);
    next_target = s.next_target + 1;
  })

  -- `~ConnMgr`: close every connection of every pool, from the top.
  pub close_pool : List (ConnPtr p) → M (Process p) (Unit {0})
  close_pool [] = pure tt
  close_pool (conn ∷ rest) =
      (or_stop conn Fault.null_connection >>= λ c. call (p.close c)) >> close_pool rest

  pub close_pools : List (List (ConnPtr p)) → M (Process p) (Unit {0})
  close_pools [] = pure tt
  close_pools (pool ∷ rest) = close_pool pool >> close_pools rest

  unfoldable pub destroy : M (Process p) (Unit {0})
  unfolding close_pool close_pools
  destroy s = (close_pools s.pools >> λ s'. pure tt (record s' { pools = [] })) s
