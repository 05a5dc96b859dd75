-- ===== src/Singletons.antt =====
-- The classes of mlnserver/redisConnector.h, mlnserver/sessionManager.h, mlnserver/tableManager.h,
-- mlnserver/lobbyServerCoro.h, mlnserver/mysqlConn/mysqlConnMgr.h and mlnserver/configuration.h as
-- records of their public operations, and what `instance()` of each gives. An argument with a default
-- is an option.
use mlnserver_web.Prelude.{ℕ, Bool, Option, none, some, Bytes, codes}
use mlnserver_web.Outcome.{M}
use mlnserver_web.Conf.{RedisConf, MysqlConf, Config}
use mlnserver_web.Platform.{Platform, Fields}
use mlnserver_web.Process.{Process, ConnPtr, call}
use mlnserver_web.Redis.{publish, hset, hset_fields, hget_all}
use mlnserver_web.Redis.Tour.{Action, test_redis}
use mlnserver_web.Session.{SessionData, Validity, gen_session_key, create_session, is_valid_session}
use mlnserver_web.Tables.{MyDataList, TableSource, load_tables}
use mlnserver_web.Mysql.{
  PooledConn, new_conn, destroy_conn, connect, init_target, get_conn, release_conn, destroy,
}
use mlnserver_web.Startup.{Server, StartupSource, netconfig, load, start, run}
use mlnserver_web.Redis
use mlnserver_web.Session

-- The value of an argument, or its default.
abbrev given : {A : Type 0} → Option A → A → A
given none a = a
given (some b) a = b

pub record RedisConnector (S : Type 0) : Type 0 where
  pub init : RedisConf → M S (Unit {0})
  pub publish : Bytes → Bytes → M S (Unit {0})
  pub hset : Bytes → Bytes → Bytes → Option ℕ → M S (Unit {0})
  pub hset_fields : Bytes → Fields → Option ℕ → M S (Unit {0})
  pub hget_all : Bytes → M S (Bool × Fields)
  pub test_redis : M S (Unit {0})

pub record SessionManager (S : Type 0) : Type 0 where
  pub init : ℕ → M S (Unit {0})
  pub create_session : ℕ → M S SessionData
  pub gen_session_key : ℕ → Bytes
  pub is_valid_session : Bytes → M S Validity

pub record TableManager (S : Type 0) : Type 0 where
  pub load_tables : Option Bytes → M S Bool

pub record ConnMgr (S Conn : Type 0) : Type 0 where
  pub init_target : MysqlConf → M S ℕ
  pub get_conn : Option ℕ → M S Conn
  pub release_conn : Conn → M S Bool
  pub destroy : M S (Unit {0})

-- The class Conn of mlnserver/mysqlConn/mysqlConn.cpp: its constructor, its destructor, and connect.
pub record ConnClass : Type 0 where
  pub make : ℕ → MysqlConf → PooledConn
  pub destroy : M PooledConn (Unit {0})
  pub connect : M PooledConn (Unit {0})

pub conn_class : ConnClass
conn_class = record { make = new_conn; destroy = destroy_conn; connect = connect }

pub record Configuration (S : Type 0) : Type 0 where
  pub load : Option Bytes → M S Config

-- The port, and the number of threads.
pub record LobbyServerCoro (S : Type 0) : Type 0 where
  pub start : ℕ → M S (Unit {0})
  pub run : ℕ → Option ℕ → M S (Unit {0})

module _ (p : Platform) where
  -- With what the actions of `testRedis` do.
  pub redis_connector : (Action → M p.State (Unit {0})) → RedisConnector (Process p)
  redis_connector act = record {
    init = Redis.init p;
    publish = publish p;
    hset = λ key field value expire_sec. hset p key field value (given expire_sec 0);
    hset_fields =
        λ key field_values expire_sec. hset_fields p key field_values (given expire_sec 0);
    hget_all = hget_all p;
    test_redis = call (test_redis act);
  }

  pub session_manager : SessionManager (Process p)
  session_manager = record {
    init = Session.init p;
    create_session = create_session p;
    gen_session_key = gen_session_key;
    is_valid_session = is_valid_session p;
  }

  pub conn_mgr : ConnMgr (Process p) (ConnPtr p)
  conn_mgr = record {
    init_target = init_target p;
    get_conn = λ target_idx. get_conn p (given target_idx 0);
    release_conn = release_conn p;
    destroy = destroy p;
  }

  pub table_manager : TableSource → TableManager MyDataList
  table_manager src = record {
    load_tables = λ table_path. load_tables src (given table_path (codes "myDesignTable/Json"));
  }

  pub configuration : StartupSource p → Configuration (Server p)
  configuration src = record { load = λ path. load p src (given path netconfig) }

  -- With a number of rounds for the loops of the handlers.
  pub lobby_server_coro : StartupSource p → ℕ → LobbyServerCoro (Server p)
  lobby_server_coro src rounds = record {
    start = start p src rounds;
    run = λ port threads. run p src rounds port (given threads 3);
  }
