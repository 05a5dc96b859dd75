-- ===== src/Startup.antt =====
-- mlnserver/main.cpp, mlnserver/lobbyServerCoro.cpp, `Configuration::load`, and the registration of
-- the handlers. The logger, the line that names an
-- environment variable, and the console title are left out.
pub mod Ready
pub mod Service
pub mod Order
pub mod Path
pub mod Directory
use mlnserver_web.Prelude.{
  ℕ, ◌++◌, Bool, true, false, Option, none, some, List, [], ◌∷◌, Bytes, codes, length, ◌==◌,
  if◌then◌else◌,
}
use mlnserver_web.Outcome.{Exn, Fault, Outcome, ok, M, pure, stop, continue, ◌>>=◌, ◌>>◌, or_throw}
use mlnserver_web.Conf.{RedisConf, Config}
use mlnserver_web.Conf.Orm.{Registration, init_orm}
use mlnserver_web.Platform.{Platform}
use mlnserver_web.Process.{Process, call}
use mlnserver_web.Tables.{MyDataList, TableSource, load_tables}
use mlnserver_web.Mysql.{init_target}
use mlnserver_web.Handlers.Macros.{Handler}
use mlnserver_web.Handlers.Account.{control_alive, control_account_pass}
use mlnserver_web.Handlers.Player.{control_value_get, control_value_set}
use mlnserver_web.Redis.{init}
use mlnserver_web.Startup.Directory.{System, DirectorySource, set_executable_path}

-- The process with the other singletons: what was registered with struct_mapping, the
-- configuration, the tables, the routes of the HTTP server, and the port and threads that it was
-- told to listen with.
pub record Server (p : Platform) : Type 0 where
  pub process : Process p
  pub registered : List Registration
  pub config : Config
  pub tables : MyDataList
  pub routes : List (Bytes × Handler p)
  pub listening : Option (ℕ × ℕ)

-- What the start-up calls: what is called for the working directory, the file system,
-- struct_mapping, which fills the configuration that is there by what was registered, and mlnsdk's
-- HTTP server.
pub record StartupSource (p : Platform) : Type 1 where
  pub system : System
  pub directory_source : DirectorySource p.State
  pub read_config : Bytes → M p.State (Option Bytes)
  pub map_json_to_struct : List Registration → Bytes → Config → Outcome (Unit {0}) × Config
  pub table_source : TableSource
  pub IoContext : Type 0
  pub make_io_context : IoContext
  pub start_async : ℕ → IoContext → M p.State (Unit {0})
  pub accept_async : ℕ → IoContext → ℕ → M p.State (Unit {0})

-- DB_TARGET_LOBBY, which nothing uses: the calls of getConn leave the target to its default.
abbrev pub db_target_lobby : ℕ
db_target_lobby = 0

abbrev pub netconfig : Bytes
netconfig = codes "netconfig.json"

module _ {p : Platform} where
  abbrev pub with_process : {A : Type 0} → Server p → Outcome A × Process p → Outcome A × Server p
  with_process s (o, q) = (o, record s { process = q })

  abbrev pub on_process : {A : Type 0} → M (Process p) A → M (Server p) A
  on_process m s = with_process s (m s.process)

  -- The process where `mapStruct::Config::initOrm` has registered its members, behind those that were
  -- there.
  abbrev pub with_orm : Server p → Server p
  with_orm s = record s { registered = s.registered ++ init_orm }

  abbrev pub with_config : {A : Type 0} → Server p → Outcome A × Config → Outcome A × Server p
  with_config s (o, c) = (o, record s { config = c })

  abbrev with_tables : {A : Type 0} → Server p → Outcome A × MyDataList → Outcome A × Server p
  with_tables s (o, t) = (o, record s { tables = t })

  abbrev pub on_tables : {A : Type 0} → M MyDataList A → M (Server p) A
  on_tables m s = with_tables s (m s.tables)

module _ (p : Platform) (src : StartupSource p) where
  -- The one `io_context` of the process, which mlnserver/asioContext.h makes.
  abbrev pub g_ioc : src.IoContext
  g_ioc = src.make_io_context

  pub fill_config : Bytes → M (Server p) Config
  fill_config text s =
      continue (with_config s (src.map_json_to_struct s.registered text s.config))
        (λ _ t. pure t.config t)

  unfoldable pub load : Bytes → M (Server p) Config
  unfolding fill_config
  load path = do
    contents ← on_process (call (src.read_config path))
    text ← or_throw contents (Exn.runtime_error (codes "Failed open file:" ++ path))
    fill_config text

  -- `registHandler`, in the order of the calls.
  pub register : List (Bytes × Handler p) → M (Server p) (Unit {0})
  register routes s = pure tt (record s { routes = s.routes ++ routes })

  abbrev pub lobby_handler_account : ℕ → List (Bytes × Handler p)
  lobby_handler_account rounds =
      (codes "/alive", control_alive p)
      ∷ (codes "/account/auth_pass", control_account_pass p rounds)
      ∷ []

  abbrev pub lobby_handler_player : ℕ → List (Bytes × Handler p)
  lobby_handler_player rounds =
      (codes "/player/value_set", control_value_set p)
      ∷ (codes "/player/value_get", control_value_get p rounds)
      ∷ []

  -- What `start` and `run` begin with.
  unfoldable pub prepare : ℕ → M (Server p) (Unit {0})
  unfolding load register
  prepare rounds = do
    conf ← load netconfig
    _ ← on_process (init_target p conf.mysql_conf)
    register (lobby_handler_account rounds)
    register (lobby_handler_player rounds)

  pub listen : ℕ → ℕ → M (Server p) (Unit {0})
  listen port threads s = pure tt (record s { listening = some (port, threads) })

  -- `start` is called by nothing.
  unfoldable pub start : ℕ → ℕ → M (Server p) (Unit {0})
  unfolding prepare
  start rounds port = prepare rounds >> on_process (call (src.start_async port g_ioc))

  unfoldable pub run : ℕ → ℕ → ℕ → M (Server p) (Unit {0})
  unfolding prepare listen
  run rounds port threads = do
    prepare rounds
    listen port threads
    on_process (call (src.accept_async port g_ioc threads))

  pub register_orm : M (Server p) (Unit {0})
  register_orm s = pure tt (with_orm s)

  -- The Redis client is opened where the configuration names a host.
  pub open_redis : RedisConf → M (Server p) (Unit {0})
  open_redis conf = if length conf.redis_host == 0 then pure tt else on_process (init p conf)

  -- Where the tables did not load, the process ends after a pause.
  pub with_loaded : ℕ → ℕ → Bool → M (Server p) (Unit {0})
  unfolding run
  with_loaded rounds port false = on_process (call (p.sleep_for 3000)) >> stop Fault.exited
  with_loaded rounds port true = do
    if port == 0 then pure tt else run rounds port 20
    on_process (call (p.sleep_for 5000))

  unfoldable pub main : ℕ → M (Server p) (Unit {0})
  unfolding register_orm load open_redis with_loaded
  main rounds = do
    on_process (call (set_executable_path src.directory_source rounds src.system))
    register_orm
    conf ← load netconfig
    open_redis conf.redis_conf
    loaded ← on_tables (load_tables src.table_source (codes "myDesignTable/Json"))
    with_loaded rounds conf.myapp_http_port loaded
