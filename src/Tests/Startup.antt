-- ===== src/Tests/Startup.antt =====
-- The tables, the start-up and the consumer thread at concrete inputs.
use mlnserver_web.Prelude.{
  ℕ, ◌≡◌, ◌≢◌, ◌↔◌, ◌⊎◌, arith, refl, true, false, none, some, List, [], ◌∷◌, ◌++◌, Bytes, codes, ℤ,
  pos, take,
}
use mlnserver_web.Outcome.{ok, pure}
use mlnserver_web.Conf.{Config}
use mlnserver_web.Platform.{ConnectionOptions}
use mlnserver_web.Process.{call}
use mlnserver_web.Tables.{MyData, MyDataList, lookup, TableSource, load_rows, load_tables}
use mlnserver_web.Tables.Rows.{or_else, AllReadable, first_row}
use mlnserver_web.Tables.Loading.{IsFileOf, load_tables_iff, load_tables-lookup}
use mlnserver_web.Mysql.{init_target}
use mlnserver_web.Redis.Consumer.{consumer_thread_task}
use mlnserver_web.Redis.Consumer.Forever.{ConsumerLaws, IsForever, consumer_thread_task-IsForever}
use mlnserver_web.Redis.{init}
use mlnserver_web.Redis.Opening.{IsFor, Opened, NotOpened, init_opens}
use mlnserver_web.Startup.{
  Server, StartupSource, netconfig, on_process, load, with_orm, prepare, run, main,
}
use mlnserver_web.Startup.Directory.{System, DirectorySource, set_executable_path}
use mlnserver_web.Startup.Order.{main-listening}
use mlnserver_web.Tests.Demo.{demo, demo_mysql, blank}

abbrev row_of : ℕ → MyData
row_of n = record { id = pos 5; str_value = n ∷ []; boolean_value = true; arr_value = [] }

-- Every file holds a row 0, a row 5, and a second row 5.
abbrev row_at_text : Bytes → MyData
row_at_text [] = row_of 0
row_at_text (n ∷ text) = row_of n

abbrev pub demo_tables : TableSource
demo_tables = record {
  Value = ℕ × ℕ;
  read_file = λ path. some [];
  parse = λ text. ok ((0, 1) ∷ (5, 2) ∷ (5, 3) ∷ []);
  dump = λ (id, n). ok (n ∷ []);
  id_of = λ (id, n). ok (pos id);
  map_json_to_struct = λ text. ok (row_at_text text);
}

abbrev loaded : MyDataList
loaded = (pos 5, row_of 2) ∷ []

tables_load : load_tables demo_tables (codes "t") [] ≡ (ok true, loaded)
unfolding load_tables load_rows
tables_load = refl

load_tables-lookup_example :
    (rows : List (ℕ × ℕ)) × IsFileOf demo_tables (codes "t") rows
    × ((k : ℤ) → k ≢ pos 0 → lookup k loaded ≡ or_else none (first_row demo_tables k rows))
load_tables-lookup_example = load_tables-lookup demo_tables (codes "t") [] loaded tables_load

load_tables_iff_example :
    ((load_tables demo_tables (codes "t") []).0 ≡ ok true)
    ↔ ((rows : List (ℕ × ℕ)) × IsFileOf demo_tables (codes "t") rows × AllReadable demo_tables rows)
load_tables_iff_example = load_tables_iff demo_tables (codes "t") []

demo_consumer_laws : ConsumerLaws demo
demo_consumer_laws = record {
  opens = λ o e. tt;
  subscribes = λ c e. tt;
  consumes = λ e. tt;
  sleeps = λ ms e. refl;
}

abbrev demo_options : ConnectionOptions
demo_options = record {
  host = codes "redis";
  port = pos 6379;
  password = [];
  keep_alive = true;
  socket_timeout = 300;
  connect_timeout = 2000;
}

consumer_thread_task-IsForever_example :
    ((consumer_thread_task demo 2 demo_options (codes "syncsvr" ∷ []) blank).0
      ≡ (consumer_thread_task demo 9 demo_options (codes "syncsvr" ∷ []) blank).0)
    × IsForever (consumer_thread_task demo 2 demo_options (codes "syncsvr" ∷ []) blank).0
consumer_thread_task-IsForever_example =
    consumer_thread_task-IsForever demo_consumer_laws 2 9 demo_options (codes "syncsvr" ∷ []) blank

abbrev pub demo_config : ℕ → Config
demo_config port = record {
  version = 1;
  myapp_http_port = port;
  redis_conf = record {
    redis_host = codes "redis";
    redis_port = 6379;
    redis_passwd = [];
    redis_use_replica = false;
    redis_use_cluster = false;
    redis_socket_timeout_ms = 2000;
    redis_max_connections = 0;
    redis_sub_channels = codes "lobbysvr" ∷ codes "syncsvr" ∷ [];
  };
  mysql_conf = demo_mysql;
}

-- The program is /srv/server, and the array holds a 0 where its path ends.
abbrev pub demo_directory : {S : Type 0} → DirectorySource S
demo_directory = record {
  module_file_name = record {
    get_module_file_name = λ size. (codes "C:\\srv\\server.exe", 0);
    insufficient_buffer = 122;
    success = 0;
  };
  current_path = λ path. pure tt;
  readlink = some (codes "/srv/server");
  executable_path = codes "xxxxxxxxxxx" ++ (0 ∷ []);
  dirname = λ path. take 4 path;
  chdir = λ path. pure tt;
}

abbrev demo_source : StartupSource demo
demo_source = record {
  system = System.linux;
  directory_source = demo_directory;
  read_config = λ path. pure (some []);
  map_json_to_struct = λ registered text c. (ok tt, demo_config 28888);
  table_source = demo_tables;
  IoContext = Unit {0};
  make_io_context = tt;
  start_async = λ port ioc. pure tt;
  accept_async = λ port ioc threads. pure tt;
}

-- Before `main`.
abbrev stopped : Server demo
stopped = record {
  process = blank;
  registered = [];
  config = demo_config 0;
  tables = [];
  routes = [];
  listening = none;
}

main_listens : (main demo demo_source 4 stopped).1.listening ≡ some (28888, 20)
unfolding main set_executable_path load load_tables load_rows init init_target run prepare
main_listens = refl

main-listening_example :
    (s₀ : Server demo) × (on_process
        (call (set_executable_path demo_directory 4 System.linux))
        stopped
      ≡ (ok tt, s₀))
    × (conf : Config) × ((load demo demo_source netconfig (with_orm s₀)).0 ≡ ok conf)
    × (conf.myapp_http_port ≡ 28888)
    × (◌≢◌ {A = ℕ} 28888 0)
    × (◌≡◌ {A = ℕ} 20 20)
    × (rows : List (ℕ × ℕ)) × IsFileOf demo_tables (codes "myDesignTable/Json") rows
    × AllReadable demo_tables rows
main-listening_example = main-listening demo demo_source 4 28888 20 stopped refl main_listens

init_opens_example :
    (o : ConnectionOptions) × IsFor (demo_config 0).redis_conf o
    × (Opened demo (demo_config 0).redis_conf o blank (init demo (demo_config 0).redis_conf blank)
        ⊎ NotOpened demo o blank (init demo (demo_config 0).redis_conf blank))
init_opens_example = init_opens demo (demo_config 0).redis_conf blank refl (omega arith)
