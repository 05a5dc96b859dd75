-- ===== src/Tests/Service.antt =====
-- The server at work, over the platform with accounts.
use mlnserver_web.Prelude.{
  ℕ, ◌≢◌, List, bytes_eq, if◌then◌else◌, ◌≡◌, refl, true, none, some, [], ◌∷◌, codes, arith,
}
use mlnserver_web.Outcome.{Exn, ok, pure}
use mlnserver_web.Outcome.Keeps.{StopsIn}
use mlnserver_web.Process.{Process}
use mlnserver_web.Http.Answers.{SenderReturns, Sends}
use mlnserver_web.Mysql.{init_target, get_conn}
use mlnserver_web.Mysql.Steps.{IsFresh, gets}
use mlnserver_web.Startup.{Server, StartupSource, load, prepare}
use mlnserver_web.Startup.Directory.{System}
use mlnserver_web.Startup.Service.{Offers, prepare-Serving, prepare-IsAnswered}
use mlnserver_web.Requests.{Route, handler}
use mlnserver_web.Requests.Answers.{handler-Sends}
use mlnserver_web.Requests.Faults.{IsKnownFault, CallsEnd, IsReady, handler-StopsIn}
use mlnserver_web.Requests.Replies.{PayloadLaws}
use mlnserver_web.Requests.Serving.{InService, started, managed, handled}
use mlnserver_web.Requests.Health.{DatabaseUp}
use mlnserver_web.Outer.AnyFault.{no_condition}
use mlnserver_web.Handlers.Macros.Escapes.{MayLeave}
use mlnserver_web.Requests.Answered.{IsAnswered, handler-IsAnswered}
use mlnserver_web.Tests.Bank.{Rows, read_row, bank}
use mlnserver_web.Tests.Demo.{demo_mysql}
use mlnserver_web.Tests.Accounts.{opened}
use mlnserver_web.Tests.Rounds.{bank_rounds}
use mlnserver_web.Tests.Startup.{demo_directory, demo_tables, demo_config}

bank-SenderReturns : SenderReturns bank
bank-SenderReturns = record { send_returns = λ _ _. refl; send_ine_returns = λ _ _. refl }

bank-CallsEnd : CallsEnd bank
bank-CallsEnd = record {
  connect_stops = λ conf e. tt;
  generate_uuid_stops = λ e. tt;
  hgetall_stops = λ key e. tt;
  expire_stops = λ key sec e. tt;
  send_stops = λ res e. tt;
  send_ine_stops = λ res e. tt;
  hmset_stops = λ key fields e. tt;
  string_at_stops = λ jv key. tt;
}

bank-PayloadLaws : PayloadLaws bank
bank-PayloadLaws = record { length_set = λ res. refl }

opened-IsReady : IsReady opened
opened-IsReady = record { redis_open = refl; some_pool = omega arith; some_target = omega arith }

-- A login.
abbrev after_login : Process bank
after_login = (handler bank 2 Route.auth_pass [] (codes "bob") true 11 opened).1

handler-Sends_example : Sends [] (handler bank 2 Route.auth_pass [] (codes "bob") true 11 opened)
handler-Sends_example =
    handler-Sends bank-SenderReturns 2 Route.auth_pass [] (codes "bob") true 11 opened

handler-StopsIn_example :
    StopsIn IsKnownFault (handler bank 2 Route.auth_pass [] (codes "bob") true 11 opened).0
    × IsReady after_login
handler-StopsIn_example =
    handler-StopsIn bank-CallsEnd 2 Route.auth_pass [] (codes "bob") true 11 opened bank_rounds
      opened-IsReady

row_there : {Q : Type 0} {n : ℕ} {l : List ℕ} → n ∷ l ≡ [] → Q
row_there h = cc

found_has_field : (r : Rows) → (read_row r).found ≡ true → (read_row r).row ≢ []
found_has_field (none, n) found h = cc
found_has_field (some m, n) found h = row_there h

bank-DatabaseUp : DatabaseUp bank (λ e. Unit {0})
bank-DatabaseUp = record {
  stays_up = record { calls = no_condition; query_keeps = λ conn sql e h. h };
  connects = λ conf e _. (conf.mysql_host, refl);
  found_row = λ r e _ _ found. found_has_field r found;
  exists_row = λ conn my_value e e' _ _ _ _ h. row_there h;
}

-- A user with a session asks for a player.
abbrev with_session : Process bank
with_session = record opened {
  ext = (
    λ key. if bytes_eq (codes "mbsk7") key then (codes "mbuid", codes "7") ∷ [] else [],
    λ user_id. none,
  );
}

with_session-InService : InService demo_mysql with_session
with_session-InService = record {
  inv = record {
    pools_count = refl;
    opts_count = refl;
    empty_pools = (refl, tt);
    loader_targets = tt;
  };
  configured = refl;
  redis_open = refl;
}

handler-IsAnswered_example :
    IsAnswered bank true 11 [] (MayLeave bank ((codes "mbsk", codes "mbsk7") ∷ []) with_session) (
      handler bank 2 Route.value_get
        ((codes "mbsk", codes "mbsk7") ∷ [])
        (codes "bob")
        true
        11
        with_session)
handler-IsAnswered_example =
    handler-IsAnswered 2 Route.value_get ((codes "mbsk", codes "mbsk7") ∷ []) (codes "bob") true 11
      with_session bank-SenderReturns bank-PayloadLaws bank-CallsEnd bank_rounds bank-DatabaseUp tt
      with_session-InService

abbrev bank_source : StartupSource bank
bank_source = record {
  system = System.linux;
  directory_source = demo_directory;
  read_config = λ path. pure (some []);
  map_json_to_struct = λ registered text c. (ok tt, demo_config 28888);
  table_source = demo_tables;
  IoContext = Unit {0};
  make_io_context = tt;
  start_async = λ port ioc. pure tt;
  accept_async = λ port ioc threads. pure tt;
}

-- Redis is open, and there are no targets yet.
abbrev connected : Server bank
connected = record {
  process = record opened { pools = []; opts = []; next_target = 0 };
  registered = [];
  config = demo_config 0;
  tables = [];
  routes = [];
  listening = none;
}

connected-IsFresh : IsFresh bank connected.process
connected-IsFresh = record {
  no_pools = refl;
  no_opts = refl;
  no_loaders = refl;
  zero_targets = refl;
}

abbrev in_service : Server bank
in_service = (prepare bank bank_source 2 connected).1

connected_prepares : prepare bank bank_source 2 connected ≡ (ok tt, in_service)
unfolding prepare load init_target
connected_prepares = refl

still_open : in_service.process.redis_open ≡ true
unfolding prepare load init_target
still_open = refl

-- Behind a caller of `getConn` and a login.
prepare-Serving_example :
    Offers bank 2
      (handler bank 2 Route.auth_pass []
        (codes "bob")
        true
        11
        (get_conn bank 0 in_service.process).1).1
      in_service.config.mysql_conf
prepare-Serving_example =
    prepare-Serving bank bank_source 2 connected in_service _ bank-CallsEnd bank_rounds
      connected-IsFresh connected_prepares still_open
      (handled (managed started (gets 0)) Route.auth_pass [] (codes "bob") true 11)

-- Behind a caller of `getConn` and a login, a second login.
prepare-IsAnswered_example :
    let u =
      (handler bank 2 Route.auth_pass []
        (codes "bob")
        true
        11
        (get_conn bank 0 in_service.process).1).1 in
    IsAnswered bank true 10 u.sent
      (λ e. e ≡ Exn.foreign)
      (handler bank 2 Route.auth_pass [] (codes "eve") true 10 u)
prepare-IsAnswered_example =
    prepare-IsAnswered bank bank_source 2 connected in_service _ Route.auth_pass [] (codes "eve")
      true 10 bank-SenderReturns bank-PayloadLaws bank-CallsEnd bank_rounds bank-DatabaseUp
      connected-IsFresh connected_prepares still_open tt
      (handled (managed started (gets 0)) Route.auth_pass [] (codes "bob") true 11)
