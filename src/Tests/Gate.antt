-- ===== src/Tests/Gate.antt =====
-- The session gate and the insertion at concrete inputs.
use mlnserver_web.Prelude.{◌≡◌, ◌≢◌, refl, true, some, [], ◌∷◌, Bytes, codes}
use mlnserver_web.Outcome.{Exn, raise, ok}
use mlnserver_web.Platform.{Platform, Fields}
use mlnserver_web.Process.{Process}
use mlnserver_web.Http.Build.{get_rsponse}
use mlnserver_web.Http.Query.{send_query}
use mlnserver_web.Http.Template.Errors.{Answers}
use mlnserver_web.Redis.Containers.{find, insert_all}
use mlnserver_web.Redis.{hget_all}
use mlnserver_web.Number.{stoull}
use mlnserver_web.Mysql.{get_conn, create_conn}
use mlnserver_web.Session.{SessionData, read_session, is_valid_session}
use mlnserver_web.Session.Laws.{session_of}
use mlnserver_web.Handlers.Macros.{handle_session}
use mlnserver_web.Handlers.Macros.Gate.{handle_session-rejected, handle_session-escapes}
use mlnserver_web.Handlers.Player.{value_get, value_set, control_value_set}
use mlnserver_web.Handlers.Player.Insertion.{control_value_set-Answers}
use mlnserver_web.Tests.Demo.{demo, running, demo-SenderReturns}

abbrev with_key : Bytes → Fields
with_key key = (codes "mbsk", key) ∷ []

no_session :
    (key : Bytes) (d : SessionData)
    → find (codes "mbsk") [] ≡ some key
    → (is_valid_session demo key running).0 ≢ ok (true, some d)
unfolding find
no_session key d h = cc

-- Without a session, setting and getting come to the same.
handle_session-rejected_example :
    handle_session demo (value_set demo) [] (codes "x") true 11 running
    ≡ handle_session demo (value_get demo 4) [] (codes "y") true 11 running
handle_session-rejected_example =
    handle_session-rejected demo (value_set demo) (value_get demo 4) [] (codes "x") (codes "y") true
      11 running no_session

key_found : find (codes "mbsk") (with_key (codes "mbsk7")) ≡ some (codes "mbsk7")
unfolding find
key_found = refl

session_valid :
    (is_valid_session demo (codes "mbsk7") running).0
    ≡ ok (true, some (session_of (codes "mbsk7") 7))
unfolding is_valid_session hget_all read_session insert_all find stoull
session_valid = refl

abbrev at_value : Process demo
at_value = record running { param_string = codes "myValue" }

connected :
    get_conn demo 0
      (record (is_valid_session demo (codes "mbsk7") running).1 { param_string = codes "myValue" })
    ≡ (ok (some (codes "db")), at_value)
unfolding get_conn create_conn is_valid_session hget_all
connected = refl

control_value_set-Answers_example :
    Answers demo-SenderReturns []
      (control_value_set demo (with_key (codes "mbsk7")) (codes "bob") true 11 running)
      (get_rsponse demo (codes "{}") true 11 (codes "0"))
unfolding send_query
control_value_set-Answers_example =
    control_value_set-Answers demo-SenderReturns (with_key (codes "mbsk7")) (codes "bob") true 11
      running at_value (codes "mbsk7") (session_of (codes "mbsk7") 7) (codes "bob") (codes "bob")
      (some (codes "db")) key_found session_valid refl refl connected tt

-- The platform with a Redis that is gone.
abbrev down : Platform
down = record demo { hgetall = λ key e. (raise (Exn.redis_error (codes "gone")), e) }

abbrev running_down : Process down
running_down = record {
  ext = λ key. [];
  pools = [] ∷ [];
  opts = [];
  next_target = 1;
  loaders = [];
  redis_open = true;
  consumers = [];
  session_expire_sec = 1800;
  param_string = [];
  additional_info = [];
  sent = [];
}

handle_session-escapes_example :
    ((handle_session down (value_get down 4) (with_key (codes "mbsk7")) [] true 11 running_down).0
      ≡ raise (Exn.redis_error (codes "gone")))
    × ((handle_session down
          (value_get down 4)
          (with_key (codes "mbsk7"))
          []
          true
          11
          running_down).1.sent
        ≡ [])
handle_session-escapes_example =
    handle_session-escapes down (value_get down 4) (with_key (codes "mbsk7")) [] true 11
      running_down (codes "mbsk7") (Exn.redis_error (codes "gone")) key_found refl refl
