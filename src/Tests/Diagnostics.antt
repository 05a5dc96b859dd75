-- ===== src/Tests/Diagnostics.antt =====
-- An insertion whose connection is lost, while another handler reports a value that exists.
use mlnserver_web.Prelude.{◌≡◌, refl, true, some, [], ◌∷◌, codes, arith}
use mlnserver_web.Outcome.{ok}
use mlnserver_web.Platform.{Platform, Fields}
use mlnserver_web.Process.{Process}
use mlnserver_web.Http.Answers.{SenderReturns}
use mlnserver_web.Http.Build.{get_server_error}
use mlnserver_web.Http.Template.{json_msg}
use mlnserver_web.Http.Template.Errors.{Answers}
use mlnserver_web.Redis.Containers.{find, insert_all}
use mlnserver_web.Redis.{hget_all}
use mlnserver_web.Number.{stoull}
use mlnserver_web.Mysql.{get_conn, create_conn}
use mlnserver_web.Session.{read_session, is_valid_session}
use mlnserver_web.Session.Laws.{session_of}
use mlnserver_web.Handlers.Player.{control_value_set}
use mlnserver_web.Handlers.Player.Diagnostics.{control_value_set-left_info}
use mlnserver_web.Tests.Demo.{demo, demo_mysql}

abbrev overheard : Platform
overheard = record demo {
  query = λ _ sql e. (record { ec = 2013; info = codes "lost"; result = 0 }, e);
  resumed = λ _ held. (held.0, codes "dup_entry");
}

overheard-SenderReturns : SenderReturns overheard
overheard-SenderReturns = record { send_returns = λ _ _. refl; send_ine_returns = λ _ _. refl }

abbrev start : Process overheard
start = record {
  ext = λ key. (codes "mbuid", codes "7") ∷ [];
  pools = [] ∷ [];
  opts = demo_mysql ∷ [];
  next_target = 1;
  loaders = [];
  redis_open = true;
  consumers = [];
  session_expire_sec = 1800;
  param_string = [];
  additional_info = [];
  sent = [];
}

abbrev header : Fields
header = (codes "mbsk", codes "mbsk7") ∷ []

key_found : find (codes "mbsk") header ≡ some (codes "mbsk7")
unfolding find
key_found = refl

session_valid :
    (is_valid_session overheard (codes "mbsk7") start).0
    ≡ ok (true, some (session_of (codes "mbsk7") 7))
unfolding is_valid_session hget_all read_session insert_all find stoull
session_valid = refl

connected :
    get_conn overheard 0 (record (is_valid_session overheard (codes "mbsk7") start).1 {
      param_string = codes "myValue";
    })
    ≡ (ok (some (codes "db")), record start { param_string = codes "myValue" })
unfolding get_conn create_conn is_valid_session hget_all
connected = refl

control_value_set-left_info_example :
    Answers overheard-SenderReturns []
      (control_value_set overheard header (codes "bob") true 11 start)
      (get_server_error overheard true 11 (json_msg (codes "exists myvalue")))
control_value_set-left_info_example =
    control_value_set-left_info overheard-SenderReturns header (codes "bob") true 11 start
      (record start { param_string = codes "myValue" }) (codes "mbsk7")
      (session_of (codes "mbsk7") 7) (codes "bob") (codes "bob") (codes "db") key_found
      session_valid refl refl connected (omega arith)
