-- ===== src/Tests/Handlers.antt =====
-- The handlers at concrete inputs.
use mlnserver_web.Prelude.{ℕ, ◌≡◌, ◌<◌, refl, true, none, some, [], ◌∷◌, codes}
use mlnserver_web.Outcome.{ok}
use mlnserver_web.Process.{Process}
use mlnserver_web.Number.{u64_mod}
use mlnserver_web.Mysql.{get_conn, create_conn}
use mlnserver_web.Http.Query.{send_query, read_one, purge_result}
use mlnserver_web.Http.Template.{send_rsp}
use mlnserver_web.Redis.{hset_fields}
use mlnserver_web.Handlers.Macros.{casual_obj_move_at_string}
use mlnserver_web.Http.Answers.{Finishes}
use mlnserver_web.Http.Build.{get_rsponse}
use mlnserver_web.Session.{gen_session_key, create_session, is_valid_session}
use mlnserver_web.Session.Laws.{session_of}
use mlnserver_web.Handlers.Account.{account_pass, control_account_pass}
use mlnserver_web.Handlers.Account.Answers.{control_account_pass-Finishes}
use mlnserver_web.Handlers.Account.Login.{account_pass-session}
use mlnserver_web.Tests.Frame.{demo_storing}
use mlnserver_web.Tests.Demo.{
  demo, running, demo-SenderReturns, demo_redis_laws, demo-DatabaseRange,
}

control_account_pass-Finishes_example :
    Finishes [] (control_account_pass demo 4 [] (codes "bob") true 11 running)
control_account_pass-Finishes_example =
    control_account_pass-Finishes demo-SenderReturns 4 [] (codes "bob") true 11 running

abbrev pub logged_in : Process demo
logged_in = (account_pass demo 4 [] (codes "bob") true 11 none running).1

pub login_returns : account_pass demo 4 [] (codes "bob") true 11 none running ≡ (ok tt, logged_in)
unfolding account_pass casual_obj_move_at_string get_conn create_conn send_query read_one
    purge_result create_session hset_fields send_rsp
login_returns = refl

account_pass-session_example :
    (mbuid : ℕ) × (mbuid < u64_mod)
    × (logged_in.sent ≡ get_rsponse demo (codes "{}") true 11 (codes "0") ∷ [])
    × ((is_valid_session demo (gen_session_key mbuid) logged_in).0
        ≡ ok (true, some (session_of (gen_session_key mbuid) mbuid)))
account_pass-session_example =
    account_pass-session demo-DatabaseRange demo_redis_laws demo_storing 4 [] (codes "bob") true 11
      none running logged_in login_returns (λ key. (logged_in.ext key, refl))
