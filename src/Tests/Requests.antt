-- ===== src/Tests/Requests.antt =====
-- Sequences of requests at concrete inputs.
use mlnserver_web.Prelude.{
  ℕ, ◌≡◌, ◌↔◌, refl, ◌∙◌, sym, true, Bool-cases, inl, inr, none, some, [], ◌∷◌, Bytes, codes,
  bytes_eq, bytes_eq→eq, arith,
}
use mlnserver_web.Outcome.{ok}
use mlnserver_web.Process.{Process}
use mlnserver_web.Number.{to_string, stoull}
use mlnserver_web.Http.Build.{get_rsponse}
use mlnserver_web.Http.Template.{mysql_template}
use mlnserver_web.Redis.{hget_all}
use mlnserver_web.Redis.Containers.{find, insert_all}
use mlnserver_web.Session.{gen_session_key, read_session, is_valid_session}
use mlnserver_web.Session.Laws.{session_of}
use mlnserver_web.Handlers.Macros.{handle_session}
use mlnserver_web.Handlers.Account.{control_alive}
use mlnserver_web.Http.Template.{send_rsp}
use mlnserver_web.Handlers.Player.{value_set}
use mlnserver_web.Session.Changes.{OnlyStores, OnlyStores-ChangeLaws, StoresOrExpires}
use mlnserver_web.Requests.Sessions.{Lived-changes}
use mlnserver_web.Requests.{Route, handler, serves, request, meanwhile, Lived, born, lived_next}
use mlnserver_web.Requests.Isolation.{Owned, Lived-gen_session_key}
use mlnserver_web.Requests.Live.{IsLive, Lived-IsLive}
use mlnserver_web.Requests.Lasting.{account_pass-handle_session}
use mlnserver_web.Tests.Demo.{demo, running, demo_redis_laws, demo-DatabaseRange}
use mlnserver_web.Tests.Frame.{demo_storing, demo_expiring}
use mlnserver_web.Tests.Handlers.{logged_in, login_returns}

text_of_7 :
    (text : Bytes)
    → find (codes "mbuid") ((codes "mbuid", codes "7") ∷ []) ≡ some text
    → text ≡ to_string 7
unfolding find to_string
text_of_7 text h = cc

no_text : (text : Bytes) (A : Type 0) → find (codes "mbuid") [] ≡ some text → A
unfolding find
no_text text A h = cc

key_of_7 : codes "mbsk7" ≡ gen_session_key 7
unfolding gen_session_key to_string
key_of_7 = refl

-- User 7 has the one session.
running-Owned : Owned (demo_redis_laws.hash running.ext)
unfolding demo_redis_laws
running-Owned key text found = elim (Bool-cases (bytes_eq (codes "mbsk7") key)) [
  | inl same ↦
      (7, sym (bytes_eq→eq (codes "mbsk7") key same) ∙ key_of_7, text_of_7 text (rw same at found))
  | inr other ↦ no_text text _ (rw other at found)
]

-- A request for /alive.
abbrev after_alive : Process demo → Process demo
after_alive s = (handler demo 4 Route.alive [] [] true 11 s).1

-- Nothing has expired behind it.
running-Lived : Lived demo_redis_laws StoresOrExpires running (after_alive running)
running-Lived =
    lived_next (lived_next born (request (serves 4 Route.alive [] [] true 11)))
      (meanwhile (λ key field. inl (inl refl)) refl)

seven_accepted :
    (is_valid_session demo (codes "mbsk7") (after_alive running)).0
    ≡ ok (true, some (session_of (codes "mbsk7") 7))
unfolding is_valid_session hget_all read_session insert_all find stoull control_alive send_rsp
seven_accepted = refl

Lived-gen_session_key_example : codes "mbsk7" ≡ gen_session_key 7
Lived-gen_session_key_example =
    Lived-gen_session_key demo_redis_laws demo_expiring (codes "mbsk7")
      ((after_alive running).ext (codes "mbsk7")) (session_of (codes "mbsk7") 7) running-Owned refl
      running-Lived refl seven_accepted

account_pass-handle_session_example :
    (mbuid : ℕ) × (logged_in.sent ≡ get_rsponse demo (codes "{}") true 11 (codes "0") ∷ [])
    × (handle_session demo
          (value_set demo)
          ((codes "mbsk", gen_session_key mbuid) ∷ [])
          (codes "x")
          true
          11
          (after_alive logged_in)
        ≡ mysql_template demo
            ((codes "mbsk", gen_session_key mbuid) ∷ [])
            (codes "x")
            true
            11
            (some (session_of (gen_session_key mbuid) mbuid))
            (value_set demo)
            (is_valid_session demo (gen_session_key mbuid) (after_alive logged_in)).1)
account_pass-handle_session_example =
    account_pass-handle_session demo_redis_laws demo_storing demo-DatabaseRange 4 [] (codes "bob")
      true 11 none running logged_in (after_alive logged_in) (value_set demo) [] (codes "x") true 11
      login_returns (lived_next born (request (serves 4 Route.alive [] [] true 11)))
      (λ key. ((after_alive logged_in).ext key, refl))

Lived-IsLive_example :
    ((is_valid_session demo (codes "mbsk7") (after_alive running)).0
      ≡ ok (true, some (session_of (codes "mbsk7") 7)))
    ↔ (IsLive demo_redis_laws (after_alive running) 7 × (codes "mbsk7" ≡ gen_session_key 7))
Lived-IsLive_example =
    Lived-IsLive demo_redis_laws demo_expiring (codes "mbsk7")
      ((after_alive running).ext (codes "mbsk7")) 7 running-Owned refl running-Lived (omega arith)
      refl

-- A login, during whose queries another handler logs user 5 in.
abbrev after_login : Process demo
after_login = (handler demo 4 Route.auth_pass [] (codes "bob") true 11 running).1

Lived-changes_example :
    OnlyStores (demo_redis_laws.hash running.ext) (demo_redis_laws.hash after_login.ext)
    × (after_login.redis_open ≡ true)
Lived-changes_example =
    Lived-changes demo_redis_laws OnlyStores-ChangeLaws demo_storing refl
      (lived_next born (request (serves 4 Route.auth_pass [] (codes "bob") true 11)))
