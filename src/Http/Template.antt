-- ===== src/Http/Template.antt =====
-- `mysqlTemplate` of mlnserver/lobbyServerUtils.h, and the calls of the sender. Where the build
-- defines METABOLOTS_USE_PARAM_CHECKER, as mlnserver/CMakeLists.txt does, a bad parameter is named.
pub mod Answers
pub mod Keeps
pub mod Errors
use mlnserver_web.Prelude.{ℕ, Bool, Option, none, some, [], ◌∷◌, ◌++◌, Bytes, codes, if◌then◌else◌}
use mlnserver_web.Outcome.{Exn, Outcome, M, pure, throw, ◌>>=◌, ◌>>◌, catching}
use mlnserver_web.Platform.{Platform, HeaderMap, Value}
use mlnserver_web.Process.{Process, call}
use mlnserver_web.Http.Response.{Response}
use mlnserver_web.Http.Build.{get_bad_request, get_server_error, get_rsponse}
use mlnserver_web.Redis.Containers.{emplace}
use mlnserver_web.Session.{SessionData}

abbrev pub json_msg : Bytes → Bytes
json_msg msg = codes "{\"msg\":\"" ++ (msg ++ codes "\"}")

module _ (p : Platform) where
  pub note_sent : Response → M (Process p) (Unit {0})
  note_sent res s = pure tt (record s { sent = res ∷ s.sent })

  -- `sender(…)`, and mlnsdk's SEND_INE.
  unfoldable pub send : Response → M (Process p) (Unit {0})
  unfolding note_sent
  send res = note_sent res >> call (p.send res)

  unfoldable pub send_ine : Response → M (Process p) (Unit {0})
  unfolding note_sent
  send_ine res = note_sent res >> call (p.send_ine res)

  -- SEND_RSP and SEND_RSP_RESULT of mlnserver/lobbyServerMacros.h.
  unfoldable pub send_rsp : Bool → ℕ → Bytes → M (Process p) (Unit {0})
  unfolding send
  send_rsp keep_alive version msg = send (get_rsponse p msg keep_alive version (codes "0"))

  unfoldable pub send_rsp_result : Bool → ℕ → Bytes → Bytes → M (Process p) (Unit {0})
  unfolding send
  send_rsp_result keep_alive version msg result_string =
      send (get_rsponse p msg keep_alive version result_string)

  abbrev pub bad_parameter_msg : Bytes → Bytes
  bad_parameter_msg param =
      json_msg (if p.param_checker then codes "bad parameter:" ++ param else codes "bad parameter")

  unfoldable pub bad_parameter : Bool → ℕ → M (Process p) (Unit {0})
  unfolding send_ine
  bad_parameter keep_alive version s =
      send_ine (get_bad_request p keep_alive version (bad_parameter_msg s.param_string)) s

  -- The answer to an exception of no class that has a clause of its own.
  abbrev pub unknown_error : Bool → ℕ → Bytes → Response
  unknown_error keep_alive version param =
      if p.param_checker
      then get_bad_request p keep_alive version (bad_parameter_msg param)
      else get_server_error p keep_alive version (json_msg (codes "bad parameter"))

  unfoldable pub other_error : Bool → ℕ → M (Process p) (Unit {0})
  unfolding send_ine
  other_error keep_alive version s = send_ine (unknown_error keep_alive version s.param_string) s

  unfoldable pub server_error : Bool → ℕ → M (Process p) (Unit {0})
  unfolding send_ine
  server_error keep_alive version =
      send_ine (get_server_error p keep_alive version (json_msg (codes "server error")))

  -- The `catch` clauses, in their order.
  unfoldable pub on_exception : Bool → ℕ → Exn → M (Process p) (Unit {0})
  unfolding bad_parameter server_error other_error
  on_exception keep_alive version Exn.out_of_range = bad_parameter keep_alive version
  on_exception keep_alive version Exn.failed_read = server_error keep_alive version
  on_exception keep_alive version Exn.bad_field_access = server_error keep_alive version
  on_exception keep_alive version (Exn.system_error err info) = server_error keep_alive version
  on_exception keep_alive version Exn.foreign = throw Exn.foreign
  on_exception keep_alive version _ = other_error keep_alive version

  -- The callback of a template: header, JSON body, keep-alive, version, session.
  abbrev pub Callback : Type 0
  Callback = HeaderMap → Value p → Bool → ℕ → Option SessionData → M (Process p) (Unit {0})

  -- `header["__path__"]` in the log line adds the key if it is missing.
  unfoldable pub mysql_template :
      HeaderMap → Bytes → Bool → ℕ → Option SessionData → Callback → M (Process p) (Unit {0})
  unfolding send_ine on_exception
  mysql_template header body_string keep_alive version session cb = elim (p.parse body_string) [
    | none ↦
        send_ine (get_bad_request p keep_alive version (json_msg (codes "invalid json-string")))
    | some jv ↦
        catching (cb (emplace (codes "__path__") [] header) jv keep_alive version session)
          (on_exception keep_alive version)
  ]
