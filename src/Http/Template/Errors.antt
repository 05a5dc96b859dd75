-- ===== src/Http/Template/Errors.antt =====
-- What `mysqlTemplate` answers when a callback throws.
use mlnserver_web.Prelude.{
  ℕ, ◌≡◌, refl, Bool, true, false, Option, some, List, [], ◌∷◌, Bytes, codes, if◌then◌else◌,
}
use mlnserver_web.Outcome.{Exn, is_std, Outcome, ok, raise, fault, M, handle}
use mlnserver_web.Platform.{Platform, Fields}
use mlnserver_web.Process.{Process}
use mlnserver_web.Http.Response.{Response}
use mlnserver_web.Http.Build.{get_bad_request, get_server_error}
use mlnserver_web.Http.Answers.{SenderReturns}
use mlnserver_web.Http.Template.{
  json_msg, send, send_ine, bad_parameter_msg, bad_parameter, unknown_error, other_error,
  server_error, on_exception, Callback, mysql_template,
}
use mlnserver_web.Redis.Containers.{emplace}
use mlnserver_web.Session.{SessionData}

-- The errors that the template blames on the server: those of boost::mysql.
abbrev pub is_database_error : Exn → Bool
is_database_error Exn.failed_read = true
is_database_error Exn.bad_field_access = true
is_database_error (Exn.system_error err info) = true
is_database_error _ = false

abbrev pub is_out_of_range : Exn → Bool
is_out_of_range Exn.out_of_range = true
is_out_of_range _ = false

-- The answer: the server's error, or a bad parameter, named by what the thread-local variable holds
-- if the build checks parameters.
abbrev pub error_answer : Platform → Bool → ℕ → Exn → Bytes → Response
error_answer p keep_alive version e param =
    if is_database_error e
    then get_server_error p keep_alive version (json_msg (codes "server error"))
    else if is_out_of_range e
    then get_bad_request p keep_alive version (bad_parameter_msg p param)
    else unknown_error p keep_alive version param

-- A call returned, or it threw a standard exception.
abbrev pub IsAnswerable : {A : Type 0} → Outcome A → Type 0
IsAnswerable (ok a) = Unit {0}
IsAnswerable (raise e) = is_std e ≡ true
IsAnswerable (fault f) = ⊥

module _ {p : Platform} (sender : SenderReturns p) where
  -- The call returns, and it has handed over this one response.
  abbrev pub Answers : List Response → Outcome (Unit {0}) × Process p → Response → Type 0
  Answers before r res = (r.0 ≡ ok tt) × (r.1.sent ≡ res ∷ before)

  pub send-Answers :
      (h : Exn → M (Process p) (Unit {0})) (res : Response) (s : Process p)
      → Answers s.sent (handle (send p res s) h) res
  unfolding send
  send-Answers h res s =
      (rw (sender.send_returns res s.ext) refl, rw (sender.send_returns res s.ext) refl)

  send_ine-Answers : (res : Response) (s : Process p) → Answers s.sent (send_ine p res s) res
  unfolding send_ine
  send_ine-Answers res s = (rw (sender.send_ine_returns res s.ext) refl, refl)

  bad_parameter-Answers :
      (keep_alive : Bool) (version : ℕ) (s : Process p)
      → Answers s.sent
          (bad_parameter p keep_alive version s)
          (get_bad_request p keep_alive version (bad_parameter_msg p s.param_string))
  unfolding bad_parameter
  bad_parameter-Answers keep_alive version s = send_ine-Answers _ s

  other_error-Answers :
      (keep_alive : Bool) (version : ℕ) (s : Process p)
      → Answers s.sent
          (other_error p keep_alive version s)
          (unknown_error p keep_alive version s.param_string)
  unfolding other_error
  other_error-Answers keep_alive version s = send_ine-Answers _ s

  pub server_error-Answers :
      (keep_alive : Bool) (version : ℕ) (s : Process p)
      → Answers s.sent
          (server_error p keep_alive version s)
          (get_server_error p keep_alive version (json_msg (codes "server error")))
  unfolding server_error
  server_error-Answers keep_alive version s = send_ine-Answers _ s

  pub on_exception-Answers :
      (keep_alive : Bool) (version : ℕ) (e : Exn) (s : Process p)
      → is_std e ≡ true
      → Answers s.sent
          (on_exception p keep_alive version e s)
          (error_answer p keep_alive version e s.param_string)
  unfolding on_exception
  on_exception-Answers keep_alive version Exn.failed_read s h =
      server_error-Answers keep_alive version s
  on_exception-Answers keep_alive version Exn.bad_field_access s h =
      server_error-Answers keep_alive version s
  on_exception-Answers keep_alive version (Exn.system_error err info) s h =
      server_error-Answers keep_alive version s
  on_exception-Answers keep_alive version Exn.foreign s h = cc
  on_exception-Answers keep_alive version Exn.out_of_range s h =
      bad_parameter-Answers keep_alive version s
  on_exception-Answers keep_alive version _ s h = other_error-Answers keep_alive version s

  -- If handing over a response returns, the body parses and the callback throws a standard
  -- exception, then the template returns and hands over one more
  -- response: the server error for the three classes of boost::mysql errors; for out_of_range, and
  -- for every other class if the build checks parameters, a bad request, which then names the
  -- parameter that the thread-local variable holds; else a server error that says "bad parameter".
  pub mysql_template-Answers :
      (header : Fields) (body_string : Bytes) (keep_alive : Bool) (version : ℕ)
      (session : Option SessionData) (cb : Callback p) (s t : Process p) (jv : p.Json) (e : Exn)
      → p.parse body_string ≡ some jv
      → cb (emplace (codes "__path__") [] header) jv keep_alive version session s ≡ (raise e, t)
      → is_std e ≡ true
      → Answers t.sent
          (mysql_template p header body_string keep_alive version session cb s)
          (error_answer p keep_alive version e t.param_string)
  unfolding mysql_template
  mysql_template-Answers header body_string keep_alive version session cb s t jv e parsed thrown
        std =
      rw (parsed, mysql_template)
        (rw (thrown, handle) (on_exception-Answers keep_alive version e t std))
