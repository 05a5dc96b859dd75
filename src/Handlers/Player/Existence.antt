-- ===== src/Handlers/Player/Existence.antt =====
-- What the handler of /player/value_get answers to each result of its query.
pub mod Told
use mlnserver_web.Prelude.{ℕ, ◌≡◌, Bool, true, some, [], Bytes, codes, ℤ}
use mlnserver_web.Outcome.{Outcome, ok, raise, fault, continue, handle}
use mlnserver_web.Platform.{Platform, Fields}
use mlnserver_web.Process.{Process, ConnPtr}
use mlnserver_web.Http.Response.{Response}
use mlnserver_web.Http.Build.{get_rsponse, get_server_error}
use mlnserver_web.Http.Answers.{SenderReturns}
use mlnserver_web.Http.Template.{send_rsp, on_exception, mysql_template}
use mlnserver_web.Http.Template.Errors.{
  error_answer, IsAnswerable, Answers, send-Answers, on_exception-Answers,
}
use mlnserver_web.Mysql.{get_conn}
use mlnserver_web.Redis.Containers.{find}
use mlnserver_web.Session.{SessionData, is_valid_session}
use mlnserver_web.Handlers.Macros.{named, casual_obj_move_at_string}
use mlnserver_web.Handlers.Macros.Gate.{handle_session-accepted}
use mlnserver_web.Handlers.Player.{value_get_reply, player_exists, value_get, control_value_get}

module _ (p : Platform) where
  -- The reply to a query: what it found, or what the template answers to its failure.
  abbrev pub existence_answer : Bool → ℕ → Bytes → Bytes → Outcome ℤ → Response
  existence_answer keep_alive version my_value param (ok exists) =
      get_rsponse p (p.serialize (value_get_reply p my_value exists)) keep_alive version (codes "0")
  existence_answer keep_alive version my_value param (raise e) =
      error_answer p keep_alive version e param
  existence_answer keep_alive version my_value param (fault f) =
      get_server_error p keep_alive version []

module _ {p : Platform} (sender : SenderReturns p) where
  found-Answers :
      (keep_alive : Bool) (version : ℕ) (my_value : Bytes) (r : Outcome ℤ × Process p)
      → IsAnswerable r.0
      → Answers sender r.1.sent
          (handle
            (continue r λ exists.
              send_rsp p keep_alive version (p.serialize (value_get_reply p my_value exists)))
            (on_exception p keep_alive version))
          (existence_answer p keep_alive version my_value r.1.param_string r.0)
  unfolding send_rsp
  found-Answers keep_alive version my_value (ok exists, s) h =
      send-Answers sender (on_exception p keep_alive version) _ s
  found-Answers keep_alive version my_value (raise e, s) h =
      on_exception-Answers sender keep_alive version e s h
  found-Answers keep_alive version my_value (fault f, s) h = absurd h

  -- Where handing over a response returns, for a request with a valid session, a body that parses
  -- and holds the value, and a connection: if the query for the value returns or throws a standard
  -- exception, then the handler returns and hands over one more response. It says whether the value
  -- exists, as the query found it; after an exception it is what the template answers to it.
  pub control_value_get-Answers :
      (rounds : ℕ) (header : Fields) (body : Bytes) (keep_alive : Bool) (version : ℕ)
      (s s₂ : Process p) (key : Bytes) (d : SessionData) (jv : p.Json) (my_value : Bytes)
      (conn : ConnPtr p)
      → find (codes "mbsk") header ≡ some key
      → (is_valid_session p key s).0 ≡ ok (true, some d)
      → p.parse body ≡ some jv
      → p.string_at jv (codes "myValue") ≡ ok my_value
      → get_conn p 0 (named p (codes "myValue") (is_valid_session p key s).1) ≡ (ok conn, s₂)
      → IsAnswerable (player_exists p rounds conn my_value s₂).0
      → let r = player_exists p rounds conn my_value s₂ in
        Answers sender r.1.sent
          (control_value_get p rounds header body keep_alive version s)
          (existence_answer p keep_alive version my_value r.1.param_string r.0)
  unfolding control_value_get value_get casual_obj_move_at_string mysql_template
  control_value_get-Answers rounds header body keep_alive version s s₂ key d jv my_value conn found
        valid parsed value connected h =
      rw
        (handle_session-accepted p (value_get p rounds) header body keep_alive version s key d found
          valid)
        (rw (parsed, mysql_template)
          (rw (value, continue)
            (rw (connected, continue)
              (found-Answers keep_alive version my_value (player_exists p rounds conn my_value s₂)
                h))))
