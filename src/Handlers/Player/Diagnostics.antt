-- ===== src/Handlers/Player/Diagnostics.antt =====
-- Which diagnostics decide what the handler of /player/value_set answers to a failed insertion.
use mlnserver_web.Prelude.{
  ℕ, ◌≡◌, ◌≢◌, refl, Bool, true, some, Bytes, codes, contains, if◌then◌else◌,
}
use mlnserver_web.Outcome.{ok}
use mlnserver_web.Platform.{Platform, Fields}
use mlnserver_web.Process.{Process}
use mlnserver_web.Http.Build.{get_server_error}
use mlnserver_web.Http.Answers.{SenderReturns}
use mlnserver_web.Http.Query.Failed.{left_info, send_query-failed}
use mlnserver_web.Http.Template.{json_msg}
use mlnserver_web.Http.Template.Errors.{Answers}
use mlnserver_web.Mysql.{get_conn}
use mlnserver_web.Redis.Containers.{find}
use mlnserver_web.Session.{SessionData, is_valid_session}
use mlnserver_web.Handlers.Macros.{named}
use mlnserver_web.Handlers.Player.{control_value_set, insert_player_sql}
use mlnserver_web.Handlers.Player.Insertion.{control_value_set-Answers}

module _ {p : Platform} (sender : SenderReturns p) where
  -- Where handing over a response returns, for a request with a valid session, a body that parses
  -- and holds the value, and a connection: an insertion that fails is answered by what other
  -- handlers have left of its diagnostics where the handler goes on. The answer is "exists myvalue"
  -- if the message made of the code and of these has "dup_entry", and "server error" if not.
  pub control_value_set-left_info :
      (header : Fields) (body : Bytes) (keep_alive : Bool) (version : ℕ) (s s₂ : Process p)
      (key : Bytes) (d : SessionData) (jv : p.Json) (my_value : Bytes) (c : p.Conn)
      → find (codes "mbsk") header ≡ some key
      → (is_valid_session p key s).0 ≡ ok (true, some d)
      → p.parse body ≡ some jv
      → p.string_at jv (codes "myValue") ≡ ok my_value
      → get_conn p 0 (named p (codes "myValue") (is_valid_session p key s).1) ≡ (ok (some c), s₂)
      → let (reply, e) = p.query c (insert_player_sql d.mbuid my_value) s₂.ext in
        reply.ec ≢ 0
        → Answers sender s₂.sent (control_value_set p header body keep_alive version s) (
            if contains (p.what reply.ec (left_info p s₂ e reply.info)) (codes "dup_entry")
            then get_server_error p keep_alive version (json_msg (codes "exists myvalue"))
            else get_server_error p keep_alive version (json_msg (codes "server error")))
  control_value_set-left_info header body keep_alive version s s₂ key d jv my_value c found valid
        parsed value connected failed =
      let thrown = send_query-failed p c (insert_player_sql d.mbuid my_value) s₂ failed in
      let answers =
        control_value_set-Answers sender header body keep_alive version s s₂ key d jv my_value
          (some c) found valid parsed value connected in
      (rw thrown at answers) refl
