-- ===== src/Handlers/Player/Insertion.antt =====
-- What the handler of /player/value_set answers to each result of its insertion.
use mlnserver_web.Prelude.{
  ℕ, ◌≡◌, refl, Bool, true, Bool-cases, inl, inr, none, some, [], ◌∷◌, Bytes, codes, contains, ◌==◌,
  if◌then◌else◌,
}
use mlnserver_web.Outcome.{Exn, Outcome, ok, raise, fault, M, pure, continue, handle}
use mlnserver_web.Platform.{Platform, Fields, text}
use mlnserver_web.Process.{Process, ConnPtr}
use mlnserver_web.Http.Response.{Response}
use mlnserver_web.Http.Build.{get_rsponse, get_server_error}
use mlnserver_web.Http.Answers.{SenderReturns}
use mlnserver_web.Http.Query.{send_query}
use mlnserver_web.Http.Template.{
  json_msg, send_ine, send_rsp, send_rsp_result, on_exception, mysql_template,
}
use mlnserver_web.Http.Template.Errors.{
  error_answer, IsAnswerable, Answers, send-Answers, on_exception-Answers,
}
use mlnserver_web.Mysql.{get_conn}
use mlnserver_web.Redis.Containers.{find, emplace}
use mlnserver_web.Session.{SessionData, is_valid_session}
use mlnserver_web.Handlers.Macros.{named, casual_obj_move_at_string}
use mlnserver_web.Handlers.Macros.Gate.{handle_session-accepted}
use mlnserver_web.Handlers.Player.{
  on_insert_error, report_insert, value_set, control_value_set, insert_player_sql,
}

module _ (p : Platform) where
  -- The reply to an insertion: a row was inserted, none was, the name is taken, any other failure.
  abbrev pub insert_answer : Bool → ℕ → Bytes → Bytes → Outcome p.ResultSet → Response
  insert_answer keep_alive version my_value param (ok r) =
      if 1 == p.affected_rows r
      then get_rsponse p (p.serialize ((codes "msg", text (codes "ok")) ∷ [])) keep_alive version
          (codes "0")
      else get_rsponse p
          (p.serialize (
            (codes "msg", text (codes "existing nickname"))
            ∷ (codes "myvalue", text my_value)
            ∷ []))
          keep_alive version (codes "1")
  insert_answer keep_alive version my_value param (raise (Exn.system_error err info)) =
      if contains (p.what err info) (codes "dup_entry")
      then get_server_error p keep_alive version (json_msg (codes "exists myvalue"))
      else get_server_error p keep_alive version (json_msg (codes "server error"))
  insert_answer keep_alive version my_value param (raise e) =
      error_answer p keep_alive version e param
  insert_answer keep_alive version my_value param (fault f) =
      get_server_error p keep_alive version []

module _ {p : Platform} (sender : SenderReturns p) where
  taken-Answers :
      (keep_alive : Bool) (version : ℕ) (my_value : Bytes) (h : Exn → M (Process p) (Unit {0}))
      (res : Response) (s : Process p)
      → Answers sender s.sent
          (handle
            (continue
              (continue (send_ine p res s) (λ _. pure none))
              (report_insert p keep_alive version my_value))
            h)
          res
  unfolding send_ine report_insert
  taken-Answers keep_alive version my_value h res s =
      (rw (sender.send_ine_returns res s.ext) refl, rw (sender.send_ine_returns res s.ext) refl)

  inserted-Answers :
      (keep_alive : Bool) (version : ℕ) (my_value : Bytes) (r : Outcome p.ResultSet × Process p)
      → IsAnswerable r.0
      → Answers sender r.1.sent
          (handle
            (continue
              (handle (continue r (λ x. pure (some x))) (on_insert_error p keep_alive version))
              (report_insert p keep_alive version my_value))
            (on_exception p keep_alive version))
          (insert_answer p keep_alive version my_value r.1.param_string r.0)
  unfolding on_insert_error report_insert send_rsp send_rsp_result
  inserted-Answers keep_alive version my_value (ok rows, s) h =
      elim (Bool-cases (1 == p.affected_rows rows)) [
        | inl one ↦ rw one (send-Answers sender (on_exception p keep_alive version) _ s)
        | inr other ↦ rw other (send-Answers sender (on_exception p keep_alive version) _ s)
      ]
  inserted-Answers keep_alive version my_value (raise (Exn.system_error err info), s) h =
      elim (Bool-cases (contains (p.what err info) (codes "dup_entry"))) [
        | inl taken ↦
            rw taken
              (taken-Answers keep_alive version my_value (on_exception p keep_alive version) _ s)
        | inr other ↦
            rw other
              (on_exception-Answers sender keep_alive version (Exn.system_error err info) s h)
      ]
  inserted-Answers keep_alive version my_value (raise e, s) h =
      on_exception-Answers sender keep_alive version e s h
  inserted-Answers keep_alive version my_value (fault f, s) h = absurd h

  value_set-Answers :
      (header : Fields) (jv : p.Json) (keep_alive : Bool) (version : ℕ) (d : SessionData)
      (my_value : Bytes) (conn : ConnPtr p) (s₀ s₂ : Process p)
      → p.string_at jv (codes "myValue") ≡ ok my_value
      → get_conn p 0 (named p (codes "myValue") s₀) ≡ (ok conn, s₂)
      → let r = send_query p conn (insert_player_sql d.mbuid my_value) s₂ in
        IsAnswerable r.0
        → Answers sender r.1.sent
            (handle
              (value_set p header jv keep_alive version (some d) s₀)
              (on_exception p keep_alive version))
            (insert_answer p keep_alive version my_value r.1.param_string r.0)
  unfolding value_set casual_obj_move_at_string
  value_set-Answers header jv keep_alive version d my_value conn s₀ s₂ value connected h =
      rw (value, continue)
        (rw (connected, continue)
          (inserted-Answers keep_alive version my_value
            (send_query p conn (insert_player_sql d.mbuid my_value) s₂) h))

  -- Where handing over a response returns, for a request with a valid session, a body that parses
  -- and holds the value, and a connection: if the insertion returns or throws a standard exception,
  -- then the handler returns and hands over one more response. It is "ok" if one row was affected
  -- and "existing nickname" if not; after a `system_error` it is "exists myvalue" if the message
  -- has "dup_entry" and "server error" if not; after any other exception it is what the template
  -- answers to it.
  pub control_value_set-Answers :
      (header : Fields) (body : Bytes) (keep_alive : Bool) (version : ℕ) (s s₂ : Process p)
      (key : Bytes) (d : SessionData) (jv : p.Json) (my_value : Bytes) (conn : ConnPtr p)
      → find (codes "mbsk") header ≡ some key
      → (is_valid_session p key s).0 ≡ ok (true, some d)
      → p.parse body ≡ some jv
      → p.string_at jv (codes "myValue") ≡ ok my_value
      → get_conn p 0 (named p (codes "myValue") (is_valid_session p key s).1) ≡ (ok conn, s₂)
      → IsAnswerable (send_query p conn (insert_player_sql d.mbuid my_value) s₂).0
      → let r = send_query p conn (insert_player_sql d.mbuid my_value) s₂ in
        Answers sender r.1.sent
          (control_value_set p header body keep_alive version s)
          (insert_answer p keep_alive version my_value r.1.param_string r.0)
  unfolding control_value_set mysql_template
  control_value_set-Answers header body keep_alive version s s₂ key d jv my_value conn found valid
        parsed value connected h =
      rw
        (handle_session-accepted p (value_set p) header body keep_alive version s key d found valid)
        (rw (parsed, mysql_template)
          (value_set-Answers (emplace (codes "__path__") [] header) jv keep_alive version d my_value
            conn (is_valid_session p key s).1 s₂ value connected h))
