-- ===== src/Handlers/Macros/Answers.antt =====
-- The frames of the handlers answer once where the callback does.
use mlnserver_web.Prelude.{
  ℕ, ◌≡◌, refl, Bool, true, false, Option, none, Bytes, codes, Option-cases, inl, inr, List,
}
use mlnserver_web.Platform.{Platform, Fields}
use mlnserver_web.Process.{Process}
use mlnserver_web.Http.Response.{Response}
use mlnserver_web.Http.Answers.{
  SenderReturns, Quiet, Sends, Finishes, Finishes-Sends, continue-Sends,
}
use mlnserver_web.Http.Template.{Callback, mysql_template}
use mlnserver_web.Http.Template.Answers.{send_rsp_result-Sends, mysql_template-Finishes}
use mlnserver_web.Redis.Containers.{find}
use mlnserver_web.Session.{SessionData, Validity}
use mlnserver_web.Session.Answers.{is_valid_session-Quiet}
use mlnserver_web.Handlers.Macros.{
  casual_obj_move_at_string, handle_casual, enter_session, handle_session,
}

module _ (p : Platform) where
  pub casual_obj_move_at_string-Quiet :
      (key : Bytes) (jv : p.Json) (before : List Response) (s : Process p)
      → s.sent ≡ before
      → Quiet before (casual_obj_move_at_string p key jv s)
  unfolding casual_obj_move_at_string
  casual_obj_move_at_string-Quiet key jv before s h = record { same = h }

-- The callback answers once, wherever it is entered.
abbrev pub CallbackSends : (p : Platform) → Callback p → Type 0
CallbackSends p cb =
    (header : Fields) (jv : p.Json) (keep_alive : Bool) (version : ℕ) (session : Option SessionData)
    (s : Process p)
    → Sends s.sent (cb header jv keep_alive version session s)

module _ {p : Platform} (sender : SenderReturns p) (cb : Callback p)
    (once : CallbackSends p cb) where
  pub handle_casual-Finishes :
      (header : Fields) (body : Bytes) (keep_alive : Bool) (version : ℕ) (s : Process p)
      → Finishes s.sent (handle_casual p cb header body keep_alive version s)
  unfolding handle_casual
  handle_casual-Finishes header body keep_alive version s =
      mysql_template-Finishes sender header body keep_alive version none cb s
        λ header' jv. once header' jv keep_alive version none s

  enter_session-Sends :
      (header : Fields) (body : Bytes) (keep_alive : Bool) (version : ℕ) (v : Validity)
      (before : List Response) (s : Process p)
      → s.sent ≡ before
      → Sends before (enter_session p cb header body keep_alive version v s)
  unfolding enter_session
  enter_session-Sends header body keep_alive version (true, session) before s h = rw (← h) (
      Finishes-Sends {p = p} s.sent (mysql_template p header body keep_alive version session cb s) (
        mysql_template-Finishes sender header body keep_alive version session cb s
          λ header' jv. once header' jv keep_alive version session s))
  enter_session-Sends header body keep_alive version (false, session) before s h =
      send_rsp_result-Sends sender keep_alive version _ _ before s h

  pub handle_session-Sends :
      (header : Fields) (body : Bytes) (keep_alive : Bool) (version : ℕ) (s : Process p)
      → Sends s.sent (handle_session p cb header body keep_alive version s)
  unfolding handle_session
  handle_session-Sends header body keep_alive version s =
      elim (Option-cases (find (codes "mbsk") header)) [
        | inl missing ↦
            rw (missing, handle_session)
              (send_rsp_result-Sends sender keep_alive version _ _ s.sent s refl)
        | inr (key, found) ↦
            rw (found, handle_session)
              (continue-Sends (is_valid_session-Quiet p key s.sent s refl)
                λ v s' h. enter_session-Sends header body keep_alive version v s.sent s' h)
      ]
