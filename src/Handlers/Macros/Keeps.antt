-- ===== src/Handlers/Macros/Keeps.antt =====
-- The frames of the handlers keep every setting that the outer calls and their callback keep.
use mlnserver_web.Prelude.{ℕ, Bool, true, false, Option, none, Bytes, codes, Option-cases, inl, inr}
use mlnserver_web.Outcome.Keeps.{Keeps, Keeps-bind}
use mlnserver_web.Platform.{Platform, Fields}
use mlnserver_web.Http.Template.{Callback}
use mlnserver_web.Http.Template.Keeps.{send_rsp_result-Keeps, mysql_template-Keeps}
use mlnserver_web.Redis.Containers.{find}
use mlnserver_web.Session.{SessionData, Validity, is_valid_session}
use mlnserver_web.Session.Keeps.{is_valid_session-Keeps}
use mlnserver_web.Handlers.Macros.{
  casual_obj_move_at_string, handle_casual, enter_session, handle_session,
}
use mlnserver_web.Outer.{Setting, Calls, Outer}

module _ {p : Platform} {W : Setting p} (outer : Calls p W) where
  pub casual_obj_move_at_string-Keeps :
      (key : Bytes) (jv : p.Json) → Keeps (Outer p W) (casual_obj_move_at_string p key jv)
  unfolding casual_obj_move_at_string
  casual_obj_move_at_string-Keeps key jv = record {
    at = λ s h. (h, outer.allows.calls_stop.string_at_stops jv key);
  }

  -- The callback keeps the setting, wherever it is entered.
  abbrev pub CallbackKeeps : Callback p → Type 0
  CallbackKeeps cb =
      (header : Fields) (jv : p.Json) (keep_alive : Bool) (version : ℕ)
      (served : W.served keep_alive version) (session : Option SessionData)
      → Keeps (Outer p W) (cb header jv keep_alive version session)

  module _ (cb : Callback p) (k : CallbackKeeps cb) where
    pub handle_casual-Keeps :
        (header : Fields) (body : Bytes) (keep_alive : Bool) (version : ℕ)
        (served : W.served keep_alive version)
        → Keeps (Outer p W) (handle_casual p cb header body keep_alive version)
    unfolding handle_casual
    handle_casual-Keeps header body keep_alive version served =
        mysql_template-Keeps outer header body keep_alive version served none cb
          λ header' jv. k header' jv keep_alive version served none

    enter_session-Keeps :
        (header : Fields) (body : Bytes) (keep_alive : Bool) (version : ℕ)
        (served : W.served keep_alive version) (v : Validity)
        → Keeps (Outer p W) (enter_session p cb header body keep_alive version v)
    unfolding enter_session
    enter_session-Keeps header body keep_alive version served (true, session) =
        mysql_template-Keeps outer header body keep_alive version served session cb
          λ header' jv. k header' jv keep_alive version served session
    enter_session-Keeps header body keep_alive version served (false, session) =
        send_rsp_result-Keeps outer keep_alive version served _ _

    pub handle_session-Keeps :
        (header : Fields) (body : Bytes) (keep_alive : Bool) (version : ℕ)
        (served : W.served keep_alive version)
        → Keeps (Outer p W) (handle_session p cb header body keep_alive version)
    unfolding handle_session
    handle_session-Keeps header body keep_alive version served =
        elim (Option-cases (find (codes "mbsk") header)) [
          | inl missing ↦
              rw (missing, handle_session)
                (send_rsp_result-Keeps outer keep_alive version served _ _)
          | inr (key, found) ↦
              rw (found, handle_session)
                (Keeps-bind (is_valid_session p key) _ (is_valid_session-Keeps outer key)
                  λ v. enter_session-Keeps header body keep_alive version served v)
        ]
