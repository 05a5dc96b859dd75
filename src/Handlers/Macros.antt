-- ===== src/Handlers/Macros.antt =====
-- The macros of mlnserver/lobbyServerMacros.h: a parameter of the request body, and the frames of a
-- handler with and without a session.
pub mod Answers
pub mod Keeps
pub mod Gate
pub mod Escapes
use mlnserver_web.Prelude.{
  ℕ, Bool, true, false, Option, none, some, ◌++◌, Bytes, codes, if◌then◌else◌,
}
use mlnserver_web.Outcome.{Outcome, M, pure, ◌>>=◌, ◌>>◌}
use mlnserver_web.Platform.{Platform, HeaderMap, Value}
use mlnserver_web.Process.{Process}
use mlnserver_web.Http.Template.{Callback, json_msg, send_rsp_result, mysql_template}
use mlnserver_web.Redis.Containers.{find}
use mlnserver_web.Session.{SessionData, Validity, is_valid_session}

module _ (p : Platform) where
  -- The state after a name is saved, which changes nothing if the build checks no parameters.
  abbrev pub named : Bytes → Process p → Process p
  named key s = record s { param_string = if p.param_checker then key else s.param_string }

  -- SAVE_METABOLOTS_PARAM
  pub save_param : Bytes → M (Process p) (Unit {0})
  save_param key s = pure tt (named key s)

  -- OBJ_STRING_AT
  abbrev pub obj_string_at : Bytes → Value p → M (Process p) Bytes
  obj_string_at key jv s = (p.string_at jv key, s)

  -- OBJ_MOVE_AT_STRING, at a literal without quotes: the name, which is then saved with its quotes,
  -- is saved after it is read. No handler uses it.
  pub obj_move_at_string : Bytes → Value p → M (Process p) Bytes
  unfolding save_param
  obj_move_at_string key jv = do
    value ← obj_string_at key jv
    save_param (codes "\"" ++ (key ++ codes "\""))
    pure value

  -- CASUAL_OBJ_MOVE_AT_STRING: the parameter's name is saved before it is read.
  unfoldable pub casual_obj_move_at_string : Bytes → Value p → M (Process p) Bytes
  unfolding save_param
  casual_obj_move_at_string key jv = save_param key >> obj_string_at key jv

  -- The arguments of HTTP_CORO_HANDLER_PROTO, less the sender.
  abbrev pub Handler : Type 0
  Handler = HeaderMap → Bytes → Bool → ℕ → M (Process p) (Unit {0})

  -- HTTP_CORO_MYSQL_TEMPLATE_CASUAL_BEGIN and HTTP_CORO_MYSQL_TEMPLATE_SESSION_BEGIN, which are
  -- written alike, with the session that is in scope where they stand.
  abbrev pub mysql_template_casual :
      Option SessionData → HeaderMap → Bytes → Bool → ℕ → Callback p → M (Process p) (Unit {0})
  mysql_template_casual session_data_opt header body_string keep_alive version cb =
      mysql_template p header body_string keep_alive version session_data_opt cb

  abbrev pub mysql_template_session :
      Option SessionData → HeaderMap → Bytes → Bool → ℕ → Callback p → M (Process p) (Unit {0})
  mysql_template_session session_data_opt header body_string keep_alive version cb =
      mysql_template p header body_string keep_alive version session_data_opt cb

  -- HTTP_CORO_HANDLE_CASUAL_BEGIN
  unfoldable pub handle_casual : Callback p → Handler
  handle_casual cb header body_string keep_alive version =
      mysql_template_casual none header body_string keep_alive version cb

  -- What follows the look-up of the session.
  enter_session : Callback p → HeaderMap → Bytes → Bool → ℕ → Validity → M (Process p) (Unit {0})
  enter_session cb header body_string keep_alive version (true, session) =
      mysql_template_session session header body_string keep_alive version cb
  enter_session cb header body_string keep_alive version (false, session) =
      send_rsp_result p keep_alive version (json_msg (codes "invalid session")) (codes "1")

  -- HTTP_CORO_HANDLE_SESSION_BEGIN with HTTP_CORO_SESSION_CHECK
  unfoldable pub handle_session : Callback p → Handler
  unfolding enter_session
  handle_session cb header body_string keep_alive version = elim (find (codes "mbsk") header) [
    | none ↦ send_rsp_result p keep_alive version (json_msg (codes "not found session")) (codes "1")
    | some key ↦ is_valid_session p key >>= enter_session cb header body_string keep_alive version
  ]
