-- ===== src/Interfaces/Macros.antt =====
-- mlnserver/lobbyServerMacros.h: the macros that the handlers are written with.
use mlnserver_web.Prelude.{ℕ, Bool, Option, Bytes}
use mlnserver_web.Outcome.{M}
use mlnserver_web.Platform.{Platform, HeaderMap, Value}
use mlnserver_web.Process.{Process}
use mlnserver_web.Http.Template.{Callback, send_rsp, send_rsp_result}
use mlnserver_web.Session.{SessionData}
use mlnserver_web.Handlers.Macros.{
  Handler, save_param, obj_string_at, obj_move_at_string, casual_obj_move_at_string,
  mysql_template_casual, mysql_template_session, handle_casual, handle_session,
}

-- The macros, in the order in which they are defined. The arguments that a macro takes from where it
-- stands come first.
pub record LobbyServerMacros (p : Platform) : Type 0 where
  pub mysql_template_casual :
      Option SessionData → HeaderMap → Bytes → Bool → ℕ → Callback p → M (Process p) (Unit {0})
  pub mysql_template_session :
      Option SessionData → HeaderMap → Bytes → Bool → ℕ → Callback p → M (Process p) (Unit {0})
  pub obj_string_at : Bytes → Value p → M (Process p) Bytes
  pub save_param : Bytes → M (Process p) (Unit {0})
  pub send_rsp : Bool → ℕ → Bytes → M (Process p) (Unit {0})
  pub send_rsp_result : Bool → ℕ → Bytes → Bytes → M (Process p) (Unit {0})
  pub obj_move_at_string : Bytes → Value p → M (Process p) Bytes
  pub casual_obj_move_at_string : Bytes → Value p → M (Process p) Bytes
  pub handle_casual : Callback p → Handler p
  pub handle_session : Callback p → Handler p

pub lobby_server_macros : (p : Platform) → LobbyServerMacros p
lobby_server_macros p = record {
  mysql_template_casual = mysql_template_casual p;
  mysql_template_session = mysql_template_session p;
  obj_string_at = obj_string_at p;
  save_param = save_param p;
  send_rsp = send_rsp p;
  send_rsp_result = send_rsp_result p;
  obj_move_at_string = obj_move_at_string p;
  casual_obj_move_at_string = casual_obj_move_at_string p;
  handle_casual = handle_casual p;
  handle_session = handle_session p;
}
