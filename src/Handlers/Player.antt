-- ===== src/Handlers/Player.antt =====
-- mlnserver/myPacketHandler/handlePlayer.cpp.
pub mod Answers
pub mod Keeps
pub mod Insertion
pub mod Diagnostics
pub mod Existence
use mlnserver_web.Prelude.{
  ℕ, Bool, true, false, Option, none, some, [], ◌∷◌, ◌++◌, Bytes, codes, contains, ◌==◌,
  if◌then◌else◌, ℤ,
}
use mlnserver_web.Outcome.{Exn, Fault, M, pure, throw, ◌>>=◌, ◌>>◌, catching, or_throw, or_stop}
use mlnserver_web.Platform.{Platform, JsonObject, text, int}
use mlnserver_web.Process.{Process, ConnPtr}
use mlnserver_web.Number.{to_string}
use mlnserver_web.Http.Build.{get_server_error}
use mlnserver_web.Http.Query.{send_query, read_one, purge_result}
use mlnserver_web.Http.Template.{Callback, json_msg, send_ine, send_rsp, send_rsp_result}
use mlnserver_web.Mysql.{get_conn}
use mlnserver_web.Session.{SessionData}
use mlnserver_web.Handlers.Macros.{Handler, casual_obj_move_at_string, handle_session}
use mlnserver_web.Handlers.Account.{quoted, first_field}

abbrev pub player_exists_sql : Bytes → Bytes
player_exists_sql my_value =
    codes "SELECT EXISTS(SELECT * FROM player WHERE player_name="
    ++ (quoted my_value ++ codes ") as RESULT;")

abbrev pub insert_player_sql : ℕ → Bytes → Bytes
insert_player_sql mbuid my_value =
    codes "INSERT INTO player(mbuid, myvalue) VALUES("
    ++ (to_string mbuid ++ (codes ", " ++ (quoted my_value ++ codes ")")))

module _ (p : Platform) where
  -- `makeComment` of mlnserver/stringUtils.hpp at the literal of the handler.
  abbrev exists_comment : Bytes
  exists_comment = p.utf16_to_8 (codes "exists   0->해당 닉네임 없음. 1->해당 닉네임 존재.")

  abbrev pub value_get_reply : Bytes → ℤ → JsonObject
  value_get_reply my_value exists =
      (codes "msg", text (codes "ok"))
      ∷ (codes "player_name", text my_value)
      ∷ (codes "exists", int exists)
      ∷ (codes "comment", text exists_comment)
      ∷ []

  -- The query and its one row; whether a row was read is not looked at.
  unfoldable pub player_exists : ℕ → ConnPtr p → Bytes → M (Process p) ℤ
  player_exists rounds conn_obj my_value = do
    result ← send_query p conn_obj (player_exists_sql my_value)
    r ← read_one p result
    field ← or_stop (first_field r.row) Fault.empty_row
    exists ← or_throw (p.as_int64 field) Exn.bad_field_access
    _ ← purge_result p rounds r.after
    pure exists

  unfoldable pub value_get : ℕ → Callback p
  unfolding player_exists
  value_get rounds header jv keep_alive version session = do
    my_value ← casual_obj_move_at_string p (codes "myValue") jv
    conn_obj ← get_conn p 0
    exists ← player_exists rounds conn_obj my_value
    send_rsp p keep_alive version (p.serialize (value_get_reply my_value exists))

  unfoldable pub control_value_get : ℕ → Handler p
  unfolding value_get
  control_value_get rounds = handle_session p (value_get rounds)

  -- The `catch` of the insertion: `none` stands for the early return.
  pub on_insert_error : Bool → ℕ → Exn → M (Process p) (Option p.ResultSet)
  on_insert_error keep_alive version (Exn.system_error err info) =
      if contains (p.what err info) (codes "dup_entry")
      then (send_ine p (get_server_error p keep_alive version (json_msg (codes "exists myvalue")))
          >> pure none)
      else throw (Exn.system_error err info)
  on_insert_error keep_alive version e = throw e

  pub report_insert : Bool → ℕ → Bytes → Option p.ResultSet → M (Process p) (Unit {0})
  report_insert keep_alive version my_value none = pure tt
  report_insert keep_alive version my_value (some result) =
      if 1 == p.affected_rows result
      then send_rsp p keep_alive version (p.serialize ((codes "msg", text (codes "ok")) ∷ []))
      else send_rsp_result p keep_alive version
          (p.serialize (
            (codes "msg", text (codes "existing nickname"))
            ∷ (codes "myvalue", text my_value)
            ∷ []))
          (codes "1")

  unfoldable pub value_set : Callback p
  unfolding on_insert_error report_insert
  value_set header jv keep_alive version session = do
    my_value ← casual_obj_move_at_string p (codes "myValue") jv
    conn_obj ← get_conn p 0
    session_data ← or_throw session Exn.bad_optional_access
    inserted ←
        catching
          (send_query p conn_obj (insert_player_sql session_data.mbuid my_value) >>= λ r.
            pure (some r))
          (on_insert_error keep_alive version)
    report_insert keep_alive version my_value inserted

  unfoldable pub control_value_set : Handler p
  unfolding value_set
  control_value_set = handle_session p value_set
