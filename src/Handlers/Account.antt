-- ===== src/Handlers/Account.antt =====
-- mlnserver/myPacketHandler/handleAccount.cpp.
pub mod Answers
pub mod Keeps
pub mod Ending
pub mod Login
pub mod Database
pub mod Identity
use mlnserver_web.Prelude.{
  ℕ, ◌*◌, pos, Bool, true, false, Option, none, some, List, [], ◌∷◌, ◌++◌, Bytes, codes,
}
use mlnserver_web.Outcome.{Exn, Fault, M, pure, ◌>>=◌, ◌>>◌, or_throw, or_stop}
use mlnserver_web.Platform.{Platform, ReadOne, JsonObject, text, unsigned, int}
use mlnserver_web.Process.{Process, ConnPtr, call}
use mlnserver_web.Number.{to_string}
use mlnserver_web.Http.Query.{send_query, read_one, purge_result}
use mlnserver_web.Http.Template.{Callback, json_msg, send_rsp}
use mlnserver_web.Mysql.{get_conn}
use mlnserver_web.Redis.{hset_fields}
use mlnserver_web.Session.{SessionData, create_session}
use mlnserver_web.Handlers.Macros.{Handler, casual_obj_move_at_string, handle_casual}

-- A value between quotes, as `'{}'` of a format string writes it.
abbrev pub quoted : Bytes → Bytes
quoted v = codes "'" ++ (v ++ codes "'")

abbrev pub select_account_sql : Bytes → Bytes
select_account_sql user_id =
    codes "SELECT mbuid, proceeded FROM account WHERE user_id=" ++ quoted user_id

abbrev pub insert_account_sql : Bytes → Bytes → Bytes
insert_account_sql user_id user_id_ext =
    codes "INSERT INTO account(user_id, user_id_ext, proceeded) VALUES("
    ++ (quoted user_id ++ (codes ", " ++ (quoted user_id_ext ++ codes ", 0);")))

abbrev pub account_reply : ℕ → Bytes → JsonObject
account_reply mbuid session_key =
    (codes "msg", text (codes "ok"))
    ∷ (codes "mbuid", unsigned mbuid)
    ∷ (codes "proceeded", int (pos 7))
    ∷ (codes "symmetricKey", text [])
    ∷ (codes "sessionKey", text session_key)
    ∷ (codes "sessionExpireSec", int (pos (60 * 30)))
    ∷ []

-- `row[0]`: an empty row has no such entry.
abbrev pub first_field {ℓ} : {A : Type ℓ} → List A → Option A
first_field [] = none
first_field (x ∷ _) = some x

module _ (p : Platform) where
  unfoldable pub control_alive : Handler p
  control_alive header body_string keep_alive version =
      send_rsp p keep_alive version (json_msg (codes "hello~"))

  -- Registered nowhere. The pause is in milliseconds.
  unfoldable pub control_alive_sleep : Handler p
  control_alive_sleep header body_string keep_alive version =
      call (p.sleep_for 5000) >> send_rsp p keep_alive version (json_msg (codes "Sleep~"))

  -- An account that is not there is made; the identifier is the one that the database gives.
  sign_up : ℕ → ConnPtr p → Bytes → p.ResultSet → M (Process p) ℕ
  sign_up rounds conn_obj user_id result = do
    user_id_ext ← call p.generate_uuid
    _ ← purge_result p rounds result
    inserted ← send_query p conn_obj (insert_account_sql user_id user_id_ext)
    pure (p.last_insert_id inserted)

  sign_in : ℕ → ReadOne p.ResultSet p.Field → M (Process p) ℕ
  sign_in rounds r = do
    _ ← purge_result p rounds r.after
    field ← or_stop (first_field r.row) Fault.empty_row
    or_throw (p.as_uint64 field) Exn.bad_field_access

  pub find_or_create : ℕ → ConnPtr p → Bytes → ReadOne p.ResultSet p.Field → M (Process p) ℕ
  unfolding sign_up sign_in
  find_or_create rounds conn_obj user_id r = elim r.found [
    | true ↦ sign_in rounds r
    | false ↦ sign_up rounds conn_obj user_id r.after
  ]

  -- The session goes into Redis under its key, with the identifier as its one field.
  store_session : SessionData → M (Process p) (Unit {0})
  store_session session =
      hset_fields p session.session_key ((codes "mbuid", to_string session.mbuid) ∷ [])
        session.expire_sec

  -- The rest of the handler: make a session, store it, and answer with its key.
  pub answer_with_session : Bool → ℕ → ℕ → M (Process p) (Unit {0})
  unfolding store_session
  answer_with_session keep_alive version mbuid = do
    session_data ← create_session p mbuid
    store_session session_data
    send_rsp p keep_alive version (p.serialize (account_reply mbuid session_data.session_key))

  unfoldable pub account_pass : ℕ → Callback p
  unfolding find_or_create answer_with_session
  account_pass rounds header jv keep_alive version session = do
    user_id ← casual_obj_move_at_string p (codes "user_id") jv
    conn_obj ← get_conn p 0
    result ← send_query p conn_obj (select_account_sql user_id)
    r ← read_one p result
    mbuid ← find_or_create rounds conn_obj user_id r
    answer_with_session keep_alive version mbuid

  unfoldable pub control_account_pass : ℕ → Handler p
  unfolding account_pass
  control_account_pass rounds = handle_casual p (account_pass rounds)
