-- ===== src/Handlers/Player/Keeps.antt =====
-- The player handlers keep every setting that the outer calls keep.
use mlnserver_web.Prelude.{
  ℕ, Bool, Bool-cases, inl, inr, Option, none, some, Bytes, codes, contains, ◌==◌,
}
use mlnserver_web.Outcome.{Exn, Fault, pure, ◌>>=◌, or_throw, or_stop}
use mlnserver_web.Outcome.Keeps.{
  Keeps, Keeps-bind, Keeps-bind_to, Keeps-pure, Keeps-throw, Keeps-or_throw, Keeps-or_stop,
  Keeps-catching,
}
use mlnserver_web.Platform.{Platform, Fields}
use mlnserver_web.Process.{ConnPtr}
use mlnserver_web.Http.Query.{send_query, read_one, purge_result}
use mlnserver_web.Http.Query.Keeps.{
  send_query-Asked, send_query-Keeps, read_one-Given, RoundsFit, purge_result-Keeps,
}
use mlnserver_web.Http.Template.{send_ine}
use mlnserver_web.Http.Template.Keeps.{send_ine-Keeps, send_rsp-Keeps, send_rsp_result-Keeps}
use mlnserver_web.Mysql.{get_conn}
use mlnserver_web.Mysql.Keeps.{get_conn-usable}
use mlnserver_web.Handlers.Macros.{casual_obj_move_at_string}
use mlnserver_web.Handlers.Macros.Keeps.{
  casual_obj_move_at_string-Keeps, CallbackKeeps, handle_session-Keeps,
}
use mlnserver_web.Handlers.Account.{first_field}
use mlnserver_web.Handlers.Account.Keeps.{first_field-none}
use mlnserver_web.Handlers.Player.{
  player_exists, value_get, control_value_get, on_insert_error, report_insert, value_set,
  control_value_set, player_exists_sql, insert_player_sql,
}
use mlnserver_web.Outer.{null_pointer, Setting, Given, Asked, Queries, Outer}

module _ {p : Platform} {W : Setting p} (outer : Queries p W) where
  player_exists-Keeps :
      (rounds : ℕ)
      → RoundsFit W rounds
      → (conn : ConnPtr p) → W.usable conn
      → (my_value : Bytes) → Keeps (Outer p W) (player_exists p rounds conn my_value)
  unfolding player_exists
  player_exists-Keeps rounds fit conn usable my_value =
      Keeps-bind_to (Asked W (player_exists_sql my_value))
        (send_query p conn (player_exists_sql my_value)) _
        (send_query-Asked W conn (player_exists_sql my_value)
          (null_pointer outer.calls.allows conn usable)
          (λ c. outer.query_keeps c (player_exists_sql my_value)))
        λ result asked.
          Keeps-bind_to (Given W (p.read_one result)) (read_one p result) _
            (read_one-Given outer.calls result)
            λ r given.
              Keeps-bind (or_stop (first_field r.row) Fault.empty_row) _
                (Keeps-or_stop (first_field r.row) Fault.empty_row λ none_first.
                  outer.calls.allows.exists_row my_value result r asked given
                    (first_field-none r.row none_first))
                λ field.
                  Keeps-bind (or_throw (p.as_int64 field) Exn.bad_field_access) _
                    (Keeps-or_throw (p.as_int64 field) Exn.bad_field_access)
                    λ exists.
                      Keeps-bind (purge_result p rounds r.after) _
                        (purge_result-Keeps outer.calls rounds fit r.after) λ _. Keeps-pure exists

  value_get-Keeps :
      (rounds : ℕ) → RoundsFit W rounds → CallbackKeeps outer.calls (value_get p rounds)
  unfolding value_get
  value_get-Keeps rounds fit header jv keep_alive version served session =
      Keeps-bind (casual_obj_move_at_string p (codes "myValue") jv) _
        (casual_obj_move_at_string-Keeps outer.calls (codes "myValue") jv)
        λ my_value.
          Keeps-bind_to W.usable (get_conn p 0) _ (get_conn-usable outer.calls) λ conn usable.
            Keeps-bind (player_exists p rounds conn my_value) _
              (player_exists-Keeps rounds fit conn usable my_value)
              λ exists. send_rsp-Keeps outer.calls keep_alive version served _

  pub control_value_get-Keeps :
      (rounds : ℕ) (fit : RoundsFit W rounds) (header : Fields) (body : Bytes) (keep_alive : Bool)
      (version : ℕ) (served : W.served keep_alive version)
      → Keeps (Outer p W) (control_value_get p rounds header body keep_alive version)
  unfolding control_value_get
  control_value_get-Keeps rounds fit header body keep_alive version served =
      handle_session-Keeps outer.calls (value_get p rounds) (value_get-Keeps rounds fit) header body
        keep_alive version served

  on_insert_error-Keeps :
      (keep_alive : Bool) (version : ℕ) (served : W.served keep_alive version) (e : Exn)
      → Keeps (Outer p W) (on_insert_error p keep_alive version e)
  unfolding on_insert_error
  on_insert_error-Keeps keep_alive version served (Exn.system_error err info) =
      elim (Bool-cases (contains (p.what err info) (codes "dup_entry"))) [
        | inl taken ↦ rw taken (
            Keeps-bind (send_ine p _) _
              (send_ine-Keeps outer.calls _
                (outer.calls.allows.server_error_logged keep_alive version served _))
              λ _. Keeps-pure none)
        | inr other ↦ rw other (Keeps-throw (Exn.system_error err info))
      ]
  on_insert_error-Keeps keep_alive version served e = Keeps-throw e

  report_insert-Keeps :
      (keep_alive : Bool) (version : ℕ) (served : W.served keep_alive version) (my_value : Bytes)
      (o : Option p.ResultSet)
      → Keeps (Outer p W) (report_insert p keep_alive version my_value o)
  unfolding report_insert
  report_insert-Keeps keep_alive version served my_value none = Keeps-pure tt
  report_insert-Keeps keep_alive version served my_value (some r) =
      elim (Bool-cases (1 == p.affected_rows r)) [
        | inl one ↦ rw one (send_rsp-Keeps outer.calls keep_alive version served _)
        | inr other ↦ rw other (send_rsp_result-Keeps outer.calls keep_alive version served _ _)
      ]

  value_set-Keeps : CallbackKeeps outer.calls (value_set p)
  unfolding value_set
  value_set-Keeps header jv keep_alive version served session =
      Keeps-bind (casual_obj_move_at_string p (codes "myValue") jv) _
        (casual_obj_move_at_string-Keeps outer.calls (codes "myValue") jv)
        λ my_value.
          Keeps-bind_to W.usable (get_conn p 0) _ (get_conn-usable outer.calls) λ conn usable.
            Keeps-bind (or_throw session Exn.bad_optional_access) _
              (Keeps-or_throw session Exn.bad_optional_access)
              λ d.
                Keeps-bind _ (report_insert p keep_alive version my_value)
                  (Keeps-catching
                    (send_query p conn (insert_player_sql d.mbuid my_value) >>= λ r. pure (some r))
                    (on_insert_error p keep_alive version)
                    (Keeps-bind (send_query p conn (insert_player_sql d.mbuid my_value)) _
                      (send_query-Keeps W conn (insert_player_sql d.mbuid my_value)
                        (null_pointer outer.calls.allows conn usable)
                        (λ c. outer.query_keeps c (insert_player_sql d.mbuid my_value)))
                      λ r. Keeps-pure (some r))
                    (on_insert_error-Keeps keep_alive version served))
                  (report_insert-Keeps keep_alive version served my_value)

  pub control_value_set-Keeps :
      (header : Fields) (body : Bytes) (keep_alive : Bool) (version : ℕ)
      (served : W.served keep_alive version)
      → Keeps (Outer p W) (control_value_set p header body keep_alive version)
  unfolding control_value_set
  control_value_set-Keeps header body keep_alive version served =
      handle_session-Keeps outer.calls (value_set p) value_set-Keeps header body keep_alive version
        served
