-- ===== src/Handlers/Account/Keeps.antt =====
-- The login keeps every setting that the outer calls keep.
use mlnserver_web.Prelude.{
  ℕ, ◌≡◌, refl, true, none, List, [], ◌∷◌, Bool, Bool-cases, inl, inr, Bytes, codes,
}
use mlnserver_web.Outcome.{Exn, Fault, or_stop}
use mlnserver_web.Outcome.Keeps.{
  Keeps, Keeps-bind, Keeps-bind_to, Keeps-pure, Keeps-or_throw, Keeps-or_stop,
}
use mlnserver_web.Platform.{Platform, Fields, ReadOne}
use mlnserver_web.Process.{ConnPtr, call}
use mlnserver_web.Http.Query.{send_query, read_one, purge_result}
use mlnserver_web.Http.Query.Keeps.{send_query-Keeps, read_one-Given, RoundsFit, purge_result-Keeps}
use mlnserver_web.Http.Template.Keeps.{send_rsp-Keeps}
use mlnserver_web.Mysql.{get_conn}
use mlnserver_web.Mysql.Keeps.{get_conn-usable}
use mlnserver_web.Redis.{hset_fields}
use mlnserver_web.Redis.Keeps.{hset_fields-Keeps}
use mlnserver_web.Session.{create_session, gen_session_key}
use mlnserver_web.Handlers.Macros.{casual_obj_move_at_string}
use mlnserver_web.Handlers.Macros.Keeps.{
  casual_obj_move_at_string-Keeps, CallbackKeeps, handle_casual-Keeps,
}
use mlnserver_web.Handlers.Account.{
  sign_up, sign_in, find_or_create, answer_with_session, account_pass, control_account_pass,
  select_account_sql, insert_account_sql, first_field,
}
use mlnserver_web.Outer.{null_pointer, Setting, Given, Calls, Queries, Outer, Keeps-call}

module _ {p : Platform} {W : Setting p} (calls : Calls p W) where
  pub answer_with_session-Keeps :
      (keep_alive : Bool) (version mbuid : ℕ) (served : W.served keep_alive version)
      → Keeps (Outer p W) (answer_with_session p keep_alive version mbuid)
  unfolding answer_with_session create_session
  answer_with_session-Keeps keep_alive version mbuid served = record {
    at = λ s h.
        (Keeps-bind {P = Outer p W} (hset_fields p (gen_session_key mbuid) _ s.session_expire_sec) _
            (hset_fields-Keeps calls mbuid s.session_expire_sec)
            λ _. send_rsp-Keeps calls keep_alive version served _).at
          s h;
  }

pub first_field-none : {A : Type 0} (l : List A) → first_field l ≡ none → l ≡ []
first_field-none [] h = refl
first_field-none (x ∷ l) h = cc

module _ {p : Platform} {W : Setting p} (outer : Queries p W) where
  sign_up-Keeps :
      (rounds : ℕ) (fit : RoundsFit W rounds) (conn : ConnPtr p) (usable : W.usable conn)
      (user_id : Bytes) (result : p.ResultSet)
      → Keeps (Outer p W) (sign_up p rounds conn user_id result)
  unfolding sign_up
  sign_up-Keeps rounds fit conn usable user_id result =
      Keeps-bind (call p.generate_uuid) _
        (Keeps-call W p.generate_uuid outer.calls.keeps.generate_uuid_keeps
          outer.calls.allows.calls_stop.generate_uuid_stops)
        λ ext.
          Keeps-bind (purge_result p rounds result) _
            (purge_result-Keeps outer.calls rounds fit result)
            λ _.
              Keeps-bind (send_query p conn (insert_account_sql user_id ext)) _
                (send_query-Keeps W conn (insert_account_sql user_id ext)
                  (null_pointer outer.calls.allows conn usable)
                  (λ c. outer.query_keeps c (insert_account_sql user_id ext)))
                λ inserted. Keeps-pure _

  sign_in-Keeps :
      (rounds : ℕ) (fit : RoundsFit W rounds) (r : ReadOne p.ResultSet p.Field)
      → (r.row ≡ [] → W.may Fault.empty_row)
      → Keeps (Outer p W) (sign_in p rounds r)
  unfolding sign_in
  sign_in-Keeps rounds fit r empty =
      Keeps-bind (purge_result p rounds r.after) _
        (purge_result-Keeps outer.calls rounds fit r.after)
        λ _.
          Keeps-bind (or_stop (first_field r.row) Fault.empty_row) _
            (Keeps-or_stop (first_field r.row) Fault.empty_row
              (λ none_first. empty (first_field-none r.row none_first)))
            λ field. Keeps-or_throw (p.as_uint64 field) Exn.bad_field_access

  find_or_create-Keeps :
      (rounds : ℕ) (fit : RoundsFit W rounds) (conn : ConnPtr p) (usable : W.usable conn)
      (user_id : Bytes) (r : ReadOne p.ResultSet p.Field)
      → (r.found ≡ true → r.row ≡ [] → W.may Fault.empty_row)
      → Keeps (Outer p W) (find_or_create p rounds conn user_id r)
  unfolding find_or_create
  find_or_create-Keeps rounds fit conn usable user_id r empty = elim (Bool-cases r.found) [
    | inl there ↦ rw (there, find_or_create) (sign_in-Keeps rounds fit r (empty there))
    | inr missing ↦
        rw (missing, find_or_create) (sign_up-Keeps rounds fit conn usable user_id r.after)
  ]

  account_pass-Keeps :
      (rounds : ℕ) → RoundsFit W rounds → CallbackKeeps outer.calls (account_pass p rounds)
  unfolding account_pass
  account_pass-Keeps rounds fit header jv keep_alive version served session =
      Keeps-bind (casual_obj_move_at_string p (codes "user_id") jv) _
        (casual_obj_move_at_string-Keeps outer.calls (codes "user_id") jv)
        λ user_id.
          Keeps-bind_to W.usable (get_conn p 0) _ (get_conn-usable outer.calls) λ conn usable.
            Keeps-bind (send_query p conn (select_account_sql user_id)) _
              (send_query-Keeps W conn (select_account_sql user_id)
                (null_pointer outer.calls.allows conn usable)
                (λ c. outer.query_keeps c (select_account_sql user_id)))
              λ result.
                Keeps-bind_to (Given W (p.read_one result)) (read_one p result) _
                  (read_one-Given outer.calls result)
                  λ r given.
                    Keeps-bind (find_or_create p rounds conn user_id r) _
                      (find_or_create-Keeps rounds fit conn usable user_id r
                        (outer.calls.allows.found_row result r given))
                      λ mbuid. answer_with_session-Keeps outer.calls keep_alive version mbuid served

  pub control_account_pass-Keeps :
      (rounds : ℕ) (fit : RoundsFit W rounds) (header : Fields) (body : Bytes) (keep_alive : Bool)
      (version : ℕ) (served : W.served keep_alive version)
      → Keeps (Outer p W) (control_account_pass p rounds header body keep_alive version)
  unfolding control_account_pass
  control_account_pass-Keeps rounds fit header body keep_alive version served =
      handle_casual-Keeps outer.calls (account_pass p rounds) (account_pass-Keeps rounds fit) header
        body keep_alive version served
