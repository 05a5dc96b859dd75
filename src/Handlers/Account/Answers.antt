-- ===== src/Handlers/Account/Answers.antt =====
-- The login handler answers once.
use mlnserver_web.Prelude.{ℕ, ◌≡◌, refl, Bool, List, Bytes, codes, Bool-cases, inl, inr}
use mlnserver_web.Outcome.{Exn, Fault}
use mlnserver_web.Platform.{Platform, Fields, ReadOne}
use mlnserver_web.Process.{Process, ConnPtr}
use mlnserver_web.Http.Response.{Response}
use mlnserver_web.Http.Answers.{
  SenderReturns, Quiet, Sends, Finishes, continue-Quiet, continue-Sends, or_throw-Quiet, call-Quiet,
  or_stop-Quiet,
}
use mlnserver_web.Http.Query.Answers.{send_query-Quiet, read_one-Quiet, purge_result-Quiet}
use mlnserver_web.Http.Template.Answers.{send_rsp-Sends}
use mlnserver_web.Mysql.Answers.{get_conn-Quiet}
use mlnserver_web.Redis.Answers.{hset_fields-Quiet}
use mlnserver_web.Session.{SessionData}
use mlnserver_web.Session.Answers.{create_session-Quiet}
use mlnserver_web.Handlers.Macros.Answers.{
  CallbackSends, casual_obj_move_at_string-Quiet, handle_casual-Finishes,
}
use mlnserver_web.Handlers.Account.{
  sign_up, sign_in, find_or_create, store_session, answer_with_session, account_pass,
  control_account_pass, first_field, select_account_sql, insert_account_sql,
}

module _ (p : Platform) where
  sign_up-Quiet :
      (rounds : ℕ) (conn : ConnPtr p) (user_id : Bytes) (result : p.ResultSet)
      (before : List Response) (s : Process p)
      → s.sent ≡ before
      → Quiet before (sign_up p rounds conn user_id result s)
  unfolding sign_up
  sign_up-Quiet rounds conn user_id result before s h =
      continue-Quiet (call-Quiet p.generate_uuid s h) λ ext s₁ h₁.
        continue-Quiet (purge_result-Quiet p rounds result before s₁ h₁) λ _ s₂ h₂.
          continue-Quiet (send_query-Quiet p conn (insert_account_sql user_id ext) before s₂ h₂)
            λ _ s₃ h₃. record { same = h₃ }

  sign_in-Quiet :
      (rounds : ℕ) (r : ReadOne p.ResultSet p.Field) (before : List Response) (s : Process p)
      → s.sent ≡ before
      → Quiet before (sign_in p rounds r s)
  unfolding sign_in
  sign_in-Quiet rounds r before s h =
      continue-Quiet (purge_result-Quiet p rounds r.after before s h) λ _ s₁ h₁.
        continue-Quiet (or_stop-Quiet (first_field r.row) Fault.empty_row s₁ h₁)
          λ field s₂ h₂. or_throw-Quiet (p.as_uint64 field) Exn.bad_field_access s₂ h₂

  pub find_or_create-Quiet :
      (rounds : ℕ) (conn : ConnPtr p) (user_id : Bytes) (r : ReadOne p.ResultSet p.Field)
      (before : List Response) (s : Process p)
      → s.sent ≡ before
      → Quiet before (find_or_create p rounds conn user_id r s)
  unfolding find_or_create
  find_or_create-Quiet rounds conn user_id r before s h = elim (Bool-cases r.found) [
    | inl there ↦ rw (there, find_or_create) (sign_in-Quiet rounds r before s h)
    | inr missing ↦
        rw (missing, find_or_create) (sign_up-Quiet rounds conn user_id r.after before s h)
  ]

  store_session-Quiet :
      (session : SessionData) (before : List Response) (s : Process p)
      → s.sent ≡ before
      → Quiet before (store_session p session s)
  unfolding store_session
  store_session-Quiet session before s h = hset_fields-Quiet p _ _ _ before s h

module _ {p : Platform} (sender : SenderReturns p) where
  answer_with_session-Sends :
      (keep_alive : Bool) (version mbuid : ℕ) (before : List Response) (s : Process p)
      → s.sent ≡ before
      → Sends before (answer_with_session p keep_alive version mbuid s)
  unfolding answer_with_session
  answer_with_session-Sends keep_alive version mbuid before s h =
      continue-Sends (create_session-Quiet p mbuid before s h) λ session_data s₁ h₁.
        continue-Sends (store_session-Quiet p session_data before s₁ h₁)
          λ _ s₂ h₂. send_rsp-Sends sender keep_alive version _ before s₂ h₂

  account_pass-Sends : (rounds : ℕ) → CallbackSends p (account_pass p rounds)
  unfolding account_pass
  account_pass-Sends rounds header jv keep_alive version session s =
      let before = s.sent in
      continue-Sends (casual_obj_move_at_string-Quiet p (codes "user_id") jv before s refl)
        λ user_id s₁ h₁. continue-Sends (get_conn-Quiet p 0 before s₁ h₁) λ conn s₂ h₂.
          continue-Sends (send_query-Quiet p conn (select_account_sql user_id) before s₂ h₂)
            λ result s₃ h₃. continue-Sends (read_one-Quiet p result before s₃ h₃) λ r s₄ h₄.
              continue-Sends (find_or_create-Quiet p rounds conn user_id r before s₄ h₄)
                λ mbuid s₅ h₅. answer_with_session-Sends keep_alive version mbuid before s₅ h₅

  -- Where handing over a response returns, the login handler hands over exactly one whenever it
  -- returns. It fails to return by a foreign exception or a fault alone, and then it has sent
  -- nothing.
  pub control_account_pass-Finishes :
      (rounds : ℕ) (header : Fields) (body : Bytes) (keep_alive : Bool) (version : ℕ)
      (s : Process p)
      → Finishes s.sent (control_account_pass p rounds header body keep_alive version s)
  unfolding control_account_pass
  control_account_pass-Finishes rounds header body keep_alive version s =
      handle_casual-Finishes sender (account_pass p rounds) (account_pass-Sends rounds) header body
        keep_alive version s
