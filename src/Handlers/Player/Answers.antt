-- ===== src/Handlers/Player/Answers.antt =====
-- The player handlers answer once.
use mlnserver_web.Prelude.{
  ℕ, ◌≡◌, refl, Bool, none, some, List, Bytes, codes, Bool-cases, inl, inr, contains, ◌==◌,
}
use mlnserver_web.Outcome.{Exn, Fault, Outcome, ok, raise, fault, handle, continue, pure}
use mlnserver_web.Platform.{Platform, Fields}
use mlnserver_web.Process.{Process, ConnPtr}
use mlnserver_web.Http.Response.{Response}
use mlnserver_web.Http.Answers.{
  SenderReturns, Quiet, Sends, Finishes, continue-Quiet, continue-Sends, or_throw-Quiet,
  or_stop-Quiet,
}
use mlnserver_web.Http.Query.Answers.{send_query-Quiet, read_one-Quiet, purge_result-Quiet}
use mlnserver_web.Http.Template.Answers.{send_rsp-Sends, send_rsp_result-Sends, send_ine-Finishes}
use mlnserver_web.Mysql.Answers.{get_conn-Quiet}
use mlnserver_web.Handlers.Macros.Answers.{
  CallbackSends, casual_obj_move_at_string-Quiet, handle_session-Sends,
}
use mlnserver_web.Handlers.Account.{first_field}
use mlnserver_web.Handlers.Player.{
  player_exists, value_get, control_value_get, on_insert_error, report_insert, value_set,
  control_value_set, player_exists_sql, insert_player_sql,
}

module _ {p : Platform} (sender : SenderReturns p) where
  pub player_exists-Quiet :
      (rounds : ℕ) (conn : ConnPtr p) (my_value : Bytes) (before : List Response) (s : Process p)
      → s.sent ≡ before
      → Quiet before (player_exists p rounds conn my_value s)
  unfolding player_exists
  player_exists-Quiet rounds conn my_value before s h =
      continue-Quiet (send_query-Quiet p conn (player_exists_sql my_value) before s h)
        λ result s₃ h₃. continue-Quiet (read_one-Quiet p result before s₃ h₃) λ r s₄ h₄.
          continue-Quiet (or_stop-Quiet (first_field r.row) Fault.empty_row s₄ h₄) λ field s₅ h₅.
            continue-Quiet (or_throw-Quiet (p.as_int64 field) Exn.bad_field_access s₅ h₅)
              λ exists s₆ h₆.
                continue-Quiet (purge_result-Quiet p rounds r.after before s₆ h₆)
                  λ _ s₇ h₇. record { same = h₇ }

  pub value_get-Sends : (rounds : ℕ) → CallbackSends p (value_get p rounds)
  unfolding value_get
  value_get-Sends rounds header jv keep_alive version session s =
      let before = s.sent in
      continue-Sends (casual_obj_move_at_string-Quiet p (codes "myValue") jv before s refl)
        λ my_value s₁ h₁. continue-Sends (get_conn-Quiet p 0 before s₁ h₁) λ conn s₂ h₂.
          continue-Sends (player_exists-Quiet rounds conn my_value before s₂ h₂)
            λ exists s₃ h₃. send_rsp-Sends sender keep_alive version _ before s₃ h₃

  -- Where handing over a response returns, the handler of /player/value_get hands over exactly one
  -- whenever it returns, and none when it does not.
  pub control_value_get-Sends :
      (rounds : ℕ) (header : Fields) (body : Bytes) (keep_alive : Bool) (version : ℕ)
      (s : Process p)
      → Sends s.sent (control_value_get p rounds header body keep_alive version s)
  unfolding control_value_get
  control_value_get-Sends rounds header body keep_alive version s =
      handle_session-Sends sender (value_get p rounds) (value_get-Sends rounds) header body
        keep_alive version s

  -- The early return adds nothing to the response that was sent.
  done-Sends :
      (keep_alive : Bool) (version : ℕ) (my_value : Bytes) {before : List Response}
      (r : Outcome (Unit {0}) × Process p)
      → Finishes before r
      → Sends before
          (continue (continue r (λ _. pure none)) (report_insert p keep_alive version my_value))
  unfolding report_insert
  done-Sends keep_alive version my_value (ok _, s) h = record { answered = h.finished }
  done-Sends keep_alive version my_value (raise e, s) h = record { answered = h.finished.1 }
  done-Sends keep_alive version my_value (fault f, s) h = record { answered = h.finished }

  -- `none` is left only behind the response to a duplicate.
  inserted-Sends :
      (keep_alive : Bool) (version : ℕ) (my_value : Bytes) (before : List Response)
      (r : Outcome p.ResultSet × Process p)
      → Quiet before r
      → Sends before (
          continue
            (handle
              (continue r (λ result. pure (some result)))
              (on_insert_error p keep_alive version))
            (report_insert p keep_alive version my_value))
  unfolding on_insert_error report_insert
  inserted-Sends keep_alive version my_value before (ok result, s) h =
      elim (Bool-cases (1 == p.affected_rows result)) [
        | inl one ↦ rw one (send_rsp-Sends sender keep_alive version _ before s h.same)
        | inr other ↦ rw other (send_rsp_result-Sends sender keep_alive version _ _ before s h.same)
      ]
  inserted-Sends keep_alive version my_value before (raise (Exn.system_error err info), s) h =
      elim (Bool-cases (contains (p.what err info) (codes "dup_entry"))) [
        | inl duplicate ↦
            rw duplicate (
              done-Sends keep_alive version my_value _ (send_ine-Finishes sender _ before s h.same))
        | inr other ↦ rw other (record { answered = h.same })
      ]
  inserted-Sends keep_alive version my_value before (raise e, s) h = record { answered = h.same }
  inserted-Sends keep_alive version my_value before (fault f, s) h = record { answered = h.same }

  pub value_set-Sends : CallbackSends p (value_set p)
  unfolding value_set
  value_set-Sends header jv keep_alive version session s =
      let before = s.sent in
      continue-Sends (casual_obj_move_at_string-Quiet p (codes "myValue") jv before s refl)
        λ my_value s₁ h₁. continue-Sends (get_conn-Quiet p 0 before s₁ h₁) λ conn s₂ h₂.
          continue-Sends (or_throw-Quiet session Exn.bad_optional_access s₂ h₂)
            λ session_data s₃ h₃.
              inserted-Sends keep_alive version my_value before _ (
                send_query-Quiet p conn (insert_player_sql session_data.mbuid my_value) before s₃
                  h₃)

  -- Where handing over a response returns, the handler of /player/value_set hands over exactly one
  -- whenever it returns, and none when it does not.
  pub control_value_set-Sends :
      (header : Fields) (body : Bytes) (keep_alive : Bool) (version : ℕ) (s : Process p)
      → Sends s.sent (control_value_set p header body keep_alive version s)
  unfolding control_value_set
  control_value_set-Sends header body keep_alive version s =
      handle_session-Sends sender (value_set p) value_set-Sends header body keep_alive version s
