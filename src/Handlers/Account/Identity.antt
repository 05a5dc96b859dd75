-- ===== src/Handlers/Account/Identity.antt =====
-- Whose identifier a login answers with: that of the account of the user, which it makes if there is
-- none.
pub mod Again
use mlnserver_web.Prelude.{
  ℕ, ◌≡◌, ◌≢◌, refl, ◌∙◌, ap, sym, Bool, true, false, ◌⊎◌, inl, inr, Option, none, some, List, ◌∷◌,
  All, Bytes, codes,
}
use mathlib.Core.Path.{subst}
use mlnserver_web.Outcome.{
  Outcome, ok, raise, fault, M, ◌>>=◌, continue, continue-eq-ok, ok-injective,
}
use mlnserver_web.Platform.{Platform, Fields, ReadOne}
use mlnserver_web.Process.{Process, ConnPtr, call}
use mlnserver_web.Http.Response.{Response}
use mlnserver_web.Http.Build.{get_rsponse}
use mlnserver_web.Http.Answers.{Quiet, call-Quiet}
use mlnserver_web.Http.Query.{send_query, read_one, purge_result}
use mlnserver_web.Http.Query.Answers.{send_query-Quiet, read_one-Quiet, purge_result-Quiet}
use mlnserver_web.Http.Query.Returned.{send_query-Returned, read_one-Returned}
use mlnserver_web.Http.Query.Keeps.{read_one-Keeps, purge_result-Keeps}
use mlnserver_web.Mysql.{get_conn}
use mlnserver_web.Mysql.Answers.{get_conn-Quiet}
use mlnserver_web.Mysql.Keeps.{get_conn-Keeps}
use mlnserver_web.Session.{SessionData, gen_session_key}
use mlnserver_web.Handlers.Macros.{named, casual_obj_move_at_string}
use mlnserver_web.Handlers.Account.{
  select_account_sql, insert_account_sql, sign_up, sign_in, find_or_create, answer_with_session,
  account_pass, account_reply,
}
use mlnserver_web.Handlers.Account.Keeps.{answer_with_session-Keeps}
use mlnserver_web.Handlers.Account.Ending.{answer_with_session-sent}
use mlnserver_web.Outer.{CallKeeps}
use mlnserver_web.Outer.AnyFault.{any_fault-Calls, kept_by}
use mlnserver_web.Handlers.Account.Database.{
  IsPlain, Tells, AccountLaws, Alone, AccountIs, others_keep, inserted-account, selected-account,
}
use mlnserver_web.Http.Answers.{continue-eq-ok_kept}

module _ {p : Platform} (db : AccountLaws p) where
  -- The call has sent nothing, and the account is as given behind it.
  abbrev Leaves : Bytes → Option ℕ → List Response → Process p → Type 0
  Leaves user_id o before t = (t.sent ≡ before) × AccountIs db user_id o t

  left_at :
      (user_id : Bytes) (n m : ℕ) (before : List Response) (s t : Process p)
      → Leaves user_id (some n) before s
      → ◌≡◌ {A = Outcome ℕ × Process p} (ok n, s) (ok m, t)
      → Leaves user_id (some m) before t
  left_at user_id n m before s t k h =
      subst (λ x. Leaves user_id (some x) before t) (ok-injective (ap (λ r. r.0) h))
        (subst (Leaves user_id (some n) before) (ap (λ r. r.1) h) k)

  sign_in-account :
      (user_id : Bytes) (rounds n : ℕ) (r : ReadOne p.ResultSet p.Field) (s t : Process p) (m : ℕ)
      → Tells p (some n) r
      → AccountIs db user_id (some n) s
      → sign_in p rounds r s ≡ (ok m, t)
      → (n ≡ m) × Leaves user_id (some m) s.sent t
  unfolding sign_in
  sign_in-account user_id rounds n r s t m (found, field, rest, row, number) k h =
      let calls = db.accounts_stay user_id n in
      let (_, s₁, _, q₁, k₁, h₁) =
        continue-eq-ok_kept {P = AccountIs db user_id (some n)} (purge_result p rounds r.after s) _
          (purge_result-Quiet p rounds r.after s.sent s refl)
          (kept_by (λ e. db.account e user_id ≡ some n)
            (purge_result-Keeps (any_fault-Calls calls) rounds (inl tt) r.after) s k)
          h in
      let h₂ : ◌≡◌ {A = Outcome ℕ × Process p} (ok n, s₁) (ok m, t) = rw (row, number) at h₁ in
      (ok-injective (ap (λ r. r.0) h₂), left_at user_id n m s.sent s₁ t (q₁, k₁) h₂)

  sign_up-account :
      (user_id : Bytes) (rounds : ℕ) (conn : ConnPtr p) (result : p.ResultSet) (s t : Process p)
      (m : ℕ)
      → Alone db user_id
      → IsPlain user_id
      → AccountIs db user_id none s
      → sign_up p rounds conn user_id result s ≡ (ok m, t)
      → Leaves user_id (some m) s.sent t
  unfolding sign_up
  sign_up-account user_id rounds conn result s t m alone plain k h =
      let calls = alone.calls in
      let (ext, s₁, e₁, q₁, k₁, h₁) =
        continue-eq-ok_kept {P = AccountIs db user_id none} (call p.generate_uuid s) _
          (call-Quiet p.generate_uuid s refl) (calls.generate_uuid_keeps s.ext k.0, k.1) h in
      let (_, s₂, _, q₂, k₂, h₂) =
        continue-eq-ok_kept {P = AccountIs db user_id none} (purge_result p rounds result s₁) _
          (purge_result-Quiet p rounds result s.sent s₁ q₁)
          (kept_by (λ e. db.account e user_id ≡ none)
            (purge_result-Keeps (any_fault-Calls calls) rounds (inl tt) result) s₁ k₁)
          h₁ in
      let (inserted, s₃, e₃, q₃, _, h₃) =
        continue-eq-ok_kept {P = λ _. Unit {0}}
          (send_query p conn (insert_account_sql user_id ext) s₂) _
          (send_query-Quiet p conn (insert_account_sql user_id ext) s.sent s₂ q₂) tt h₂ in
      let (made, is_open) =
        inserted-account db user_id ext conn s₂ s₃ inserted alone plain
          (db.uuid_plain ext s.ext (ap (λ r. r.0) e₁)) k₂ e₃ in
      left_at user_id (p.last_insert_id inserted) m s.sent s₃ t (q₃, (made, is_open)) h₃

  find_or_create-account :
      (user_id : Bytes) (rounds : ℕ) (conn : ConnPtr p) (o : Option ℕ)
      (r : ReadOne p.ResultSet p.Field) (s t : Process p) (m : ℕ)
      → (o ≡ none → Alone db user_id)
      → IsPlain user_id
      → Tells p o r
      → AccountIs db user_id o s
      → find_or_create p rounds conn user_id r s ≡ (ok m, t)
      → Leaves user_id (some m) s.sent t × ((o ≡ none) ⊎ (o ≡ some m))
  unfolding find_or_create
  find_or_create-account user_id rounds conn none r s t m alone plain told k h = (
    sign_up-account user_id rounds conn r.after s t m (alone refl) plain k
        (rw (told, find_or_create) at h),
    inl refl,
  )
  find_or_create-account user_id rounds conn (some n) r s t m alone plain told k h =
      let (same, left) =
        sign_in-account user_id rounds n r s t m told k (rw (told.0, find_or_create) at h) in
      (left, inr (ap some same))

  answered-account :
      (user_id : Bytes) (keep_alive : Bool) (version mbuid : ℕ) (before : List Response)
      (s t : Process p)
      → Leaves user_id (some mbuid) before s
      → answer_with_session p keep_alive version mbuid s ≡ (ok tt, t)
      → (t.sent
          ≡ get_rsponse p
              (p.serialize (account_reply mbuid (gen_session_key mbuid)))
              keep_alive
              version
              (codes "0")
            ∷ before)
        × (db.account t.ext user_id ≡ some mbuid)
  answered-account user_id keep_alive version mbuid before s t (q, k) h =
      let sent = answer_with_session-sent keep_alive version mbuid before s t q h in
      let calls = db.accounts_stay user_id mbuid in
      let left =
        kept_by (λ e. db.account e user_id ≡ some mbuid)
          (answer_with_session-Keeps (any_fault-Calls calls) keep_alive version mbuid tt) s k in
      (sent, subst (λ u. db.account u.ext user_id ≡ some mbuid) (ap (λ r. r.1) h) left.0)

  -- What follows the reading of the parameter.
  looked_up-account :
      (rounds : ℕ) (keep_alive : Bool) (version : ℕ) (user_id : Bytes) (o : Option ℕ)
      (s t : Process p)
      → (o ≡ none → Alone db user_id)
      → IsPlain user_id
      → AccountIs db user_id o s
      → continue (get_conn p 0 s) (λ conn.
        send_query p conn (select_account_sql user_id) >>= λ result.
        (read_one p result >>= λ r.
        (find_or_create p rounds conn user_id r >>= λ mbuid.
        answer_with_session p keep_alive version mbuid)))
        ≡ (ok tt, t)
      → (mbuid : ℕ) × (t.sent
          ≡ get_rsponse p
              (p.serialize (account_reply mbuid (gen_session_key mbuid)))
              keep_alive
              version
              (codes "0")
            ∷ s.sent)
        × (db.account t.ext user_id ≡ some mbuid)
        × ((o ≡ none) ⊎ (o ≡ some mbuid))
  looked_up-account rounds keep_alive version user_id o s t alone plain k h =
      let calls = others_keep db user_id o alone in
      let (conn, s₁, _, q₁, k₁, h₁) =
        continue-eq-ok_kept {P = AccountIs db user_id o} (get_conn p 0 s) _
          (get_conn-Quiet p 0 s.sent s refl)
          (kept_by (λ e. db.account e user_id ≡ o) (get_conn-Keeps (any_fault-Calls calls)) s k)
          h in
      let (result, s₂, e₂, q₂, _, h₂) =
        continue-eq-ok_kept {P = λ _. Unit {0}} (send_query p conn (select_account_sql user_id) s₁)
          _ (send_query-Quiet p conn (select_account_sql user_id) s.sent s₁ q₁) tt h₁ in
      let (k₂, tells) = selected-account db user_id conn o s₁ s₂ result alone plain k₁ e₂ in
      let (r, s₃, e₃, q₃, k₃, h₃) =
        continue-eq-ok_kept {P = AccountIs db user_id o} (read_one p result s₂) _
          (read_one-Quiet p result s.sent s₂ q₂)
          (kept_by (λ e. db.account e user_id ≡ o) (read_one-Keeps (any_fault-Calls calls) result)
            s₂ k₂)
          h₂ in
      let ret = read_one-Returned result s₂ s₃ r e₃ in
      let told = subst (Tells p o) ret.result_same (tells s₂.ext ret.no_error) in
      let (mbuid, s₄, e₄, h₄) = continue-eq-ok (find_or_create p rounds conn user_id r s₃) _ h₃ in
      let ((q₄, k₄), before) =
        find_or_create-account user_id rounds conn o r s₃ s₄ mbuid alone plain told k₃ e₄ in
      let (sent, made) =
        answered-account user_id keep_alive version mbuid s.sent s₄ t (q₄ ∙ q₃, k₄) h₄ in
      (mbuid, sent, made, before)

  -- For a user_id without a quote or a backslash, where the Redis client is open, under the laws of
  -- MySQL, and if no other handler makes the account of the user meanwhile, should there be none:
  -- whenever the callback of the login returns, the one response that it has
  -- sent names the identifier of the user's account. The user has this account afterwards; before,
  -- the user had it or had none.
  pub account_pass-account :
      (rounds : ℕ) (header : Fields) (jv : p.Json) (keep_alive : Bool) (version : ℕ)
      (session : Option SessionData) (user_id : Bytes) (s t : Process p)
      → (db.account s.ext user_id ≡ none → Alone db user_id)
      → IsPlain user_id
      → p.string_at jv (codes "user_id") ≡ ok user_id
      → s.redis_open ≡ true
      → account_pass p rounds header jv keep_alive version session s ≡ (ok tt, t)
      → (mbuid : ℕ) × (t.sent
          ≡ get_rsponse p
              (p.serialize (account_reply mbuid (gen_session_key mbuid)))
              keep_alive
              version
              (codes "0")
            ∷ s.sent)
        × (db.account t.ext user_id ≡ some mbuid)
        × ((db.account s.ext user_id ≡ none) ⊎ (db.account s.ext user_id ≡ some mbuid))
  unfolding account_pass casual_obj_move_at_string
  account_pass-account rounds header jv keep_alive version session user_id s t alone plain value
        is_open h =
      looked_up-account rounds keep_alive version user_id (db.account s.ext user_id)
        (named p (codes "user_id") s) t alone plain (refl, is_open) (rw (value, continue) at h)
