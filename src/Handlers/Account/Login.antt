-- ===== src/Handlers/Account/Login.antt =====
-- What a login that returned has established: the session that it answers with is in Redis, and the
-- session check accepts it.
use mlnserver_web.Prelude.{
  ℕ, ◌<◌, ◌≡◌, refl, ap, Bool-cases, inl, inr, Bool, true, Option, some, List, ◌∷◌, Bytes, codes,
}
use mathlib.Core.Path.{subst}
use mlnserver_web.Outcome.{
  Exn, Fault, Outcome, ok, raise, fault, continue, continue-eq-ok, or_throw-eq-ok, ok-injective,
  or_stop,
}
use mlnserver_web.Platform.{Platform, Fields, ReadOne}
use mlnserver_web.Process.{Process, ConnPtr, call}
use mlnserver_web.Number.{u64_mod}
use mlnserver_web.Http.Response.{Response}
use mlnserver_web.Http.Build.{get_rsponse}
use mlnserver_web.Http.Answers.{Quiet, continue-eq-ok_Quiet}
use mlnserver_web.Http.Query.{send_query, purge_result}
use mlnserver_web.Http.Query.Answers.{send_query-Quiet, read_one-Quiet}
use mlnserver_web.Mysql.Answers.{get_conn-Quiet}
use mlnserver_web.Redis.Laws.{RedisLaws}
use mlnserver_web.Session.{SessionData, gen_session_key, is_valid_session}
use mlnserver_web.Session.Changes.{OnlyStores, Stored}
use mlnserver_web.Session.Frame.{HashFrame}
use mlnserver_web.Session.Laws.{session_of, is_valid_session_of_stored}
use mlnserver_web.Handlers.Macros.Answers.{casual_obj_move_at_string-Quiet}
use mlnserver_web.Handlers.Account.Answers.{find_or_create-Quiet}
use mlnserver_web.Handlers.Account.Ending.{answer_with_session-sent, answer_with_session-Stored}
use mlnserver_web.Handlers.Account.{
  find_or_create, sign_in, sign_up, answer_with_session, account_pass, account_reply,
  select_account_sql, insert_account_sql, first_field,
}

-- The identifiers that the database hands out are 64-bit.
pub record DatabaseRange (p : Platform) : Type 0 where
  pub last_insert_id_range : (r : p.ResultSet) → p.last_insert_id r < u64_mod
  pub as_uint64_range : (field : p.Field) (n : ℕ) → p.as_uint64 field ≡ some n → n < u64_mod

module _ {p : Platform} (range : DatabaseRange p) where
  sign_in-range :
      (rounds : ℕ) (r : ReadOne p.ResultSet p.Field) (s t : Process p) {n : ℕ}
      → sign_in p rounds r s ≡ (ok n, t)
      → n < u64_mod
  unfolding sign_in
  sign_in-range rounds r s t {n} h =
      let (_, s₁, _, h₁) = continue-eq-ok (purge_result p rounds r.after s) _ h in
      let (field, s₂, _, h₂) =
        continue-eq-ok (or_stop (first_field r.row) Fault.empty_row s₁) _ h₁ in
      range.as_uint64_range field n
        (or_throw-eq-ok (p.as_uint64 field) Exn.bad_field_access s₂ t h₂)

  sign_up-range :
      (rounds : ℕ) (conn : ConnPtr p) (user_id : Bytes) (result : p.ResultSet) (s t : Process p)
      {n : ℕ}
      → sign_up p rounds conn user_id result s ≡ (ok n, t)
      → n < u64_mod
  unfolding sign_up
  sign_up-range rounds conn user_id result s t h =
      let (ext, s₁, _, h₁) = continue-eq-ok (call p.generate_uuid s) _ h in
      let (_, s₂, _, h₂) = continue-eq-ok (purge_result p rounds result s₁) _ h₁ in
      let (inserted, _, _, h₃) =
        continue-eq-ok (send_query p conn (insert_account_sql user_id ext) s₂) _ h₂ in
      subst (λ m. m < u64_mod) (ok-injective (ap (λ r. r.0) h₃))
        (range.last_insert_id_range inserted)

  find_or_create-range :
      (rounds : ℕ) (conn : ConnPtr p) (user_id : Bytes) (r : ReadOne p.ResultSet p.Field)
      (s t : Process p) {n : ℕ}
      → find_or_create p rounds conn user_id r s ≡ (ok n, t)
      → n < u64_mod
  unfolding find_or_create
  find_or_create-range rounds conn user_id r s t h = elim (Bool-cases r.found) [
    | inl there ↦ sign_in-range rounds r s t (rw (there, find_or_create) at h)
    | inr missing ↦
        sign_up-range rounds conn user_id r.after s t (rw (missing, find_or_create) at h)
  ]

  granted :
      (laws : RedisLaws p) (frame : HashFrame p laws.hash OnlyStores) (keep_alive : Bool)
      (version : ℕ) (before : List Response) (r : Outcome ℕ × Process p) (t : Process p)
      → Quiet before r
      → ((n : ℕ) (s : Process p) → r ≡ (ok n, s) → n < u64_mod)
      → continue r (answer_with_session p keep_alive version) ≡ (ok tt, t)
      → (mbuid : ℕ) × (mbuid < u64_mod)
        × (t.sent
            ≡ get_rsponse p
                (p.serialize (account_reply mbuid (gen_session_key mbuid)))
                keep_alive
                version
                (codes "0")
              ∷ before)
        × (t.redis_open ≡ true)
        × Stored mbuid (laws.hash t.ext)
  granted laws frame keep_alive version before (ok mbuid, s) t quiet small h =
      let fits = small mbuid s refl in
      let sent = answer_with_session-sent keep_alive version mbuid before s t quiet.same h in
      let (is_open, stored) =
        answer_with_session-Stored laws frame keep_alive version mbuid s t h in
      (mbuid, fits, sent, is_open, stored)
  granted laws frame keep_alive version before (raise e, s) t quiet small h = cc
  granted laws frame keep_alive version before (fault f, s) t quiet small h = cc

  -- A login that returned has stored the session of the user whose reply it has sent.
  pub account_pass-Stored :
      (laws : RedisLaws p) (frame : HashFrame p laws.hash OnlyStores) (rounds : ℕ) (header : Fields)
      (jv : p.Json) (keep_alive : Bool) (version : ℕ) (session : Option SessionData)
      (s t : Process p)
      → account_pass p rounds header jv keep_alive version session s ≡ (ok tt, t)
      → (mbuid : ℕ) × (mbuid < u64_mod)
        × (t.sent
            ≡ get_rsponse p
                (p.serialize (account_reply mbuid (gen_session_key mbuid)))
                keep_alive
                version
                (codes "0")
              ∷ s.sent)
        × (t.redis_open ≡ true)
        × Stored mbuid (laws.hash t.ext)
  unfolding account_pass
  account_pass-Stored laws frame rounds header jv keep_alive version session s t h =
      let (user_id, s₁, q₁, h₁) =
        continue-eq-ok_Quiet _ _ (casual_obj_move_at_string-Quiet p (codes "user_id") jv _ s refl)
          h in
      let (conn, s₂, q₂, h₂) = continue-eq-ok_Quiet _ _ (get_conn-Quiet p 0 _ s₁ q₁) h₁ in
      let (result, s₃, q₃, h₃) =
        continue-eq-ok_Quiet _ _ (send_query-Quiet p conn (select_account_sql user_id) _ s₂ q₂)
          h₂ in
      let (r, s₄, q₄, h₄) = continue-eq-ok_Quiet _ _ (read_one-Quiet p result _ s₃ q₃) h₃ in
      granted laws frame keep_alive version s.sent _ t
        (find_or_create-Quiet p rounds conn user_id r _ s₄ q₄)
        (λ n u. find_or_create-range rounds conn user_id r s₄ u) h₄

  -- Where other handlers and other clients of Redis store sessions during the calls and change
  -- nothing else in Redis, under the laws of Redis and the range of the database's identifiers:
  -- whenever the callback of the login returns, there is a user whose reply is the one response
  -- that it has sent, and in the state that it leaves, if Redis answers look-ups, the session check
  -- accepts the key of that reply as a session of that user.
  pub account_pass-session :
      (laws : RedisLaws p) (frame : HashFrame p laws.hash OnlyStores) (rounds : ℕ) (header : Fields)
      (jv : p.Json) (keep_alive : Bool) (version : ℕ) (session : Option SessionData)
      (s t : Process p)
      → account_pass p rounds header jv keep_alive version session s ≡ (ok tt, t)
      → ((key : Bytes) → (found : Fields) × ((p.hgetall key t.ext).0 ≡ ok found))
      → (mbuid : ℕ) × (mbuid < u64_mod)
        × (t.sent
            ≡ get_rsponse p
                (p.serialize (account_reply mbuid (gen_session_key mbuid)))
                keep_alive
                version
                (codes "0")
              ∷ s.sent)
        × ((is_valid_session p (gen_session_key mbuid) t).0
            ≡ ok (true, some (session_of (gen_session_key mbuid) mbuid)))
  account_pass-session laws frame rounds header jv keep_alive version session s t h answers =
      let (mbuid, fits, sent, is_open, stored) =
        account_pass-Stored laws frame rounds header jv keep_alive version session s t h in
      let (found, e) = answers (gen_session_key mbuid) in
      (
        mbuid,
        fits,
        sent,
        is_valid_session_of_stored laws (gen_session_key mbuid) mbuid t found fits is_open e stored,
      )
