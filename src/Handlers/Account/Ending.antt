-- ===== src/Handlers/Account/Ending.antt =====
-- The end of a login: the session is stored, and stays stored while its expiry is set and the
-- response is sent.
use mlnserver_web.Prelude.{ℕ, ◌≡◌, ◌∙◌, ap, sym, Bool, true, List, [], ◌∷◌, Bytes, codes}
use mathlib.Core.Path.{subst}
use mlnserver_web.Outcome.{ok, continue-eq-ok}
use mlnserver_web.Platform.{Platform}
use mlnserver_web.Process.{Process}
use mlnserver_web.Number.{to_string}
use mlnserver_web.Http.Response.{Response}
use mlnserver_web.Http.Build.{get_rsponse}
use mlnserver_web.Http.Answers.{continue-eq-ok_Quiet}
use mlnserver_web.Http.Template.{send, send_rsp}
use mlnserver_web.Redis.{hset_fields}
use mlnserver_web.Redis.Containers.{find}
use mlnserver_web.Redis.Laws.{RedisLaws, hset_fields-find}
use mlnserver_web.Session.{gen_session_key, create_session}
use mlnserver_web.Session.Changes.{OnlyStores, OnlyStores-ChangeLaws, Stored, OnlyStores-Stored}
use mlnserver_web.Session.Frame.{HashFrame, OnHashes-OuterKeeps}
use mlnserver_web.Redis.Answers.{hset_fields-Quiet}
use mlnserver_web.Redis.Keeps.{expire_if_set-Keeps}
use mlnserver_web.Http.Template.Keeps.{send_rsp-Keeps}
use mlnserver_web.Outer.AnyFault.{any_fault-Calls, kept_by}
use mlnserver_web.Handlers.Account.{answer_with_session, account_reply}

-- The rest of the handler, where it returns, has sent the reply of the user.
pub answer_with_session-sent :
    {p : Platform} (keep_alive : Bool) (version mbuid : ℕ) (before : List Response)
    (s t : Process p)
    → s.sent ≡ before
    → answer_with_session p keep_alive version mbuid s ≡ (ok tt, t)
    → t.sent
      ≡ get_rsponse p
          (p.serialize (account_reply mbuid (gen_session_key mbuid)))
          keep_alive
          version
          (codes "0")
        ∷ before
unfolding answer_with_session create_session send_rsp send
answer_with_session-sent {p} keep_alive version mbuid before s t same h =
    let key = gen_session_key mbuid in
    let (_, s₁, quiet, h₁) =
      continue-eq-ok_Quiet _ _ (hset_fields-Quiet p key _ s.session_expire_sec before s same) h in
    let msg = p.serialize (account_reply mbuid key) in
    ap (λ q. q.sent) (sym (ap (λ r. r.1) h₁))
    ∙ ap (λ l. get_rsponse p msg keep_alive version (codes "0") ∷ l) quiet

module _ {p : Platform} (laws : RedisLaws p) (frame : HashFrame p laws.hash OnlyStores) where
  -- The session stays stored while its expiry is set and the response is sent.
  answered-Stored :
      (keep_alive : Bool) (version mbuid sec : ℕ) (msg : Bytes) (s t : Process p)
      → hset_fields p (gen_session_key mbuid) ((codes "mbuid", to_string mbuid) ∷ []) sec s
        ≡ (ok tt, t)
      → Stored mbuid (laws.hash (send_rsp p keep_alive version msg t).1.ext)
  unfolding find
  answered-Stored keep_alive version mbuid sec msg s t h =
      let key = gen_session_key mbuid in
      let (_, u, is_open, left, fields) =
        hset_fields-find laws key ((codes "mbuid", to_string mbuid) ∷ []) sec s t h in
      let outer =
        OnHashes-OuterKeeps OnlyStores-ChangeLaws frame (Stored mbuid) (OnlyStores-Stored mbuid) in
      let calls = any_fault-Calls outer.calls in
      let after =
        kept_by (λ e. Stored mbuid (laws.hash e)) (expire_if_set-Keeps calls key sec) u
          (fields (codes "mbuid"), is_open) in
      let kept =
        subst (λ v. Stored mbuid (laws.hash v.ext) × (v.redis_open ≡ true)) (sym left) after in
      (kept_by (λ e. Stored mbuid (laws.hash e)) (send_rsp-Keeps calls keep_alive version tt msg) t
        kept).0

  pub answer_with_session-Stored :
      (keep_alive : Bool) (version mbuid : ℕ) (s t : Process p)
      → answer_with_session p keep_alive version mbuid s ≡ (ok tt, t)
      → (t.redis_open ≡ true) × Stored mbuid (laws.hash t.ext)
  unfolding answer_with_session create_session send_rsp send
  answer_with_session-Stored keep_alive version mbuid s t h =
      let key = gen_session_key mbuid in
      let (_, s₁, stored, h₁) = continue-eq-ok (hset_fields p key _ s.session_expire_sec s) _ h in
      let is_open = (hset_fields-find laws key _ s.session_expire_sec s s₁ stored).0 in
      let t-eq = sym (ap (λ r. r.1) h₁) in
      (
        ap (λ q. q.redis_open) t-eq ∙ is_open,
        subst (λ q. Stored mbuid (laws.hash q.ext)) (sym t-eq)
            (answered-Stored keep_alive version mbuid s.session_expire_sec
              (p.serialize (account_reply mbuid key)) s s₁ stored),
      )
