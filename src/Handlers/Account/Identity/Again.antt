-- ===== src/Handlers/Account/Identity/Again.antt =====
-- The login of one user, twice.
use mlnserver_web.Prelude.{
  ℕ, ◌≡◌, ◌∙◌, sym, Bool, true, inl, inr, Option, none, some, ◌∷◌, Bytes, codes,
}
use mathlib.Core.Path.{subst}
use mlnserver_web.Outcome.{ok}
use mlnserver_web.Platform.{Platform, Fields}
use mlnserver_web.Process.{Process}
use mlnserver_web.Http.Build.{get_rsponse}
use mlnserver_web.Session.{SessionData, gen_session_key}
use mlnserver_web.Handlers.Account.{account_pass, account_reply}
use mlnserver_web.Handlers.Account.Database.{IsPlain, AccountLaws, Alone}
use mlnserver_web.Handlers.Account.Identity.{account_pass-account}

absent_some : {A Q : Type 0} {a : A} → ◌≡◌ {A = Option A} none (some a) → Q
absent_some h = cc

some_injective : {A : Type 0} {a b : A} → ◌≡◌ {A = Option A} (some a) (some b) → a ≡ b
some_injective h = cc

module _ {p : Platform} (db : AccountLaws p) where
  -- Two logins of one user, for a user_id without a quote or a backslash, where the Redis client is
  -- open at both, under the laws of MySQL, and if no other handler makes the account during the first
  -- one, should there be none before: if both return, and the account is at the
  -- second as the first left it, then both answer with the same identifier.
  pub account_pass-again :
      (rounds rounds' : ℕ) (header header' : Fields) (jv jv' : p.Json)
      (keep_alive keep_alive' : Bool) (version version' : ℕ) (session session' : Option SessionData)
      (user_id : Bytes) (s t u v : Process p)
      → (db.account s.ext user_id ≡ none → Alone db user_id)
      → IsPlain user_id
      → p.string_at jv (codes "user_id") ≡ ok user_id
      → p.string_at jv' (codes "user_id") ≡ ok user_id
      → s.redis_open ≡ true
      → u.redis_open ≡ true
      → account_pass p rounds header jv keep_alive version session s ≡ (ok tt, t)
      → db.account u.ext user_id ≡ db.account t.ext user_id
      → account_pass p rounds' header' jv' keep_alive' version' session' u ≡ (ok tt, v)
      → (mbuid : ℕ) × (t.sent
          ≡ get_rsponse p
              (p.serialize (account_reply mbuid (gen_session_key mbuid)))
              keep_alive
              version
              (codes "0")
            ∷ s.sent)
        × (v.sent
            ≡ get_rsponse p
                (p.serialize (account_reply mbuid (gen_session_key mbuid)))
                keep_alive'
                version'
                (codes "0")
              ∷ u.sent)
  account_pass-again rounds rounds' header header' jv jv' keep_alive keep_alive' version version'
        session session' user_id s t u v alone plain value value' is_open is_open' first same
        second =
      let (mbuid, sent, made, _) =
        account_pass-account db rounds header jv keep_alive version session user_id s t alone plain
          value is_open first in
      let there : db.account u.ext user_id ≡ some mbuid = same ∙ made in
      let (mbuid', sent', _, before) =
        account_pass-account db rounds' header' jv' keep_alive' version' session' user_id u v
          (λ absent. absent_some (sym absent ∙ there)) plain value' is_open' second in
      elim before [
        | inl absent ↦ absent_some (sym absent ∙ there)
        | inr found ↦
            let one : mbuid' ≡ mbuid = some_injective (sym found ∙ there) in
            (
              mbuid,
              sent,
              subst
                  (λ n.
                    v.sent
                    ≡ get_rsponse p (p.serialize (account_reply n (gen_session_key n))) keep_alive'
                        version' (codes "0")
                      ∷ u.sent)
                  one sent',
            )
      ]
