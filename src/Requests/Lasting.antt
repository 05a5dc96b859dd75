-- ===== src/Requests/Lasting.antt =====
-- A session that a login has stored is there until it expires: the login, the requests that follow
-- it, and the session check together.
use mlnserver_web.Prelude.{ℕ, ◌≡◌, refl, Bool, Option, some, ◌∷◌, Bytes, codes}
use mlnserver_web.Outcome.{ok}
use mlnserver_web.Platform.{Platform, Fields}
use mlnserver_web.Process.{Process}
use mlnserver_web.Http.Build.{get_rsponse}
use mlnserver_web.Http.Template.{Callback, mysql_template}
use mlnserver_web.Redis.Containers.{find}
use mlnserver_web.Redis.Laws.{RedisLaws}
use mlnserver_web.Session.{SessionData, gen_session_key, is_valid_session}
use mlnserver_web.Session.Laws.{session_of, is_valid_session_of_stored}
use mlnserver_web.Session.Changes.{OnlyStores, OnlyStores-ChangeLaws, OnlyStores-Stored}
use mlnserver_web.Session.Frame.{HashFrame}
use mlnserver_web.Handlers.Account.{account_pass, account_reply}
use mlnserver_web.Handlers.Account.Login.{DatabaseRange, account_pass-Stored}
use mlnserver_web.Handlers.Macros.{handle_session}
use mlnserver_web.Handlers.Macros.Gate.{handle_session-accepted}
use mlnserver_web.Requests.{Lived}
use mlnserver_web.Requests.Sessions.{Lived-changes}

named : (key : Bytes) (rest : Fields) → find (codes "mbsk") ((codes "mbsk", key) ∷ rest) ≡ some key
unfolding find
named key rest = refl

module _ {p : Platform} (laws : RedisLaws p) (frame : HashFrame p laws.hash OnlyStores) where
  -- Where other handlers and other clients of Redis, during the calls and between the requests,
  -- store sessions and change nothing else in Redis, so that none expires: after a login that
  -- returned and any requests, where Redis answers the look-ups, a request with the key that the
  -- login has answered with runs the callback of its handler with the session of the user that
  -- logged in.
  pub account_pass-handle_session :
      (range : DatabaseRange p) (rounds : ℕ) (header : Fields) (jv : p.Json) (keep_alive : Bool)
      (version : ℕ) (session : Option SessionData) (s t u : Process p) (cb : Callback p)
      (rest : Fields) (body : Bytes) (keep_alive' : Bool) (version' : ℕ)
      → account_pass p rounds header jv keep_alive version session s ≡ (ok tt, t)
      → Lived laws OnlyStores t u
      → ((key : Bytes) → (found : Fields) × ((p.hgetall key u.ext).0 ≡ ok found))
      → (mbuid : ℕ) × (t.sent
          ≡ get_rsponse p
              (p.serialize (account_reply mbuid (gen_session_key mbuid)))
              keep_alive
              version
              (codes "0")
            ∷ s.sent)
        × (handle_session p cb
              ((codes "mbsk", gen_session_key mbuid) ∷ rest)
              body
              keep_alive'
              version'
              u
            ≡ mysql_template p
                ((codes "mbsk", gen_session_key mbuid) ∷ rest)
                body
                keep_alive'
                version'
                (some (session_of (gen_session_key mbuid) mbuid))
                cb
                (is_valid_session p (gen_session_key mbuid) u).1)
  account_pass-handle_session range rounds header jv keep_alive version session s t u cb rest body
        keep_alive' version' login r answers =
      let (mbuid, fits, sent, is_open, stored) =
        account_pass-Stored range laws frame rounds header jv keep_alive version session s t
          login in
      let (change, is_open') = Lived-changes laws OnlyStores-ChangeLaws frame is_open r in
      let stored' = OnlyStores-Stored mbuid (laws.hash t.ext) _ change stored in
      let (found, answer) = answers (gen_session_key mbuid) in
      (
        mbuid,
        sent,
        handle_session-accepted p cb ((codes "mbsk", gen_session_key mbuid) ∷ rest) body keep_alive'
            version' u (gen_session_key mbuid) (session_of (gen_session_key mbuid) mbuid)
            (named (gen_session_key mbuid) rest)
            (is_valid_session_of_stored laws (gen_session_key mbuid) mbuid u found fits is_open'
              answer stored'),
      )
