-- ===== src/Requests/Live.antt =====
-- The sessions as the set of the users that have one: what the session check tells of it.
use mlnserver_web.Prelude.{ℕ, ◌<◌, ◌≡◌, ◌↔◌, ◌∙◌, ap, sym, true, some, Bytes, codes}
use mlnserver_web.Outcome.{ok}
use mlnserver_web.Platform.{Platform, Fields}
use mlnserver_web.Process.{Process}
use mlnserver_web.Number.{u64_mod, to_string, stoull}
use mlnserver_web.Number.Bounds.{stoull_exact}
use mlnserver_web.Redis.Containers.{find}
use mlnserver_web.Redis.Laws.{RedisLaws}
use mlnserver_web.Session.{gen_session_key, is_valid_session}
use mlnserver_web.Session.Laws.{session_of, is_valid_session_iff, is_valid_session_of_stored}
use mlnserver_web.Requests.{Lived}
use mlnserver_web.Session.Changes.{StoresOrExpires, Stored}
use mlnserver_web.Session.Frame.{HashFrame}
use mlnserver_web.Requests.Isolation.{Owned, Lived-Owned}

-- The user has a session.
abbrev pub IsLive : {p : Platform} → RedisLaws p → Process p → ℕ → Type 0
IsLive laws t n = Stored n (laws.hash t.ext)

module _ {p : Platform} (laws : RedisLaws p) (frame : HashFrame p laws.hash StoresOrExpires) where
  -- Where other handlers and other clients of Redis, during the calls and between the requests,
  -- store sessions and let fields expire and change nothing else in Redis: from a state whose Redis
  -- client is open and in which every hash is owned, after any requests, where Redis answers the
  -- look-up, the session check accepts a key for a user with a 64-bit identifier exactly if the
  -- user has a session and the key is that user's.
  pub Lived-IsLive :
      {s t : Process p} (key : Bytes) (found : Fields) (n : ℕ)
      → Owned (laws.hash s.ext)
      → s.redis_open ≡ true
      → Lived laws StoresOrExpires s t
      → n < u64_mod
      → (p.hgetall key t.ext).0 ≡ ok found
      → ((is_valid_session p key t).0 ≡ ok (true, some (session_of key n)))
        ↔ (IsLive laws t n × (key ≡ gen_session_key n))
  Lived-IsLive {t} key found n owned is_open r fits answer =
      let (owned', is_open') = Lived-Owned laws frame owned is_open r in
      (
        λ accepted.
            let (text, at, number, _) =
              (is_valid_session_iff laws key t found (session_of key n) is_open' answer).0
                accepted in
            let (m, same, spelt) = owned' key text at in
            let one : m ≡ n = stoull_exact m n (ap stoull (sym spelt) ∙ number) in
            let own : key ≡ gen_session_key n = same ∙ ap gen_session_key one in
            (
              ap (λ k. find (codes "mbuid") (laws.hash t.ext k)) (sym own)
                  ∙ at
                  ∙ ap some (spelt ∙ ap to_string one),
              own,
            ),
        λ (live, own).
            is_valid_session_of_stored laws key n t found fits is_open' answer
              (ap (λ k. find (codes "mbuid") (laws.hash t.ext k)) own ∙ live),
      )
