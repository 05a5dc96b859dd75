-- ===== src/Requests/Isolation.antt =====
-- A session key is accepted for the user it was made for, and for no other.
use mlnserver_web.Prelude.{
  ℕ, ◌≡◌, ◌∙◌, ap, sym, inl, inr, true, Option, none, some, [], ◌∷◌, Bytes, codes,
}
use mlnserver_web.Outcome.{ok}
use mlnserver_web.Platform.{Platform, Fields}
use mlnserver_web.Process.{Process}
use mlnserver_web.Number.{to_string, stoull}
use mlnserver_web.Number.Bounds.{stoull_exact}
use mlnserver_web.Redis.Containers.{find}
use mlnserver_web.Redis.Laws.{RedisLaws}
use mlnserver_web.Session.{SessionData, gen_session_key, is_valid_session}
use mlnserver_web.Session.Laws.{is_valid_session_iff}
use mlnserver_web.Session.Changes.{Hashes, StoresOrExpires, StoresOrExpires-ChangeLaws}
use mlnserver_web.Session.Frame.{HashFrame}
use mlnserver_web.Requests.{Lived}
use mlnserver_web.Requests.Sessions.{Lived-changes}

-- Every hash with a field of a user is the session of that user, under that user's key.
abbrev pub Owned : Hashes → Type 0
Owned hash =
    (key text : Bytes)
    → find (codes "mbuid") (hash key) ≡ some text
    → (n : ℕ) × (key ≡ gen_session_key n) × (text ≡ to_string n)

-- The one field that a session has.
field_of :
    (mbuid : ℕ) (text : Bytes)
    → find (codes "mbuid") ((codes "mbuid", to_string mbuid) ∷ []) ≡ some text
    → text ≡ to_string mbuid
unfolding find
field_of mbuid text h = cc

absent_some : {A Q : Type 0} {a : A} → ◌≡◌ {A = Option A} none (some a) → Q
absent_some h = cc

-- Storing a session of a user under that user's key, and the loss of a field, leave every hash its
-- owner.
StoresOrExpires-Owned : (h h' : Hashes) → StoresOrExpires h h' → Owned h → Owned h'
StoresOrExpires-Owned h h' change owned key text found = elim (change key (codes "mbuid")) [
  | inl (inl same) ↦ owned key text (sym same ∙ found)
  | inl (inr (n, own, written)) ↦ (n, own, field_of n text (sym written ∙ found))
  | inr gone ↦ absent_some (sym gone ∙ found)
]

module _ {p : Platform} (laws : RedisLaws p) (frame : HashFrame p laws.hash StoresOrExpires) where
  pub Lived-Owned :
      {s t : Process p}
      → Owned (laws.hash s.ext)
      → s.redis_open ≡ true
      → Lived laws StoresOrExpires s t
      → Owned (laws.hash t.ext) × (t.redis_open ≡ true)
  Lived-Owned {s} owned is_open r =
      let (change, is_open') = Lived-changes laws StoresOrExpires-ChangeLaws frame is_open r in
      (StoresOrExpires-Owned (laws.hash s.ext) _ change owned, is_open')

  -- Where other handlers and other clients of Redis, during the calls and between the requests,
  -- store sessions and let fields expire and change nothing else in Redis: from a state whose Redis
  -- client is open and in which every hash is owned, after any requests, if Redis answers the
  -- look-up and the session check accepts a key, then it is the key of the user for whom it is
  -- accepted.
  pub Lived-gen_session_key :
      {s t : Process p} (key : Bytes) (found : Fields) (d : SessionData)
      → Owned (laws.hash s.ext)
      → s.redis_open ≡ true
      → Lived laws StoresOrExpires s t
      → (p.hgetall key t.ext).0 ≡ ok found
      → (is_valid_session p key t).0 ≡ ok (true, some d)
      → key ≡ gen_session_key d.mbuid
  Lived-gen_session_key {t} key found d owned is_open r answer accepted =
      let (owned', is_open') = Lived-Owned owned is_open r in
      let (text, at, number, _) =
        (is_valid_session_iff laws key t found d is_open' answer).0 accepted in
      let (n, same, spelt) = owned' key text at in
      same ∙ ap gen_session_key (stoull_exact n d.mbuid (ap stoull (sym spelt) ∙ number))
