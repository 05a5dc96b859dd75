-- ===== src/Handlers/Macros/Gate.antt =====
-- The session check of lobbyServerMacros.h guards the callback: it runs for a valid session alone.
use mlnserver_web.Prelude.{
  ℕ, ◌≡◌, ◌≢◌, refl, Bool, true, false, none, some, Bytes, codes, Option-cases, inl, inr,
  Bool-cases,
}
use mlnserver_web.Outcome.{Exn, is_std, Outcome, ok, raise, fault, continue}
use mlnserver_web.Platform.{Platform, Fields}
use mlnserver_web.Process.{Process}
use mlnserver_web.Http.Template.{Callback, mysql_template}
use mlnserver_web.Redis.{hget_all}
use mlnserver_web.Redis.Containers.{find}
use mlnserver_web.Session.{SessionData, Validity, parsed, read_session, is_valid_session}
use mlnserver_web.Handlers.Macros.{enter_session, handle_session}

-- A result that is valid comes with its data.
abbrev HasData : Outcome Validity → Type 0
HasData (ok (true, none)) = ⊥
HasData _ = Unit {0}

parsed-HasData : (key : Bytes) (o : Outcome ℕ) → HasData (parsed key o)
parsed-HasData key (ok n) = tt
parsed-HasData key (raise e) = elim (Bool-cases (is_std e)) [
  | inl std ↦ rw std tt
  | inr other ↦ rw other tt
]
parsed-HasData key (fault f) = tt

read_session-HasData :
    (key : Bytes) (b : Bool) (fields : Fields) → HasData (read_session key b fields)
unfolding read_session
read_session-HasData key false fields = tt
read_session-HasData key true fields = parsed-HasData key _

module _ (p : Platform) where
  read-HasData :
      (key : Bytes) (r : Outcome (Bool × Fields) × Process p)
      → HasData (continue r (λ (b, fields) s. (read_session key b fields, s))).0
  read-HasData key (ok (b, fields), s) = read_session-HasData key b fields
  read-HasData key (raise e, s) = tt
  read-HasData key (fault f, s) = tt

  is_valid_session-HasData : (key : Bytes) (s : Process p) → HasData (is_valid_session p key s).0
  unfolding is_valid_session
  is_valid_session-HasData key s = read-HasData key (hget_all p key s)

  -- Without valid data, the callback and the body do not matter.
  kept_out :
      (cb cb' : Callback p) (header : Fields) (body body' : Bytes) (keep_alive : Bool) (version : ℕ)
      (r : Outcome Validity × Process p)
      → HasData r.0
      → ((d : SessionData) → r.0 ≢ ok (true, some d))
      → continue r (enter_session p cb header body keep_alive version)
        ≡ continue r (enter_session p cb' header body' keep_alive version)
  unfolding enter_session
  kept_out cb cb' header body body' keep_alive version (ok (true, some d), s) has none_valid =
      absurd (none_valid d refl)
  kept_out cb cb' header body body' keep_alive version (ok (true, none), s) has none_valid =
      absurd has
  kept_out cb cb' header body body' keep_alive version (ok (false, d), s) has none_valid = refl
  kept_out cb cb' header body body' keep_alive version (raise e, s) has none_valid = refl
  kept_out cb cb' header body body' keep_alive version (fault f, s) has none_valid = refl

  -- If the request names no session that the check accepts, then the handler does the same whatever
  -- its callback is and whatever the body holds.
  pub handle_session-rejected :
      (cb cb' : Callback p) (header : Fields) (body body' : Bytes) (keep_alive : Bool) (version : ℕ)
      (s : Process p)
      → ((key : Bytes) (d : SessionData)
          → find (codes "mbsk") header ≡ some key
          → (is_valid_session p key s).0 ≢ ok (true, some d))
      → handle_session p cb header body keep_alive version s
        ≡ handle_session p cb' header body' keep_alive version s
  unfolding handle_session
  handle_session-rejected cb cb' header body body' keep_alive version s h =
      elim (Option-cases (find (codes "mbsk") header)) [
        | inl missing ↦ rw (missing, handle_session) refl
        | inr (key, found) ↦
            rw (found, handle_session)
              (kept_out cb cb' header body body' keep_alive version (is_valid_session p key s)
                (is_valid_session-HasData key s) (λ d. h key d found))
      ]

  -- A valid session reaches the callback: the handler is the template with the data of that session,
  -- in the state that the session check left.
  pub handle_session-accepted :
      (cb : Callback p) (header : Fields) (body : Bytes) (keep_alive : Bool) (version : ℕ)
      (s : Process p) (key : Bytes) (d : SessionData)
      → find (codes "mbsk") header ≡ some key
      → (is_valid_session p key s).0 ≡ ok (true, some d)
      → handle_session p cb header body keep_alive version s
        ≡ mysql_template p header body keep_alive version (some d) cb (is_valid_session p key s).1
  unfolding handle_session enter_session
  handle_session-accepted cb header body keep_alive version s key d found valid =
      rw (found, handle_session) (rw (valid, continue) refl)

  -- Where Redis is open and its answer to the look-up of the session is an exception, that exception
  -- leaves the handler, of whatever class it is and whatever the callback would do, and no response
  -- has been handed over.
  pub handle_session-escapes :
      (cb : Callback p) (header : Fields) (body : Bytes) (keep_alive : Bool) (version : ℕ)
      (s : Process p) (key : Bytes) (e : Exn)
      → find (codes "mbsk") header ≡ some key
      → s.redis_open ≡ true
      → (p.hgetall key s.ext).0 ≡ raise e
      → ((handle_session p cb header body keep_alive version s).0 ≡ raise e)
        × ((handle_session p cb header body keep_alive version s).1.sent ≡ s.sent)
  unfolding handle_session is_valid_session hget_all
  handle_session-escapes cb header body keep_alive version s key e found is_open thrown = (
    rw (found, handle_session) (rw (is_open, thrown) refl),
    rw (found, handle_session) (rw (is_open, thrown) refl),
  )
