-- ===== src/Session/Laws.antt =====
-- Session keys are distinct, and which sessions `isValidSession` accepts.
use mlnserver_web.Prelude.{
  ℕ, ◌<◌, ◌≡◌, ◌≢◌, ◌↔◌, refl, ◌∙◌, ap, sym, Bool, true, false, Option, none, some, [], Bytes,
  codes, arith,
}
use mlnserver_web.Outcome.{Outcome, ok, raise, fault, continue}
use mlnserver_web.Platform.{Platform, Fields}
use mlnserver_web.Process.{Process}
use mlnserver_web.Number.{u64_mod, to_string, stoull}
use mlnserver_web.Number.Laws.{to_string_injective, stoull-to_string}
use mlnserver_web.Redis.{hget_all}
use mlnserver_web.Redis.Containers.{find, text_or_empty}
use mlnserver_web.Redis.Laws.{RedisLaws, hget_all-find}
use mlnserver_web.Session.{SessionData, gen_session_key, parsed, read_session, is_valid_session}

-- Two users never share a session key.
pub gen_session_key_injective : (m n : ℕ) → gen_session_key m ≡ gen_session_key n → m ≡ n
unfolding gen_session_key
gen_session_key_injective m n e = to_string_injective m n (cc)

-- The session that a key and a user make.
abbrev pub session_of : Bytes → ℕ → SessionData
session_of key mbuid = record { mbuid = mbuid; session_key = key; expire_sec = 0 }

stoull_empty : (mbuid : ℕ) → stoull [] ≢ ok mbuid
unfolding stoull
stoull_empty mbuid e = cc

parsed-eq-valid :
    (key : Bytes) (o : Outcome ℕ) (d : SessionData)
    → parsed key o ≡ ok (true, some d)
    → (o ≡ ok d.mbuid) × (d ≡ session_of key d.mbuid)
parsed-eq-valid key (ok n) d h = ground arith
parsed-eq-valid key (raise e) d h = ground arith
parsed-eq-valid key (fault f) d h = cc

-- What makes a session valid: its hash has the field of the user, and the field's text is a number.
abbrev pub IsSessionOf : Bytes → Fields → SessionData → Type 0
IsSessionOf key fields d =
    (text : Bytes) × (find (codes "mbuid") fields ≡ some text)
    × (stoull text ≡ ok d.mbuid)
    × (d ≡ session_of key d.mbuid)

stored_text :
    (o : Option Bytes) (mbuid : ℕ)
    → stoull (text_or_empty o) ≡ ok mbuid
    → (text : Bytes) × (o ≡ some text) × (stoull text ≡ ok mbuid)
stored_text none mbuid h = absurd (stoull_empty mbuid h)
stored_text (some text) mbuid h = (text, refl, h)

read_session-eq-valid :
    (key : Bytes) (b : Bool) (out : Fields) (d : SessionData)
    → read_session key b out ≡ ok (true, some d)
    → IsSessionOf key out d
unfolding read_session
read_session-eq-valid key false out d h = cc
read_session-eq-valid key true out d h =
    let (e, same) = parsed-eq-valid key (stoull (text_or_empty (find (codes "mbuid") out))) d h in
    let (text, found, number) = stored_text (find (codes "mbuid") out) d.mbuid e in
    (text, found, number, same)

read_session_of_IsSessionOf :
    (key : Bytes) (out : Fields) (d : SessionData)
    → IsSessionOf key out d
    → read_session key true out ≡ ok (true, some d)
unfolding read_session
read_session_of_IsSessionOf key out d (text, found, number, same) =
    rw found (rw number (ap (λ x. ok (true, some x)) (sym same)))

-- A hash with a field is not empty.
has_fields :
    {key : Bytes} {d : SessionData} (b : Bool) (fields : Fields)
    → (b ≡ false) ↔ (fields ≡ [])
    → IsSessionOf key fields d
    → b ≡ true
unfolding find
has_fields true fields nothing v = refl
has_fields false fields nothing (text, at, _, _) =
    let gone : find (codes "mbuid") [] ≡ some text = rw (nothing.0 refl) at at in cc

module _ {p : Platform} (laws : RedisLaws p) where
  is_valid_session-read :
      (key : Bytes) (s : Process p) (b : Bool) (out : Fields)
      → (hget_all p key s).0 ≡ ok (b, out)
      → (is_valid_session p key s).0 ≡ read_session key b out
  unfolding is_valid_session
  is_valid_session-read key s b out h = rw (h, continue)

  -- Where Redis is open, answers and keeps its laws, a session is accepted exactly when the hash at
  -- its key has a field `mbuid` whose text reads as a number; its data are then that number and the
  -- key.
  pub is_valid_session_iff :
      (key : Bytes) (s : Process p) (found : Fields) (d : SessionData)
      → s.redis_open ≡ true
      → (p.hgetall key s.ext).0 ≡ ok found
      → ((is_valid_session p key s).0 ≡ ok (true, some d)) ↔ IsSessionOf key (laws.hash s.ext key) d
  is_valid_session_iff key s found d is_open h =
      let (b, out, result, nothing, same) = hget_all-find laws key s found is_open h in
      let read = is_valid_session-read key s b out result in
      let there : IsSessionOf key (laws.hash s.ext key) d → b ≡ true =
        λ v. has_fields b _ nothing v in
      (
        λ e.
            let (text, at, number, data') = read_session-eq-valid key b out d (sym read ∙ e) in
            (text, sym (same (codes "mbuid")) ∙ at, number, data'),
        λ v.
            let (text, at, number, data') = v in
            read
            ∙ rw (there v) (
                read_session_of_IsSessionOf key out d
                  (text, same (codes "mbuid") ∙ at, number, data')),
      )

  -- A number that was stored under its text makes a valid session of that user.
  pub is_valid_session_of_stored :
      (key : Bytes) (mbuid : ℕ) (s : Process p) (found : Fields)
      → mbuid < u64_mod
      → s.redis_open ≡ true
      → (p.hgetall key s.ext).0 ≡ ok found
      → find (codes "mbuid") (laws.hash s.ext key) ≡ some (to_string mbuid)
      → (is_valid_session p key s).0 ≡ ok (true, some (session_of key mbuid))
  is_valid_session_of_stored key mbuid s found small is_open h e =
      (is_valid_session_iff key s found (session_of key mbuid) is_open h).1
        (to_string mbuid, e, stoull-to_string mbuid small, refl)
