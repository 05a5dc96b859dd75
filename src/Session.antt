-- ===== src/Session.antt =====
-- SessionManager of mlnserver/sessionManager.cpp and mlnserver/sessionManager.h: session keys, the
-- data of a session, and the look-up of a session in Redis.
pub mod Answers
pub mod Keeps
pub mod Laws
pub mod Changes
pub mod Frame
use mlnserver_web.Prelude.{
  ℕ, ◌*◌, ◌++◌, Bool, true, false, Option, none, some, Bytes, codes, if◌then◌else◌,
}
use mlnserver_web.Outcome.{Exn, is_std, Outcome, ok, raise, fault, M, pure, throw, stop, ◌>>=◌}
use mlnserver_web.Platform.{Platform, Fields}
use mlnserver_web.Process.{Process}
use mlnserver_web.Number.{to_string, stoull}
use mlnserver_web.Redis.{hget_all}
use mlnserver_web.Redis.Containers.{find, text_or_empty}

pub record SessionData : Type 0 where
  pub mbuid : ℕ
  pub session_key : Bytes
  pub expire_sec : ℕ

-- The value of `_sessionExpireTimeSec` before `init` is called.
abbrev pub default_expire_sec : ℕ
default_expire_sec = 30 * 60

unfoldable pub gen_session_key : ℕ → Bytes
unfolding to_string
gen_session_key mbuid = codes "mbsk" ++ to_string mbuid

-- The two results of `isValidSession`.
abbrev pub Validity : Type 0
Validity = Bool × Option SessionData

abbrev pub invalid : Validity
invalid = (false, none)

-- The `try` block: a text that is no number makes the session invalid.
abbrev pub parsed : Bytes → Outcome ℕ → Outcome Validity
parsed key (ok mbuid) =
    ok (true, some (record { mbuid = mbuid; session_key = key; expire_sec = 0 }))
parsed key (raise e) = if is_std e then ok invalid else raise e
parsed key (fault f) = fault f

unfoldable pub read_session : Bytes → Bool → Fields → Outcome Validity
unfolding find stoull
read_session key false field_values = ok invalid
read_session key true field_values =
    parsed key (stoull (text_or_empty (find (codes "mbuid") field_values)))

module _ (p : Platform) where
  unfoldable pub init : ℕ → M (Process p) (Unit {0})
  init session_expire_sec s = pure tt (record s { session_expire_sec = session_expire_sec })

  unfoldable pub create_session : ℕ → M (Process p) SessionData
  create_session mbuid s =
      pure
        (record {
          mbuid = mbuid;
          session_key = gen_session_key mbuid;
          expire_sec = s.session_expire_sec;
        })
        s

  unfoldable pub is_valid_session : Bytes → M (Process p) Validity
  unfolding hget_all read_session
  is_valid_session session_key = do
    (some_fields, field_values) ← hget_all p session_key
    λ s. (read_session session_key some_fields field_values, s)
