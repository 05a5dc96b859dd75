-- ===== src/Session/Keeps.antt =====
-- The session manager keeps every setting that the outer calls keep.
use mlnserver_web.Prelude.{ℕ, Bool, true, false, Bool-cases, inl, inr, Bytes, codes}
use mlnserver_web.Outcome.{is_std, Fault, Outcome, ok, raise, fault}
use mlnserver_web.Outcome.Keeps.{StopsIn, Keeps, Keeps-bind}
use mlnserver_web.Platform.{Platform, Fields}
use mlnserver_web.Number.Bounds.{stoull-StopsIn}
use mlnserver_web.Redis.Containers.{find, text_or_empty}
use mlnserver_web.Redis.{hget_all}
use mlnserver_web.Redis.Keeps.{hget_all-Keeps}
use mlnserver_web.Session.{parsed, create_session, is_valid_session, read_session}
use mlnserver_web.Outer.{Setting, Calls, Outer}

parsed-StopsIn :
    (may : Fault → Type 0) (key : Bytes) (o : Outcome ℕ)
    → StopsIn may o
    → StopsIn may (parsed key o)
parsed-StopsIn may key (ok n) h = tt
parsed-StopsIn may key (raise e) h = elim (Bool-cases (is_std e)) [
  | inl std ↦ rw std tt
  | inr other ↦ rw other tt
]
parsed-StopsIn may key (fault f) h = h

-- The reading of a session's fields returns or throws.
read_session-StopsIn :
    (may : Fault → Type 0) (key : Bytes) (b : Bool) (fields : Fields)
    → StopsIn may (read_session key b fields)
unfolding read_session
read_session-StopsIn may key false fields = tt
read_session-StopsIn may key true fields =
    parsed-StopsIn may key _ (stoull-StopsIn may (text_or_empty (find (codes "mbuid") fields)))

module _ {p : Platform} {W : Setting p} (outer : Calls p W) where
  pub create_session-Keeps : (mbuid : ℕ) → Keeps (Outer p W) (create_session p mbuid)
  unfolding create_session
  create_session-Keeps mbuid = record { at = λ s h. (h, tt) }

  pub is_valid_session-Keeps : (key : Bytes) → Keeps (Outer p W) (is_valid_session p key)
  unfolding is_valid_session
  is_valid_session-Keeps key =
      Keeps-bind (hget_all p key) (λ (b, fields) s. (read_session key b fields, s))
        (hget_all-Keeps outer key)
        λ (b, fields). record { at = λ s h. (h, read_session-StopsIn W.may key b fields) }
