-- ===== src/Handlers/Macros/Escapes.antt =====
-- Which exceptions leave a handler with a session.
use mlnserver_web.Prelude.{
  ℕ, ◌≡◌, refl, sym, ap, ◌∙◌, ◌⊎◌, inl, inr, Bool, true, false, Bool-cases, Option-cases, some,
  List, Bytes, codes,
}
use mlnserver_web.Outcome.{Exn, Fault, Outcome-cases, is_std, Outcome, ok, raise, fault, continue}
use mlnserver_web.Platform.{Platform, Fields}
use mlnserver_web.Process.{Process}
use mlnserver_web.Number.Bounds.{stoull-is_std}
use mlnserver_web.Http.Response.{Response}
use mlnserver_web.Http.Answers.{SenderReturns, Finishes}
use mlnserver_web.Http.Template.{send, send_rsp_result, mysql_template}
use mlnserver_web.Http.Template.Answers.{mysql_template-Finishes}
use mlnserver_web.Redis.{hget_all}
use mlnserver_web.Redis.Containers.{find, text_or_empty}
use mlnserver_web.Session.{Validity, parsed, read_session, is_valid_session}
use mlnserver_web.Http.Template.{Callback}
use mlnserver_web.Handlers.Macros.{enter_session, handle_session}
use mlnserver_web.Handlers.Macros.Answers.{CallbackSends}

pub ok_raise : {A Q : Type 0} {a : A} {e : Exn} → ok a ≡ raise e → Q
ok_raise h = cc

raise_injective : {A : Type 0} {x e : Exn} → ◌≡◌ {A = Outcome A} (raise x) (raise e) → x ≡ e
raise_injective h = cc

fault_raise : {A Q : Type 0} {f : Fault} {e : Exn} → ◌≡◌ {A = Outcome A} (fault f) (raise e) → Q
fault_raise h = cc

-- A number that cannot be read makes the session invalid.
parsed-never :
    {Q : Type 0} (key : Bytes) (o : Outcome ℕ) (e : Exn)
    → ((x : Exn) → o ≡ raise x → is_std x ≡ true)
    → parsed key o ≡ raise e
    → Q
parsed-never key (ok n) e std h = cc
parsed-never key (raise x) e std h = ok_raise (rw (std x refl) at h)
parsed-never key (fault f) e std h = cc

read_session-never :
    {Q : Type 0} (key : Bytes) (b : Bool) (fields : Fields) (e : Exn)
    → read_session key b fields ≡ raise e
    → Q
unfolding read_session
read_session-never key false fields e h = cc
read_session-never key true fields e h =
    parsed-never key _ e (stoull-is_std (text_or_empty (find (codes "mbuid") fields))) h

module _ {p : Platform} where
  read-raise :
      (key : Bytes) (r : Outcome (Bool × Fields) × Process p) (e : Exn)
      → (continue r (λ (b, fields) s. (read_session key b fields, s))).0 ≡ raise e
      → r.0 ≡ raise e
  read-raise key (ok (b, fields), s) e h = read_session-never key b fields e h
  read-raise key (raise x, s) e h = cc
  read-raise key (fault f, s) e h = cc

  hget_all-raise :
      (key : Bytes) (s : Process p) (e : Exn)
      → (hget_all p key s).0 ≡ raise e
      → (p.hgetall key s.ext).0 ≡ raise e
  unfolding hget_all
  hget_all-raise key s e h = elim (Bool-cases s.redis_open) [
    | inr closed ↦ fault_raise (rw closed at h)
    | inl is_open ↦ elim (Outcome-cases (p.hgetall key s.ext).0) [
      | inl (fields, read) ↦ ok_raise (rw (is_open, read) at h)
      | inr (inl (x, thrown)) ↦ thrown ∙ ap raise (raise_injective (rw (is_open, thrown) at h))
      | inr (inr (f, stopped)) ↦ fault_raise (rw (is_open, stopped) at h)
    ]
  ]

  is_valid_session-raise :
      (key : Bytes) (s : Process p) (e : Exn)
      → (is_valid_session p key s).0 ≡ raise e
      → (p.hgetall key s.ext).0 ≡ raise e
  unfolding is_valid_session
  is_valid_session-raise key s e h = hget_all-raise key s e (read-raise key (hget_all p key s) e h)

-- An exception that is no std::exception, or one that the look-up of the session named in the header
-- is answered with.
abbrev pub MayLeave : (p : Platform) → Fields → Process p → Exn → Type 0
MayLeave p header s e =
    (e ≡ Exn.foreign)
    ⊎ ((key : Bytes) × (find (codes "mbsk") header ≡ some key)
        × ((p.hgetall key s.ext).0 ≡ raise e))

module _ {p : Platform} where
  pub finished-foreign :
      (before : List Response) (r : Outcome (Unit {0}) × Process p) (e : Exn)
      → Finishes before r
      → r.0 ≡ raise e
      → e ≡ Exn.foreign
  finished-foreign before (ok _, s) e h thrown = cc
  finished-foreign before (raise x, s) e h thrown =
      let same : x ≡ e = cc thrown in sym same ∙ h.finished.0
  finished-foreign before (fault f, s) e h thrown = cc

module _ {p : Platform} (sender : SenderReturns p) where
  pub send_rsp_result-never :
      {Q : Type 0} (keep_alive : Bool) (version : ℕ) (msg result : Bytes) (s : Process p) (e : Exn)
      → (send_rsp_result p keep_alive version msg result s).0 ≡ raise e
      → Q
  unfolding send_rsp_result send
  send_rsp_result-never keep_alive version msg result s e thrown =
      ok_raise (sym (sender.send_returns _ s.ext) ∙ thrown)

  module _ (cb : Callback p) (once : CallbackSends p cb) (header : Fields) (body : Bytes)
      (keep_alive : Bool) (version : ℕ) where
    entered-raise :
        (r : Outcome Validity × Process p) (e : Exn)
        → (continue r (enter_session p cb header body keep_alive version)).0 ≡ raise e
        → (e ≡ Exn.foreign) ⊎ (r.0 ≡ raise e)
    unfolding enter_session
    entered-raise (ok (true, session), s) e thrown = inl (
        finished-foreign s.sent (mysql_template p header body keep_alive version session cb s) e
          (mysql_template-Finishes sender header body keep_alive version session cb s
            (λ header' jv. once header' jv keep_alive version session s))
          thrown)
    entered-raise (ok (false, session), s) e thrown =
        send_rsp_result-never keep_alive version _ _ s e thrown
    entered-raise (raise x, s) e thrown = inr (ap raise (raise_injective thrown))
    entered-raise (fault f, s) e thrown = fault_raise thrown

    pub handle_session-MayLeave :
        (s : Process p) (e : Exn)
        → (handle_session p cb header body keep_alive version s).0 ≡ raise e
        → MayLeave p header s e
    unfolding handle_session
    handle_session-MayLeave s e thrown = elim (Option-cases (find (codes "mbsk") header)) [
      | inl missing ↦
          send_rsp_result-never keep_alive version _ _ s e (rw (missing, handle_session) at thrown)
      | inr (key, found) ↦
          elim (entered-raise (is_valid_session p key s) e (rw (found, handle_session) at thrown)) [
            | inl foreign ↦ inl foreign
            | inr looked_up ↦ inr (key, found, is_valid_session-raise key s e looked_up)
          ]
    ]
