-- ===== src/Requests/Answered.antt =====
-- While the database is up, every request is answered.
use mlnserver_web.Prelude.{
  ℕ, Bool, ◌≡◌, refl, ap, sym, ◌∙◌, ◌⊎◌, inl, inr, List, [], ◌∷◌, Bytes, length, arith,
}
use mathlib.Core.Path.{subst}
use mlnserver_web.Outcome.{Exn, Outcome, ok, raise, fault}
use mlnserver_web.Outcome.Keeps.{StopsIn}
use mlnserver_web.Conf.{MysqlConf}
use mlnserver_web.Platform.{Platform, Fields}
use mlnserver_web.Process.{Process}
use mlnserver_web.Http.Response.{Response}
use mlnserver_web.Http.Answers.{SenderReturns, Answered}
use mlnserver_web.Http.Template.{send, send_rsp}
use mlnserver_web.Http.Query.Keeps.{EnoughRounds}
use mlnserver_web.Handlers.Account.{control_alive, control_account_pass}
use mlnserver_web.Handlers.Account.Answers.{control_account_pass-Finishes}
use mlnserver_web.Handlers.Macros.Escapes.{
  ok_raise, finished-foreign, MayLeave, handle_session-MayLeave,
}
use mlnserver_web.Handlers.Player.{value_set, value_get, control_value_set, control_value_get}
use mlnserver_web.Handlers.Player.Answers.{value_set-Sends, value_get-Sends}
use mlnserver_web.Requests.{Route, handler}
use mlnserver_web.Requests.Answers.{handler-Sends}
use mlnserver_web.Requests.Faults.{CallsEnd}
use mlnserver_web.Requests.Replies.{PayloadLaws, IsReply, RepliesOver, handler-RepliesOver}
use mlnserver_web.Requests.Serving.{InService}
use mlnserver_web.Requests.Health.{DatabaseUp, handler-healthy}

-- Of one response more, what all that were added satisfy.
last-IsReply :
    {p : Platform} (keep_alive : Bool) (version : ℕ) (res : Response) (before : List Response)
    → RepliesOver p keep_alive version before (res ∷ before)
    → IsReply p keep_alive version res
last-IsReply {p} keep_alive version res before ([], same, all) =
    absurd (omega (arith, ap length same))
last-IsReply {p} keep_alive version res before (r ∷ new, same, (reply, all)) =
    let e : res ≡ r = cc same in subst (IsReply p keep_alive version) (sym e) reply

-- The exceptions that may leave the handler of a route: none, those that are no std::exception, or
-- those and what the look-up of the session is answered with, which is outside of the template.
abbrev pub MayEscape : (p : Platform) → Route → Fields → Process p → Exn → Type 0
MayEscape p Route.alive header s e = ⊥
MayEscape p Route.auth_pass header s e = e ≡ Exn.foreign
MayEscape p Route.value_set header s e = MayLeave p header s e
MayEscape p Route.value_get header s e = MayLeave p header s e

-- A call returned with one reply more, or it threw one of these exceptions and sent nothing.
abbrev pub IsAnswered :
    (p : Platform)
    → Bool
    → ℕ
    → List Response
    → (Exn → Type 0)
    → Outcome (Unit {0}) × Process p
    → Type 0
IsAnswered p keep_alive version before escapes r =
    ((res : Response) × (r.0 ≡ ok tt)
      × (r.1.sent ≡ res ∷ before)
      × IsReply p keep_alive version res)
    ⊎ ((e : Exn) × (r.0 ≡ raise e) × escapes e × (r.1.sent ≡ before))

-- Of a call that returned or threw.
settled :
    {p : Platform} (keep_alive : Bool) (version : ℕ) (before : List Response)
    (escapes : Exn → Type 0) (r : Outcome (Unit {0}) × Process p)
    → Answered before r.0 r.1.sent
    → ((e : Exn) → r.0 ≡ raise e → escapes e)
    → StopsIn (λ f. ⊥) r.0
    → RepliesOver p keep_alive version before r.1.sent
    → IsAnswered p keep_alive version before escapes r
settled {p} keep_alive version before escapes (ok _, s) (res, same) thrown stops replies = inl (
  res,
  refl,
  same,
  last-IsReply keep_alive version res before
      (subst (RepliesOver p keep_alive version before) same replies),
)
settled keep_alive version before escapes (raise e, s) same thrown stops replies =
    inr (e, refl, thrown e refl, same)
settled keep_alive version before escapes (fault f, s) same thrown stops replies = absurd stops

module _ {p : Platform} (sender : SenderReturns p) where
  alive-never :
      (s : Process p) (header : Fields) (body : Bytes) (keep_alive : Bool) (version : ℕ) (e : Exn)
      → (control_alive p header body keep_alive version s).0 ≡ raise e
      → ⊥
  unfolding control_alive send_rsp send
  alive-never s header body keep_alive version e thrown =
      ok_raise (sym (sender.send_returns _ s.ext) ∙ thrown)

  handler-MayEscape :
      (rounds : ℕ) (route : Route) (header : Fields) (body : Bytes) (keep_alive : Bool)
      (version : ℕ) (s : Process p) (e : Exn)
      → (handler p rounds route header body keep_alive version s).0 ≡ raise e
      → MayEscape p route header s e
  unfolding control_value_set control_value_get
  handler-MayEscape rounds Route.alive header body keep_alive version s e thrown =
      alive-never s header body keep_alive version e thrown
  handler-MayEscape rounds Route.auth_pass header body keep_alive version s e thrown =
      finished-foreign s.sent (control_account_pass p rounds header body keep_alive version s) e
        (control_account_pass-Finishes sender rounds header body keep_alive version s) thrown
  handler-MayEscape rounds Route.value_set header body keep_alive version s e thrown =
      handle_session-MayLeave sender (value_set p) (value_set-Sends sender) header body keep_alive
        version s e thrown
  handler-MayEscape rounds Route.value_get header body keep_alive version s e thrown =
      handle_session-MayLeave sender (value_get p rounds) (value_get-Sends sender rounds) header
        body keep_alive version s e thrown

-- Where handing over a response returns, `prepare_payload` sets the length alone, the calls of the
-- libraries return or throw, a read that finds a row takes it off, and the rounds are more than what
-- is pending of any resultset: while the database is up, a request of any route to a server in
-- service returns with exactly one response more, a reply to the request, or throws with none. No
-- exception leaves the handler of /alive, none but those that are no std::exception that of
-- /account/auth_pass, and none but those and an exception that Redis answered the look-up of the
-- session with those of /player/value_set and /player/value_get.
pub handler-IsAnswered :
    {p : Platform} {Up : p.State → Type 0} {conf : MysqlConf} (rounds : ℕ) (route : Route)
    (header : Fields) (body : Bytes) (keep_alive : Bool) (version : ℕ) (s : Process p)
    → SenderReturns p
    → PayloadLaws p
    → CallsEnd p
    → EnoughRounds p rounds
    → DatabaseUp p Up
    → Up s.ext
    → InService conf s
    → IsAnswered p keep_alive version s.sent
        (MayEscape p route header s)
        (handler p rounds route header body keep_alive version s)
handler-IsAnswered {p} rounds route header body keep_alive version s sender payload calls enough up
      held here =
    settled keep_alive version s.sent (MayEscape p route header s)
      (handler p rounds route header body keep_alive version s)
      (handler-Sends sender rounds route header body keep_alive version s).answered
      (handler-MayEscape sender rounds route header body keep_alive version s)
      (handler-healthy rounds route header body keep_alive version s calls enough up held here).0
      (handler-RepliesOver payload rounds route header body keep_alive version s here.redis_open)
