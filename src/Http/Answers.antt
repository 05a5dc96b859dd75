-- ===== src/Http/Answers.antt =====
-- How many responses a call hands to the sender: rules for the calls of lobbyServerUtils.h and for
-- the ways in which they are put together.
use mlnserver_web.Prelude.{◌≡◌, refl, Bool, true, false, Option, none, some, List, ◌∷◌}
use mlnserver_web.Outcome.{
  Exn, Fault, Outcome, ok, raise, fault, M, continue, check, or_throw, or_stop,
}
use mlnserver_web.Platform.{Platform}
use mlnserver_web.Process.{Process, call}
use mlnserver_web.Http.Response.{Response}

-- What the code relies on of mlnsdk: handing over a response returns.
pub record SenderReturns (p : Platform) : Type 0 where
  pub send_returns : (res : Response) (e : p.State) → (p.send res e).0 ≡ ok tt
  pub send_ine_returns : (res : Response) (e : p.State) → (p.send_ine res e).0 ≡ ok tt

-- One response more if the call returns, none if it does not.
abbrev pub Answered : {A : Type 0} → List Response → Outcome A → List Response → Type 0
Answered before (ok _) now = (res : Response) × (now ≡ res ∷ before)
Answered before (raise e) now = now ≡ before
Answered before (fault f) now = now ≡ before

-- The same, and only a foreign exception leaves the call.
abbrev pub Finished : {A : Type 0} → List Response → Outcome A → List Response → Type 0
Finished before (ok _) now = (res : Response) × (now ≡ res ∷ before)
Finished before (raise e) now = (e ≡ Exn.foreign) × (now ≡ before)
Finished before (fault f) now = now ≡ before

module _ {p : Platform} {A : Type 0} where
  -- Nothing is sent, however the call ends.
  pub record Quiet (before : List Response) (r : Outcome A × Process p) : Type 0 where
    pub same : r.1.sent ≡ before

  pub record Sends (before : List Response) (r : Outcome A × Process p) : Type 0 where
    pub answered : Answered before r.0 r.1.sent

  pub record Finishes (before : List Response) (r : Outcome A × Process p) : Type 0 where
    pub finished : Finished before r.0 r.1.sent

  pub Finishes-Sends :
      (before : List Response) (r : Outcome A × Process p) → Finishes before r → Sends before r
  Finishes-Sends before (ok a, s) h = record { answered = h.finished }
  Finishes-Sends before (raise e, s) h = record { answered = h.finished.1 }
  Finishes-Sends before (fault c, s) h = record { answered = h.finished }

module _ {p : Platform} where
  module _ {A B : Type 0} {before : List Response} where
    pub continue-Quiet :
        {r : Outcome A × Process p} {f : A → M (Process p) B}
        → Quiet before r
        → ((a : A) (s : Process p) → s.sent ≡ before → Quiet before (f a s))
        → Quiet before (continue r f)
    continue-Quiet {r = (ok a, s)} h k = k a s h.same
    continue-Quiet {r = (raise e, s)} h k = record { same = h.same }
    continue-Quiet {r = (fault c, s)} h k = record { same = h.same }

    pub continue-Sends :
        {r : Outcome A × Process p} {f : A → M (Process p) B}
        → Quiet before r
        → ((a : A) (s : Process p) → s.sent ≡ before → Sends before (f a s))
        → Sends before (continue r f)
    continue-Sends {r = (ok a, s)} h k = k a s h.same
    continue-Sends {r = (raise e, s)} h k = record { answered = h.same }
    continue-Sends {r = (fault c, s)} h k = record { answered = h.same }

  module _ {A : Type 0} {before : List Response} where
    pub or_throw-Quiet :
        (o : Option A) (e : Exn) (s : Process p) → s.sent ≡ before → Quiet before (or_throw o e s)
    or_throw-Quiet none e s h = record { same = h }
    or_throw-Quiet (some a) e s h = record { same = h }

    pub or_stop-Quiet :
        (o : Option A) (f : Fault) (s : Process p) → s.sent ≡ before → Quiet before (or_stop o f s)
    or_stop-Quiet none f s h = record { same = h }
    or_stop-Quiet (some a) f s h = record { same = h }

    -- A call of a library sends nothing.
    pub call-Quiet : (m : M p.State A) (s : Process p) → s.sent ≡ before → Quiet before (call m s)
    call-Quiet m s h = record { same = h }

  pub check-Quiet :
      {before : List Response} (b : Bool) (f : Fault) (s : Process p)
      → s.sent ≡ before
      → Quiet before (check b f s)
  check-Quiet true f s h = record { same = h }
  check-Quiet false f s h = record { same = h }

  -- Inversion of a quiet call that returned.
  pub continue-eq-ok_Quiet :
      {A B : Type 0} {before : List Response} (r : Outcome A × Process p) (f : A → M (Process p) B)
      {b : B} {t : Process p}
      → Quiet before r
      → continue r f ≡ (ok b, t)
      → (a : A) × (s : Process p) × (s.sent ≡ before) × (f a s ≡ (ok b, t))
  continue-eq-ok_Quiet (ok a, s) f q h = (a, s, q.same, h)
  continue-eq-ok_Quiet (raise e, s) f q h = cc
  continue-eq-ok_Quiet (fault c, s) f q h = cc

  -- Inversion of a call that returned, sent nothing, and kept an invariant.
  pub continue-eq-ok_kept :
      {A B : Type 0} {before : List Response} {P : Process p → Type 0} {b : B} {t : Process p}
      (r : Outcome A × Process p) (f : A → M (Process p) B)
      → Quiet before r
      → P r.1
      → continue r f ≡ (ok b, t)
      → (a : A) × (s : Process p) × (r ≡ (ok a, s)) × (s.sent ≡ before) × P s × (f a s ≡ (ok b, t))
  continue-eq-ok_kept (ok a, s) f q k h = (a, s, refl, q.same, k, h)
  continue-eq-ok_kept (raise e, s) f q k h = cc
  continue-eq-ok_kept (fault c, s) f q k h = cc
