-- ===== src/Http/Template/Answers.antt =====
-- `mysqlTemplate` answers each request once, whatever the callback throws.
use mlnserver_web.Prelude.{
  ℕ, ◌≡◌, ap, refl, Bool, Option, List, [], ◌∷◌, Bytes, codes, Option-cases, inl, inr,
}
use mlnserver_web.Outcome.{Exn, Outcome, ok, raise, fault, handle}
use mlnserver_web.Platform.{Platform, Fields}
use mlnserver_web.Process.{Process}
use mlnserver_web.Http.Response.{Response}
use mlnserver_web.Http.Answers.{SenderReturns, Sends, Finishes}
use mlnserver_web.Http.Template.{
  send, send_ine, send_rsp, send_rsp_result, bad_parameter, other_error, server_error, on_exception,
  Callback, mysql_template,
}
use mlnserver_web.Redis.Containers.{emplace}
use mlnserver_web.Session.{SessionData}

module _ {p : Platform} (sender : SenderReturns p) where
  pub send-Sends :
      (res : Response) (before : List Response) (s : Process p)
      → s.sent ≡ before
      → Sends before (send p res s)
  unfolding send
  send-Sends res before s h = record {
    answered = rw (sender.send_returns res s.ext) (res, ap (λ l. res ∷ l) h);
  }

  pub send_ine-Finishes :
      (res : Response) (before : List Response) (s : Process p)
      → s.sent ≡ before
      → Finishes before (send_ine p res s)
  unfolding send_ine
  send_ine-Finishes res before s h = record {
    finished = rw (sender.send_ine_returns res s.ext) (res, ap (λ l. res ∷ l) h);
  }

  pub send_rsp_result-Sends :
      (keep_alive : Bool) (version : ℕ) (msg result : Bytes) (before : List Response)
      (s : Process p)
      → s.sent ≡ before
      → Sends before (send_rsp_result p keep_alive version msg result s)
  unfolding send_rsp_result
  send_rsp_result-Sends keep_alive version msg result before s h = send-Sends _ before s h

  pub send_rsp-Sends :
      (keep_alive : Bool) (version : ℕ) (msg : Bytes) (before : List Response) (s : Process p)
      → s.sent ≡ before
      → Sends before (send_rsp p keep_alive version msg s)
  unfolding send_rsp
  send_rsp-Sends keep_alive version msg before s h = send-Sends _ before s h

  bad_parameter-Finishes :
      (keep_alive : Bool) (version : ℕ) (before : List Response) (s : Process p)
      → s.sent ≡ before
      → Finishes before (bad_parameter p keep_alive version s)
  unfolding bad_parameter
  bad_parameter-Finishes keep_alive version before s h = send_ine-Finishes _ before s h

  other_error-Finishes :
      (keep_alive : Bool) (version : ℕ) (before : List Response) (s : Process p)
      → s.sent ≡ before
      → Finishes before (other_error p keep_alive version s)
  unfolding other_error
  other_error-Finishes keep_alive version before s h = send_ine-Finishes _ before s h

  server_error-Finishes :
      (keep_alive : Bool) (version : ℕ) (before : List Response) (s : Process p)
      → s.sent ≡ before
      → Finishes before (server_error p keep_alive version s)
  unfolding server_error
  server_error-Finishes keep_alive version before s h = send_ine-Finishes _ before s h

  on_exception-Finishes :
      (keep_alive : Bool) (version : ℕ) (e : Exn) (before : List Response) (s : Process p)
      → s.sent ≡ before
      → Finishes before (on_exception p keep_alive version e s)
  unfolding on_exception
  on_exception-Finishes keep_alive version Exn.out_of_range before s h =
      bad_parameter-Finishes keep_alive version before s h
  on_exception-Finishes keep_alive version Exn.failed_read before s h =
      server_error-Finishes keep_alive version before s h
  on_exception-Finishes keep_alive version Exn.bad_field_access before s h =
      server_error-Finishes keep_alive version before s h
  on_exception-Finishes keep_alive version (Exn.system_error err info) before s h =
      server_error-Finishes keep_alive version before s h
  on_exception-Finishes keep_alive version Exn.foreign before s h = record { finished = (refl, h) }
  on_exception-Finishes keep_alive version _ before s h =
      other_error-Finishes keep_alive version before s h

  handled-Finishes :
      (keep_alive : Bool) (version : ℕ) (before : List Response)
      (r : Outcome (Unit {0}) × Process p)
      → Sends before r
      → Finishes before (handle r (on_exception p keep_alive version))
  handled-Finishes keep_alive version before (ok a, s) h = record { finished = h.answered }
  handled-Finishes keep_alive version before (raise e, s) h =
      on_exception-Finishes keep_alive version e before s h.answered
  handled-Finishes keep_alive version before (fault f, s) h = record { finished = h.answered }

  -- A callback that sends one response if it returns and none if it throws: then the template sends
  -- one if it returns, and it fails to return by a foreign exception or a fault alone.
  pub mysql_template-Finishes :
      (header : Fields) (body_string : Bytes) (keep_alive : Bool) (version : ℕ)
      (session : Option SessionData) (cb : Callback p) (s : Process p)
      → ((header' : Fields) (jv : p.Json)
          → Sends s.sent (cb header' jv keep_alive version session s))
      → Finishes s.sent (mysql_template p header body_string keep_alive version session cb s)
  unfolding mysql_template
  mysql_template-Finishes header body_string keep_alive version session cb s h =
      elim (Option-cases (p.parse body_string)) [
        | inl bad ↦ rw (bad, mysql_template) (send_ine-Finishes _ s.sent s refl)
        | inr (jv, good) ↦
            rw (good, mysql_template)
              (handled-Finishes keep_alive version s.sent _
                (h (emplace (codes "__path__") [] header) jv))
      ]
