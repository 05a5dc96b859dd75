-- ===== src/Http/Template/Keeps.antt =====
-- The template keeps every setting that the outer calls and its callback keep.
use mlnserver_web.Prelude.{
  ℕ, Bool, Option, List, [], ◌∷◌, Bytes, codes, true, false, if◌then◌else◌, Option-cases, inl, inr,
}
use mlnserver_web.Outcome.{Exn}
use mlnserver_web.Outcome.Keeps.{Keeps, Keeps-bind, Keeps-throw, Keeps-catching}
use mlnserver_web.Platform.{Platform, Fields}
use mlnserver_web.Http.Response.{Response}
use mlnserver_web.Http.Template.{
  note_sent, send, send_ine, send_rsp, send_rsp_result, bad_parameter, other_error, server_error,
  on_exception, Callback, mysql_template,
}
use mlnserver_web.Redis.Containers.{emplace}
use mlnserver_web.Session.{SessionData}
use mlnserver_web.Outer.{Setting, Calls, Outer, Keeps-call}

module _ {p : Platform} {W : Setting p} (outer : Calls p W) where
  -- A response that the log may be continued with.
  note_sent-Keeps :
      (res : Response)
      → ((l : List Response) → W.log l → W.log (res ∷ l))
      → Keeps (Outer p W) (note_sent p res)
  unfolding note_sent
  note_sent-Keeps res fits = record {
    at = λ s (h, is_open, there, logged). ((h, is_open, there, fits s.sent logged), tt);
  }

  send-Keeps :
      (res : Response)
      → ((l : List Response) → W.log l → W.log (res ∷ l))
      → Keeps (Outer p W) (send p res)
  unfolding send
  send-Keeps res fits = Keeps-bind (note_sent p res) _ (note_sent-Keeps res fits) λ _.
      Keeps-call W (p.send res) (outer.keeps.send_keeps res)
        (outer.allows.calls_stop.send_stops res)

  pub send_ine-Keeps :
      (res : Response)
      → ((l : List Response) → W.log l → W.log (res ∷ l))
      → Keeps (Outer p W) (send_ine p res)
  unfolding send_ine
  send_ine-Keeps res fits = Keeps-bind (note_sent p res) _ (note_sent-Keeps res fits) λ _.
      Keeps-call W (p.send_ine res) (outer.keeps.send_ine_keeps res)
        (outer.allows.calls_stop.send_ine_stops res)

  pub send_rsp-Keeps :
      (keep_alive : Bool) (version : ℕ) (served : W.served keep_alive version) (msg : Bytes)
      → Keeps (Outer p W) (send_rsp p keep_alive version msg)
  unfolding send_rsp
  send_rsp-Keeps keep_alive version served msg =
      send-Keeps _ (outer.allows.rsponse_logged msg keep_alive version served (codes "0"))

  pub send_rsp_result-Keeps :
      (keep_alive : Bool) (version : ℕ) (served : W.served keep_alive version) (msg result : Bytes)
      → Keeps (Outer p W) (send_rsp_result p keep_alive version msg result)
  unfolding send_rsp_result
  send_rsp_result-Keeps keep_alive version served msg result =
      send-Keeps _ (outer.allows.rsponse_logged msg keep_alive version served result)

  bad_parameter-Keeps :
      (keep_alive : Bool) (version : ℕ) (served : W.served keep_alive version)
      → Keeps (Outer p W) (bad_parameter p keep_alive version)
  unfolding bad_parameter
  bad_parameter-Keeps keep_alive version served = record {
    at = λ s h.
        (send_ine-Keeps _ (outer.allows.bad_request_logged keep_alive version served _)).at s h;
  }

  either_logged :
      (b : Bool) (x y : Response) (l : List Response)
      → W.log (x ∷ l)
      → W.log (y ∷ l)
      → W.log ((if b then x else y) ∷ l)
  either_logged true x y l h k = h
  either_logged false x y l h k = k

  other_error-Keeps :
      (keep_alive : Bool) (version : ℕ) (served : W.served keep_alive version)
      → Keeps (Outer p W) (other_error p keep_alive version)
  unfolding other_error
  other_error-Keeps keep_alive version served = record {
    at = λ s h.
        (send_ine-Keeps _ (λ l k.
            either_logged p.param_checker _ _ l
              (outer.allows.bad_request_logged keep_alive version served _ l k)
              (outer.allows.server_error_logged keep_alive version served _ l k))).at
          s h;
  }

  server_error-Keeps :
      (keep_alive : Bool) (version : ℕ) (served : W.served keep_alive version)
      → Keeps (Outer p W) (server_error p keep_alive version)
  unfolding server_error
  server_error-Keeps keep_alive version served =
      send_ine-Keeps _ (outer.allows.server_error_logged keep_alive version served _)

  on_exception-Keeps :
      (keep_alive : Bool) (version : ℕ) (served : W.served keep_alive version) (e : Exn)
      → Keeps (Outer p W) (on_exception p keep_alive version e)
  unfolding on_exception
  on_exception-Keeps keep_alive version served Exn.failed_read =
      server_error-Keeps keep_alive version served
  on_exception-Keeps keep_alive version served Exn.bad_field_access =
      server_error-Keeps keep_alive version served
  on_exception-Keeps keep_alive version served (Exn.system_error err info) =
      server_error-Keeps keep_alive version served
  on_exception-Keeps keep_alive version served Exn.foreign = Keeps-throw Exn.foreign
  on_exception-Keeps keep_alive version served Exn.out_of_range =
      bad_parameter-Keeps keep_alive version served
  on_exception-Keeps keep_alive version served _ = other_error-Keeps keep_alive version served

  pub mysql_template-Keeps :
      (header : Fields) (body_string : Bytes) (keep_alive : Bool) (version : ℕ)
      (served : W.served keep_alive version) (session : Option SessionData) (cb : Callback p)
      → ((header' : Fields) (jv : p.Json)
          → Keeps (Outer p W) (cb header' jv keep_alive version session))
      → Keeps (Outer p W) (mysql_template p header body_string keep_alive version session cb)
  unfolding mysql_template
  mysql_template-Keeps header body_string keep_alive version served session cb k =
      elim (Option-cases (p.parse body_string)) [
        | inl bad ↦
            rw (bad, mysql_template)
              (send_ine-Keeps _ (outer.allows.bad_request_logged keep_alive version served _))
        | inr (jv, good) ↦
            rw (good, mysql_template)
              (Keeps-catching
                (cb (emplace (codes "__path__") [] header) jv keep_alive version session)
                (on_exception p keep_alive version) (k (emplace (codes "__path__") [] header) jv)
                (on_exception-Keeps keep_alive version served))
      ]
