-- ===== src/Requests/Answers.antt =====
-- How many responses a request hands to the sender.
use mlnserver_web.Prelude.{ℕ, Bool, refl, Bytes}
use mlnserver_web.Platform.{Platform, Fields}
use mlnserver_web.Process.{Process}
use mlnserver_web.Http.Answers.{SenderReturns, Sends, Finishes-Sends}
use mlnserver_web.Http.Template.Answers.{send_rsp-Sends}
use mlnserver_web.Handlers.Account.{control_alive, control_account_pass}
use mlnserver_web.Handlers.Account.Answers.{control_account_pass-Finishes}
use mlnserver_web.Handlers.Player.Answers.{control_value_set-Sends, control_value_get-Sends}
use mlnserver_web.Requests.{Route, handler}

module _ {p : Platform} (sender : SenderReturns p) where
  control_alive-Sends :
      (header : Fields) (body : Bytes) (keep_alive : Bool) (version : ℕ) (s : Process p)
      → Sends s.sent (control_alive p header body keep_alive version s)
  unfolding control_alive
  control_alive-Sends header body keep_alive version s =
      send_rsp-Sends sender keep_alive version _ s.sent s refl

  -- Where handing over a response returns, the handler of every route hands over exactly one whenever
  -- it returns, and none when it does not.
  pub handler-Sends :
      (rounds : ℕ) (route : Route) (header : Fields) (body : Bytes) (keep_alive : Bool)
      (version : ℕ) (s : Process p)
      → Sends s.sent (handler p rounds route header body keep_alive version s)
  handler-Sends rounds Route.alive header body keep_alive version s =
      control_alive-Sends header body keep_alive version s
  handler-Sends rounds Route.auth_pass header body keep_alive version s =
      Finishes-Sends {p = p} s.sent (control_account_pass p rounds header body keep_alive version s)
        (control_account_pass-Finishes sender rounds header body keep_alive version s)
  handler-Sends rounds Route.value_set header body keep_alive version s =
      control_value_set-Sends sender header body keep_alive version s
  handler-Sends rounds Route.value_get header body keep_alive version s =
      control_value_get-Sends sender rounds header body keep_alive version s
