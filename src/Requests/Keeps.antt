-- ===== src/Requests/Keeps.antt =====
-- Every request keeps every setting that the outer calls keep.
use mlnserver_web.Prelude.{ℕ, Bool, Bytes}
use mlnserver_web.Outcome.Keeps.{Keeps}
use mlnserver_web.Platform.{Platform, Fields}
use mlnserver_web.Http.Query.Keeps.{RoundsFit}
use mlnserver_web.Http.Template.Keeps.{send_rsp-Keeps}
use mlnserver_web.Handlers.Account.{control_alive}
use mlnserver_web.Handlers.Account.Keeps.{control_account_pass-Keeps}
use mlnserver_web.Handlers.Player.Keeps.{control_value_get-Keeps, control_value_set-Keeps}
use mlnserver_web.Outer.{Setting, Queries, Outer}
use mlnserver_web.Requests.{Route, handler}

module _ {p : Platform} {W : Setting p} (outer : Queries p W) where
  control_alive-Keeps :
      (header : Fields) (body : Bytes) (keep_alive : Bool) (version : ℕ)
      (served : W.served keep_alive version)
      → Keeps (Outer p W) (control_alive p header body keep_alive version)
  unfolding control_alive
  control_alive-Keeps header body keep_alive version served =
      send_rsp-Keeps outer.calls keep_alive version served _

  pub handler-Keeps :
      (rounds : ℕ)
      → RoundsFit W rounds
      → (route : Route) (header : Fields) (body : Bytes) (keep_alive : Bool) (version : ℕ)
        (served : W.served keep_alive version)
      → Keeps (Outer p W) (handler p rounds route header body keep_alive version)
  handler-Keeps rounds fit Route.alive = control_alive-Keeps
  handler-Keeps rounds fit Route.auth_pass = control_account_pass-Keeps outer rounds fit
  handler-Keeps rounds fit Route.value_set = control_value_set-Keeps outer
  handler-Keeps rounds fit Route.value_get = control_value_get-Keeps outer rounds fit
