-- ===== src/Requests.antt =====
-- The requests that the server handles, and what other handlers and Redis do in between.
pub mod Keeps
pub mod Answers
pub mod Faults
pub mod Replies
pub mod Manager
pub mod Serving
pub mod Health
pub mod Answered
pub mod Sessions
pub mod Isolation
pub mod Lasting
pub mod Live
use mlnserver_web.Prelude.{ℕ, Bool, ◌≡◌, Bytes}
use mlnserver_web.Outcome.{Outcome, M}
use mlnserver_web.Platform.{Platform, Fields}
use mlnserver_web.Process.{Process}
use mlnserver_web.Redis.Laws.{RedisLaws}
use mlnserver_web.Session.Changes.{Hashes}
use mlnserver_web.Handlers.Macros.{Handler}
use mlnserver_web.Handlers.Account.{control_alive, control_account_pass}
use mlnserver_web.Handlers.Player.{control_value_set, control_value_get}

-- The routes of mlnserver/myPacketHandler: /alive, /account/auth_pass, /player/value_set and
-- /player/value_get.
pub data Route : Type 0 where
  alive auth_pass value_set value_get : Route

module _ (p : Platform) where
  -- The handler of a route.
  abbrev pub handler : ℕ → Route → Handler p
  handler rounds Route.alive = control_alive p
  handler rounds Route.auth_pass = control_account_pass p rounds
  handler rounds Route.value_set = control_value_set p
  handler rounds Route.value_get = control_value_get p rounds

  -- A request of any client: any route, header and body.
  pub data Serves (s : Process p) : Process p → Type 0 where
    serves :
        (rounds : ℕ) (route : Route) (header : Fields) (body : Bytes) (keep_alive : Bool)
        (version : ℕ)
        → Serves s (handler rounds route header body keep_alive version s).1

-- What happens to the state of a process, where `R` is what others may do to Redis.
module _ {p : Platform} (laws : RedisLaws p) (R : Hashes → Hashes → Type 0) where
  -- A request runs, or anything else happens but that the Redis client is closed.
  pub data Lives (s : Process p) : Process p → Type 0 where
    request : {t : Process p} → Serves p s t → Lives s t
    meanwhile :
        {t : Process p}
        → R (laws.hash s.ext) (laws.hash t.ext)
        → t.redis_open ≡ s.redis_open
        → Lives s t

  pub data Lived (s : Process p) : Process p → Type 0 where
    born : Lived s s
    lived_next : {t u : Process p} → Lived s t → Lives t u → Lived s u
