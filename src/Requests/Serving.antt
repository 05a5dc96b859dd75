-- ===== src/Requests/Serving.antt =====
-- The server at work: requests, loader threads and other callers of the manager, in any order.
use mlnserver_web.Prelude.{
  ℕ, Bool, true, ◌≡◌, ap, ◌∙◌, some, Bytes, get_elem?, get_elem?→lt, length, ◌<◌,
}
use mlnserver_web.Conf.{MysqlConf}
use mlnserver_web.Platform.{Platform, Fields}
use mlnserver_web.Process.{Process}
use mlnserver_web.Mysql.Steps.{Step}
use mlnserver_web.Mysql.Pools.{Inv, Step-Inv, Step-opts, Step-redis_open}
use mlnserver_web.Requests.{Route, handler}
use mlnserver_web.Requests.Faults.{IsReady}
use mlnserver_web.Requests.Manager.{same_manager-Inv, handler-manager}

-- The states of a server that are reached from `s`.
pub data Serving (p : Platform) (rounds : ℕ) (s : Process p) : Process p → Type 0 where
  started : Serving p rounds s s
  -- a step of a loader thread, or of a caller of the manager
  managed : {t u : Process p} → Serving p rounds s t → Step p t u → Serving p rounds s u
  -- a request
  handled :
      {t : Process p}
      → Serving p rounds s t
      → (route : Route) (header : Fields) (body : Bytes) (keep_alive : Bool) (version : ℕ)
      → Serving p rounds s (handler p rounds route header body keep_alive version t).1

-- The manager has the target 0 with this configuration, its pools are empty, and the Redis client is
-- open.
pub record InService {p : Platform} (conf : MysqlConf) (s : Process p) : Type 0 where
  pub inv : Inv p s
  pub configured : get_elem? s.opts 0 ≡ some conf
  pub redis_open : s.redis_open ≡ true

module _ {p : Platform} {conf : MysqlConf} where
  pub InService-IsReady : {s : Process p} → InService conf s → IsReady s
  InService-IsReady {s} h =
      let some_target : 0 < length s.opts = get_elem?→lt s.opts 0 h.configured in
      record {
        redis_open = h.redis_open;
        some_pool = rw (h.inv.pools_count, ← h.inv.opts_count) some_target;
        some_target = some_target;
      }

  pub Serving-InService :
      {rounds : ℕ} {s t : Process p} → InService conf s → Serving p rounds s t → InService conf t
  Serving-InService h started = h
  Serving-InService h (managed r st) =
      let before = Serving-InService h r in
      record {
        inv = Step-Inv p st before.inv;
        configured = Step-opts p 0 before.inv st before.configured;
        redis_open = Step-redis_open p before.inv st ∙ before.redis_open;
      }
  Serving-InService {rounds} h (handled {t} r route header body keep_alive version) =
      let before = Serving-InService h r in
      let (same, still) =
        handler-manager rounds route header body keep_alive version t before.inv
          before.redis_open in
      record {
        inv = same_manager-Inv same before.inv;
        configured = ap (λ m. get_elem? m.opts 0) same ∙ before.configured;
        redis_open = still;
      }
