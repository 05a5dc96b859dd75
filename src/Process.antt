-- ===== src/Process.antt =====
-- The state of the server process: what the singletons, the statics and the thread-local variables
-- hold, together with the state of what lies outside.
use mlnserver_web.Prelude.{ℕ, Bool, List, Option, Bytes}
use mlnserver_web.Outcome.{Outcome, ok, M}
use mlnserver_web.Conf.{MysqlConf}
use mlnserver_web.Http.Response.{Response}
use mlnserver_web.Platform.{Platform, ConnectionOptions}

-- A `ConnPtr`; `none` is the null pointer.
abbrev pub ConnPtr : Platform → Type 0
ConnPtr p = Option p.Conn

-- A detached thread of `initTarget`: the rounds left of its loop, its target, and the pool that
-- `std::bind` copied into it. The head of a pool is the top of the stack.
pub record Loader (p : Platform) : Type 0 where
  pub remaining : ℕ
  pub target : ℕ
  pub pool : List (ConnPtr p)

pub record Process (p : Platform) : Type 0 where
  pub ext : p.State
  -- ConnMgr of mlnserver/mysqlConn: _pools, _opts, and the static counter of initTarget
  pub pools : List (List (ConnPtr p))
  pub opts : List MysqlConf
  pub next_target : ℕ
  pub loaders : List (Loader p)
  -- spRedis of mlnserver/redisConnector.cpp
  pub redis_open : Bool
  -- the consumer threads that RedisConnector::init detached, with their arguments
  pub consumers : List (ConnectionOptions × List Bytes)
  -- _sessionExpireTimeSec of SessionManager
  pub session_expire_sec : ℕ
  -- paramStringForDev and additional_info of mlnserver/lobbyServerUtils.h
  pub param_string : Bytes
  pub additional_info : Bytes
  -- the responses handed to the sender, the last one first
  pub sent : List Response

module _ {p : Platform} where
  abbrev pub with_ext : {A : Type 0} → Process p → Outcome A × p.State → Outcome A × Process p
  with_ext s (o, e) = (o, record s { ext = e })

  -- A call of a library: it changes what lies outside alone.
  abbrev pub call : {A : Type 0} → M p.State A → M (Process p) A
  call m s = with_ext s (m s.ext)

  abbrev pub get : {A : Type 0} → (Process p → A) → M (Process p) A
  get f s = (ok (f s), s)
