-- ===== src/Redis.antt =====
-- mlnserver/redisConnector.cpp: the shared Redis client, and the thread that consumes messages.
pub mod Containers
pub mod Consumer
pub mod Tour
pub mod Answers
pub mod Keeps
pub mod Laws
pub mod Overloads
pub mod Opening
use mlnserver_web.Prelude.{ℕ, ◌+◌, Bool, true, false, List, [], ◌∷◌, Bytes, ◌==◌, if◌then◌else◌}
use mlnserver_web.Outcome.{M, Fault, pure, check, ◌>>=◌, ◌>>◌}
use mlnserver_web.Conf.{RedisConf, to_int32}
use mlnserver_web.Platform.{Platform, Fields, ConnectionOptions}
use mlnserver_web.Process.{Process, call, get}
use Containers.{is_empty, insert_all}

abbrev pub connection_options : RedisConf → ConnectionOptions
connection_options conf = record {
  host = conf.redis_host;
  port = to_int32 conf.redis_port;
  password = conf.redis_passwd;
  keep_alive = true;
  socket_timeout = conf.redis_socket_timeout_ms;
  connect_timeout = 2000;
}

module _ (p : Platform) where
  -- What `spRedis->` needs.
  use_redis : M (Process p) (Unit {0})
  use_redis s = check s.redis_open Fault.null_redis s

  pub start_consumer : RedisConf → M (Process p) (Unit {0})
  start_consumer conf s = pure tt (record s {
    redis_open = true;
    consumers = (connection_options conf, conf.redis_sub_channels) ∷ s.consumers;
  })

  unfoldable pub init : RedisConf → M (Process p) (Unit {0})
  unfolding start_consumer
  init conf s =
      if s.redis_open
      then pure tt s
      else (call (p.open_redis (connection_options conf)) >> start_consumer conf) s

  unfoldable pub publish : Bytes → Bytes → M (Process p) (Unit {0})
  unfolding use_redis
  publish channel_name msg = use_redis >> call (p.publish channel_name msg)

  pub expire_if_set : Bytes → ℕ → M (Process p) (Unit {0})
  expire_if_set key expire_sec = if expire_sec == 0 then pure tt else call (p.expire key expire_sec)

  unfoldable pub hset : Bytes → Bytes → Bytes → ℕ → M (Process p) (Unit {0})
  unfolding use_redis expire_if_set
  hset key field value expire_sec = do
    use_redis
    call (p.hset key field value)
    expire_if_set key expire_sec

  -- The overload that takes a container of fields.
  unfoldable pub hset_fields : Bytes → Fields → ℕ → M (Process p) (Unit {0})
  unfolding use_redis expire_if_set
  hset_fields key field_values expire_sec = do
    use_redis
    call (p.hmset key field_values)
    expire_if_set key expire_sec

  -- The out-parameter is cleared first, so it is the result, beside the Boolean.
  unfoldable pub hget_all : Bytes → M (Process p) (Bool × Fields)
  unfolding use_redis insert_all
  hget_all key = do
    use_redis
    found ← call (p.hgetall key)
    let out = insert_all [] found
    pure (if is_empty out then false else true, out)
