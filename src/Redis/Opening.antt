-- ===== src/Redis/Opening.antt =====
-- How `RedisConnector::init` opens the client.
use mlnserver_web.Prelude.{
  ℕ, ◌+◌, ◌^◌, ◌<◌, ◌≡◌, ◌≢◌, ◌⊎◌, refl, inl, inr, true, false, ◌∷◌, ℤ, pos, negsuc,
}
use mlnserver_web.Outcome.{Outcome, ok, raise, fault}
use mlnserver_web.Conf.{RedisConf}
use mlnserver_web.Platform.{Platform, ConnectionOptions}
use mlnserver_web.Process.{Process}
use mlnserver_web.Number.Bounds.{to_int32_range}
use mlnserver_web.Redis.{connection_options, start_consumer, init}

-- A port as an `int`: itself below 2 ^ 31, and otherwise the negative number 2 ^ 32 below it.
abbrev IsPort : ℕ → ℤ → Type 0
IsPort n port =
    ((n < 2 ^ 31) × (port ≡ pos n))
    ⊎ ((k : ℕ) × (k < 2 ^ 31) × (n + k + 1 ≡ 2 ^ 32) × (port ≡ negsuc k))

-- The options of a connection, as a configuration asks for them.
pub record IsFor (conf : RedisConf) (o : ConnectionOptions) : Type 0 where
  pub same_host : o.host ≡ conf.redis_host
  pub same_password : o.password ≡ conf.redis_passwd
  pub port_range : IsPort conf.redis_port o.port
  pub kept_alive : o.keep_alive ≡ true
  pub same_socket_timeout : o.socket_timeout ≡ conf.redis_socket_timeout_ms
  pub two_seconds : o.connect_timeout ≡ 2000

connection_options-IsFor :
    (conf : RedisConf) → conf.redis_port < 2 ^ 32 → IsFor conf (connection_options conf)
connection_options-IsFor conf small = record {
  same_host = refl;
  same_password = refl;
  port_range = to_int32_range conf.redis_port small;
  kept_alive = refl;
  same_socket_timeout = refl;
  two_seconds = refl;
}

module _ (p : Platform) where
  -- The client is open and one more consumer runs; another call, with any configuration, changes
  -- nothing.
  pub record Opened (conf : RedisConf) (o : ConnectionOptions) (s : Process p)
      (r : Outcome (Unit {0}) × Process p) : Type 0 where
    pub connected : p.open_redis o s.ext ≡ (ok tt, r.1.ext)
    pub returned : r.0 ≡ ok tt
    pub is_open : r.1.redis_open ≡ true
    pub one_consumer : r.1.consumers ≡ (o, conf.redis_sub_channels) ∷ s.consumers
    pub only_once : (other : RedisConf) → init p other r.1 ≡ (ok tt, r.1)

  -- The client is as before, and what ended the connection leaves the call.
  pub record NotOpened (o : ConnectionOptions) (s : Process p) (r : Outcome (Unit {0}) × Process p)
      : Type 0 where
    pub same_end : p.open_redis o s.ext ≡ (r.0, r.1.ext)
    pub not_returned : r.0 ≢ ok tt
    pub still_closed : r.1.redis_open ≡ false
    pub no_consumer : r.1.consumers ≡ s.consumers

  opened :
      (conf : RedisConf) (s : Process p) (r : Outcome (Unit {0}) × p.State)
      → p.open_redis (connection_options conf) s.ext ≡ r
      → s.redis_open ≡ false
      → Opened conf (connection_options conf) s (init p conf s)
        ⊎ NotOpened (connection_options conf) s (init p conf s)
  unfolding init start_consumer
  opened conf s (ok a, e) done closed =
      rw (closed, done)
        (inl (record {
          connected = done;
          returned = refl;
          is_open = refl;
          one_consumer = refl;
          only_once = λ other. refl;
        }))
  opened conf s (raise x, e) done closed =
      rw (closed, done)
        (inr (record {
          same_end = done;
          not_returned = λ same. cc;
          still_closed = refl;
          no_consumer = refl;
        }))
  opened conf s (fault f, e) done closed =
      rw (closed, done)
        (inr (record {
          same_end = done;
          not_returned = λ same. cc;
          still_closed = refl;
          no_consumer = refl;
        }))

  -- Where the client is closed and the port is a `uint32_t`: `init` connects with the host, the
  -- password and the timeouts of the configuration, with its port below 2 ^ 31, and otherwise with
  -- the negative number 2 ^ 32 below it. If the connection is made, `init` returns with the client
  -- open and one more consumer, with the same options and the channels of the configuration, and a
  -- second `init`, with any configuration, changes nothing. If not, what ended the connection
  -- leaves `init`, the client stays closed and no consumer is started.
  pub init_opens :
      (conf : RedisConf) (s : Process p)
      → s.redis_open ≡ false
      → conf.redis_port < 2 ^ 32
      → (o : ConnectionOptions) × IsFor conf o
        × (Opened conf o s (init p conf s) ⊎ NotOpened o s (init p conf s))
  init_opens conf s closed small = (
    connection_options conf,
    connection_options-IsFor conf small,
    opened conf s (p.open_redis (connection_options conf) s.ext) refl closed,
  )
