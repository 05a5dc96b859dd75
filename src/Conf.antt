-- ===== src/Conf.antt =====
-- The configuration records of mlnserver/confMysql.h, mlnserver/confRedis.h and
-- mlnserver/configuration.h. A `uint32_t` is a number below 2 ^ 32.
pub mod Orm
use mlnserver_web.Prelude.{ℕ, ◌-◌, ◌^◌, ℤ, pos, negsuc, Bool, List, Bytes, ltb, if◌then◌else◌}

abbrev pub u32_mod : ℕ
u32_mod = 2 ^ 32

-- The conversion of a `uint32_t` to `int`.
abbrev pub to_int32 : ℕ → ℤ
to_int32 n = if ltb n (2 ^ 31) then pos n else negsuc (u32_mod - n - 1)

pub record MysqlConf : Type 0 where
  pub mysql_host : Bytes
  pub mysql_port : ℕ
  pub mysql_user : Bytes
  pub mysql_passwd : Bytes
  pub mysql_dbname : Bytes
  pub mysql_conn_pool_max : ℕ

pub record RedisConf : Type 0 where
  pub redis_host : Bytes
  pub redis_port : ℕ
  pub redis_passwd : Bytes
  pub redis_use_replica : Bool
  pub redis_use_cluster : Bool
  pub redis_socket_timeout_ms : ℕ
  pub redis_max_connections : ℕ
  pub redis_sub_channels : List Bytes

pub record Config : Type 0 where
  pub version : ℕ
  pub myapp_http_port : ℕ
  pub redis_conf : RedisConf
  pub mysql_conf : MysqlConf
