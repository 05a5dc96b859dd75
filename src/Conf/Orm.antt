-- ===== src/Conf/Orm.antt =====
-- The registered members of the configuration, `regist` and `initOrm` of mlnserver/configuration.h:
-- each with the key that struct_mapping reads it from and with its default, in the order of the
-- calls. REDIS_MAX_CONNECTIONS is not among them.
use mlnserver_web.Prelude.{ℕ, Bool, false, Option, none, some, List, [], ◌∷◌, Bytes, codes}

pub record DbConnector : Type 0 where
  pub user_id : Bytes
  pub user_pw : Bytes
  pub host : Bytes
  pub db_name : Bytes

pub data Default : Type 0 where
  number : ℕ → Default
  boolean : Bool → Default

pub record Registration : Type 0 where
  pub owner : Bytes
  pub key : Bytes
  pub default : Option Default

abbrev reg : Bytes → Bytes → Option Default → Registration
reg owner key default = record { owner = owner; key = key; default = default }

-- `DBConnector::regist`, which nothing calls.
abbrev pub regist : List Registration
regist =
    reg (codes "DBConnector") (codes "userId") none
    ∷ reg (codes "DBConnector") (codes "userPw") none
    ∷ reg (codes "DBConnector") (codes "host") none
    ∷ reg (codes "DBConnector") (codes "dbName") none
    ∷ []

abbrev pub init_orm : List Registration
init_orm =
    reg (codes "Config") (codes "version") none
    ∷ reg (codes "Config") (codes "MYAPP_HTTP_PORT") (some (number 0))
    ∷ reg (codes "Config") (codes "REDIS_CONF") none
    ∷ reg (codes "Config") (codes "MYSQL_CONF") none
    ∷ reg (codes "REDIS_CONF") (codes "REDIS_HOST") none
    ∷ reg (codes "REDIS_CONF") (codes "REDIS_PORT") (some (number 6379))
    ∷ reg (codes "REDIS_CONF") (codes "REDIS_PASSWD") none
    ∷ reg (codes "REDIS_CONF") (codes "REDIS_USE_REPLICA") (some (boolean false))
    ∷ reg (codes "REDIS_CONF") (codes "REDIS_USE_CLUSTER") (some (boolean false))
    ∷ reg (codes "REDIS_CONF") (codes "REDIS_SOCKET_TIMEOUT_MS") (some (number 300))
    ∷ reg (codes "REDIS_CONF") (codes "REDIS_SUB_CHANNELS") none
    ∷ reg (codes "MYSQL_CONF") (codes "MYSQL_HOST") none
    ∷ reg (codes "MYSQL_CONF") (codes "MYSQL_PORT") (some (number 3306))
    ∷ reg (codes "MYSQL_CONF") (codes "MYSQL_USER") none
    ∷ reg (codes "MYSQL_CONF") (codes "MYSQL_PASSWD") none
    ∷ reg (codes "MYSQL_CONF") (codes "MYSQL_DBNAME") none
    ∷ reg (codes "MYSQL_CONF") (codes "MYSQL_CONN_POOL_MAX") none
    ∷ []
