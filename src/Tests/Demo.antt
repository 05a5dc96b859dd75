-- ===== src/Tests/Demo.antt =====
-- A platform to run the server on: Redis is a function from keys to hashes, a query gives as many
-- rows as the text is long modulo 2, and all else returns at once. During each query another handler
-- logs user 5 in.
use mlnserver_web.Prelude.{
  ℕ, zero, suc, ◌<◌, ◌≡◌, refl, pos, true, false, Option, none, some, [], ◌∷◌, ◌++◌, Bytes, codes,
  bytes_eq, bytes_eq_refl, length, leb, ◌%◌, sym, ◌==◌, if◌then◌else◌, arith,
}
use mlnserver_web.Outcome.{ok, ok-injective, pure}
use mlnserver_web.Conf.{MysqlConf}
use mlnserver_web.Platform.{Platform, Fields, Reply, ReadOne}
use mlnserver_web.Process.{Process}
use mlnserver_web.Number.{u64_mod, to_string}
use mlnserver_web.Session.{gen_session_key}
use mlnserver_web.Http.Answers.{SenderReturns}
use mlnserver_web.Redis.Containers.{find, find-append, overwritten}
use mlnserver_web.Redis.Laws.{RedisLaws}
use mlnserver_web.Handlers.Account.Login.{DatabaseRange}
use mlnserver_web.Mysql.Steps.{IsFresh}

abbrev pub Hashes : Type 0
Hashes = Bytes → Fields

abbrev reply : {A : Type 0} → A → Reply A
reply a = record { ec = 0; info = []; result = a }

abbrev pub store : Bytes → Fields → Hashes → Hashes
store key fields h other = if bytes_eq key other then fields ++ h other else h other

-- A resultset is the number of its rows, and each row holds a 7.
abbrev read_row : ℕ → ReadOne ℕ ℕ
read_row zero = record { found = false; row = []; after = 0 }
read_row (suc n) = record { found = true; row = 7 ∷ []; after = n }

abbrev in_range : ℕ → Option ℕ
in_range n = if leb u64_mod n then none else some n

abbrev parse_body : Bytes → Option Bytes
parse_body [] = none
parse_body (c ∷ s) = some (c ∷ s)

abbrev pub demo : Platform
demo = record {
  State = Hashes;
  Conn = Bytes;
  ResultSet = ℕ;
  Field = ℕ;
  connect = λ conf. pure conf.mysql_host;
  close = λ _. pure tt;
  query = λ _ sql e.
      (reply (length sql % 2), store (gen_session_key 5) ((codes "mbuid", to_string 5) ∷ []) e);
  complete = λ n. n == 0;
  read_one = λ n e. (reply (read_row n), e);
  read_all = λ n e. (reply [], e);
  affected_rows = λ _. 1;
  resumed = λ _ _. (codes "user_id", []);
  last_insert_id = λ _. 9;
  as_uint64 = in_range;
  as_int64 = λ n. some (pos n);
  what = λ _ info. info;
  open_redis = λ _. pure tt;
  publish = λ _ _. pure tt;
  hset = λ key field value e. (ok tt, store key ((field, value) ∷ []) e);
  hmset = λ key fields e. (ok tt, store key fields e);
  expire = λ _ _. pure tt;
  hgetall = λ key e. (ok (e key), e);
  open_subscriber = λ _. pure tt;
  subscribe = λ _. pure tt;
  consume = pure tt;
  param_checker = true;
  Json = Bytes;
  parse = parse_body;
  string_at = λ jv _. ok jv;
  serialize = λ _. codes "{}";
  server_name = codes "demo";
  prepare_payload = λ res. record res { content_length = some (length res.body) };
  send = λ _. pure tt;
  send_ine = λ _. pure tt;
  sleep_for = λ _. pure tt;
  generate_uuid = pure (codes "0000");
  utf16_to_8 = λ s. s;
}

pub demo-SenderReturns : SenderReturns demo
demo-SenderReturns = record { send_returns = λ _ _. refl; send_ine_returns = λ _ _. refl }

pub store-find :
    (key : Bytes) (fields : Fields) (h : Hashes) (field : Bytes)
    → find field (store key fields h key) ≡ overwritten (find field fields) (find field (h key))
store-find key fields h field = rw (bytes_eq_refl key) (find-append field fields (h key))

unfoldable pub demo_redis_laws : RedisLaws demo
demo_redis_laws = record {
  hash = λ e. e;
  hmset_sets = λ key fields e _ field. store-find key fields e field;
  hgetall_gets = λ key e found h. sym (ok-injective h);
}

in_range-lt : (field n : ℕ) → in_range field ≡ some n → n < u64_mod
in_range-lt field n h = ground arith

pub demo-DatabaseRange : DatabaseRange demo
demo-DatabaseRange = record {
  last_insert_id_range = λ _. omega arith;
  as_uint64_range = in_range-lt;
}

abbrev pub demo_mysql : MysqlConf
demo_mysql = record {
  mysql_host = codes "db";
  mysql_port = 3306;
  mysql_user = codes "root";
  mysql_passwd = [];
  mysql_dbname = codes "test";
  mysql_conn_pool_max = 2;
}

-- Before anything was set up.
abbrev pub blank : Process demo
blank = record {
  ext = λ _. [];
  pools = [];
  opts = [];
  next_target = 0;
  loaders = [];
  redis_open = false;
  consumers = [];
  session_expire_sec = 1800;
  param_string = [];
  additional_info = [];
  sent = [];
}

-- One target, Redis open, and a session of user 7.
abbrev pub running : Process demo
running = record blank {
  ext = λ key. if bytes_eq (codes "mbsk7") key then (codes "mbuid", codes "7") ∷ [] else [];
  pools = [] ∷ [];
  opts = demo_mysql ∷ [];
  next_target = 1;
  redis_open = true;
}

pub blank-IsFresh : IsFresh demo blank
blank-IsFresh = record { no_pools = refl; no_opts = refl; no_loaders = refl; zero_targets = refl }
