-- ===== src/Tests/Bank.antt =====
-- A platform with accounts: a database that reads the two statements of the login.
use mlnserver_web.Prelude.{
  ℕ, pos, Bool, true, false, Option, none, some, [], ◌∷◌, Bytes, codes, bytes_eq, length, drop,
  ◌==◌, if◌then◌else◌,
}
use mlnserver_web.Outcome.{ok, pure}
use mlnserver_web.Platform.{Platform, Reply, ReadOne}
use mlnserver_web.Tests.Demo.{Hashes, store}

abbrev pub Accounts : Type 0
Accounts = Bytes → Option ℕ

abbrev pub World : Type 0
World = Hashes × Accounts

-- A resultset: the row that is pending, if any, and the last identifier.
abbrev pub Rows : Type 0
Rows = Option ℕ × ℕ

abbrev pub until_quote : Bytes → Bytes
until_quote [] = []
until_quote (b ∷ s) = let rest = until_quote s in if b == 39 then [] else b ∷ rest

abbrev pub reply : {A : Type 0} → A → Reply A
reply a = record { ec = 0; info = []; result = a }

-- The answer to EXISTS is 1.
abbrev pub looked_up : Bytes → Option ℕ → Option ℕ
looked_up [] o = o
looked_up (b ∷ s) o = if b == 69 then some 1 else o

-- A statement is told by its first letter, a query by what follows SELECT, and its first literal
-- begins behind the text before it.
abbrev pub run_sql : Bytes → World → Reply Rows × World
run_sql [] e = (reply (none, 0), e)
run_sql (c ∷ sql) (h, a) =
    if c == 83
    then (reply (looked_up (drop 6 sql) (a (until_quote (drop 51 sql))), 0), (h, a))
    else (
      reply (none, 9),
      (h, λ other. if bytes_eq (until_quote (drop 60 sql)) other then some 9 else a other),
    )

abbrev pub read_row : Rows → ReadOne Rows ℕ
read_row (none, n) = record { found = false; row = []; after = (none, n) }
read_row (some m, n) = record { found = true; row = m ∷ []; after = (none, n) }

abbrev pub is_done : Rows → Bool
is_done (none, n) = true
is_done (some m, n) = false

abbrev pub bank : Platform
bank = record {
  State = World;
  Conn = Bytes;
  ResultSet = Rows;
  Field = ℕ;
  connect = λ conf. pure conf.mysql_host;
  close = λ _. pure tt;
  query = λ _ sql e. run_sql sql e;
  complete = is_done;
  read_one = λ r e. (reply (read_row r), e);
  read_all = λ r e. (reply [], e);
  affected_rows = λ _. 1;
  resumed = λ _ held. held;
  last_insert_id = λ r. r.1;
  as_uint64 = λ n. some n;
  as_int64 = λ n. some (pos n);
  what = λ _ info. info;
  open_redis = λ _. pure tt;
  publish = λ _ _. pure tt;
  hset = λ key field value e. (ok tt, (store key ((field, value) ∷ []) e.0, e.1));
  hmset = λ key fields e. (ok tt, (store key fields e.0, e.1));
  expire = λ _ _. pure tt;
  hgetall = λ key e. (ok (e.0 key), e);
  open_subscriber = λ _. pure tt;
  subscribe = λ _. pure tt;
  consume = pure tt;
  param_checker = true;
  Json = Bytes;
  parse = λ s. some s;
  string_at = λ jv _. ok jv;
  serialize = λ _. codes "{}";
  server_name = codes "bank";
  prepare_payload = λ res. record res { content_length = some (length res.body) };
  send = λ _. pure tt;
  send_ine = λ _. pure tt;
  sleep_for = λ _. pure tt;
  generate_uuid = pure (codes "0000");
  utf16_to_8 = λ s. s;
}
