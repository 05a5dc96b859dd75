-- ===== src/Platform.antt =====
-- What the server calls and does not implement: boost::mysql, redis++, Boost.JSON, Boost.Beast,
-- mlnsdk's sender, uuidxx and utf8. Each call is a function of the state of all that lies outside.
use mlnserver_web.Prelude.{ℕ, ℤ, Bool, List, Option, Bytes}
use mlnserver_web.Outcome.{Outcome, M}
use mlnserver_web.Conf.{MysqlConf}
use mlnserver_web.Http.Response.{Response}

-- The pairs of a hash or of an `std::unordered_map<std::string, std::string>`.
abbrev pub Fields : Type 0
Fields = List (Bytes × Bytes)

-- mlnsdk's map of the header fields of a request.
abbrev pub HeaderMap : Type 0
HeaderMap = Fields

-- `boost::mysql::error_code`, where 0 is success, and `boost::mysql::error_info`, the diagnostics.
abbrev pub ErrorCode : Type 0
ErrorCode = ℕ

abbrev pub ErrorInfo : Type 0
ErrorInfo = Bytes

-- An asynchronous call under `yield[ec]`: an error code, the diagnostics, a value.
pub record Reply (A : Type 0) : Type 0 where
  pub ec : ErrorCode
  pub info : ErrorInfo
  pub result : A

-- The JSON values that the handlers build; an object lists its members in the order written.
pub data JsonField : Type 0 where
  text : Bytes → JsonField
  unsigned : ℕ → JsonField
  int : ℤ → JsonField

abbrev pub JsonObject : Type 0
JsonObject = List (Bytes × JsonField)

-- What `async_read_one` leaves: whether it read a row, the row, and the resultset behind it.
pub record ReadOne (ResultSet Field : Type 0) : Type 0 where
  pub found : Bool
  pub row : List Field
  pub after : ResultSet

-- The `ConnectionOptions` of redis++, as far as the server sets them; times in milliseconds.
pub record ConnectionOptions : Type 0 where
  pub host : Bytes
  pub port : ℤ
  pub password : Bytes
  pub keep_alive : Bool
  pub socket_timeout : ℕ
  pub connect_timeout : ℕ

pub record Platform : Type 1 where
  pub State : Type 0
  -- boost::mysql
  pub Conn : Type 0
  pub ResultSet : Type 0
  pub Field : Type 0
  pub connect : MysqlConf → M State Conn
  pub close : Conn → M State (Unit {0})
  pub query : Conn → Bytes → State → Reply ResultSet × State
  pub complete : ResultSet → Bool
  pub read_one : ResultSet → State → Reply (ReadOne ResultSet Field) × State
  pub read_all : ResultSet → State → Reply (List (List Field)) × State
  pub affected_rows : ResultSet → ℕ
  pub last_insert_id : ResultSet → ℕ
  pub as_uint64 : Field → Option ℕ
  pub as_int64 : Field → Option ℤ
  -- `what()` of a `boost::system::system_error` made from a code and a message
  pub what : ℕ → Bytes → Bytes
  -- What the thread-local variables paramStringForDev and additional_info hold where a handler goes
  -- on that has waited for boost::mysql, from what they held: other handlers may have run on its
  -- thread meanwhile, and it may go on in another thread, which has variables of its own.
  pub resumed : State → Bytes × Bytes → Bytes × Bytes
  -- redis++: a client made from the options, and the commands
  pub open_redis : ConnectionOptions → M State (Unit {0})
  pub publish : Bytes → Bytes → M State (Unit {0})
  pub hset : Bytes → Bytes → Bytes → M State (Unit {0})
  pub hmset : Bytes → Fields → M State (Unit {0})
  pub expire : Bytes → ℕ → M State (Unit {0})
  pub hgetall : Bytes → M State Fields
  -- redis++: a second client with its subscriber, a subscription, and the wait for one message
  pub open_subscriber : ConnectionOptions → M State (Unit {0})
  pub subscribe : Bytes → M State (Unit {0})
  pub consume : M State (Unit {0})
  -- whether the build defines METABOLOTS_USE_PARAM_CHECKER
  pub param_checker : Bool
  -- Boost.JSON: `parse` fails by its error code, `value_to<std::string>(jv.at(key))` throws
  pub Json : Type 0
  pub parse : Bytes → Option Json
  pub string_at : Json → Bytes → Outcome Bytes
  pub serialize : JsonObject → Bytes
  -- Boost.Beast and mlnsdk
  pub server_name : Bytes
  pub prepare_payload : Response → Response
  pub send : Response → M State (Unit {0})
  pub send_ine : Response → M State (Unit {0})
  pub sleep_for : ℕ → M State (Unit {0})
  -- uuidxx, and utf8::utf16to8
  pub generate_uuid : M State Bytes
  pub utf16_to_8 : List ℕ → Bytes

-- `boost::json::value`
abbrev pub Value : Platform → Type 0
Value p = p.Json

-- `boost::mysql::tcp_ssl_resultset`
abbrev pub TcpSslResultset : Platform → Type 0
TcpSslResultset p = p.ResultSet
