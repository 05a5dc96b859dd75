-- ===== src/Outer.antt =====
-- Conditions on all that lies outside the server and on what a handler may change of the process, as
-- the handlers' calls must keep them, and the faults in which the calls may stop.
pub mod AnyFault
use mlnserver_web.Prelude.{
  ℕ, ◌≡◌, ◌⊎◌, inr, Bool, true, List, [], ◌∷◌, Bytes, codes, ltb, length, set, get_elem?, some,
  none,
}
use mathlib.Core.Path.{subst}
use mlnserver_web.Outcome.{Exn, is_std, raise, Fault, M}
use mlnserver_web.Outcome.Keeps.{Contract, StopsIn, StopsIn-any, Keeps}
use mlnserver_web.Conf.{MysqlConf}
use mlnserver_web.Platform.{Platform, Fields, Reply, ReadOne}
use mlnserver_web.Process.{ConnPtr, Loader, Process, call}
use mlnserver_web.Number.{to_string}
use mlnserver_web.Http.Response.{Response}
use mlnserver_web.Http.Build.{get_bad_request, get_server_error, get_rsponse}
use mlnserver_web.Handlers.Player.{player_exists_sql}
use mlnserver_web.Session.{gen_session_key}

-- The calls other than queries keep a condition on the outer state.
pub record CallKeeps (p : Platform) (J : p.State → Type 0) : Type 0 where
  pub connect_keeps : (conf : MysqlConf) (e : p.State) → J e → J (p.connect conf e).1
  pub read_one_keeps : (r : p.ResultSet) (e : p.State) → J e → J (p.read_one r e).1
  pub generate_uuid_keeps : (e : p.State) → J e → J (p.generate_uuid e).1
  pub hgetall_keeps : (key : Bytes) (e : p.State) → J e → J (p.hgetall key e).1
  pub expire_keeps : (key : Bytes) (sec : ℕ) (e : p.State) → J e → J (p.expire key sec e).1
  pub send_keeps : (res : Response) (e : p.State) → J e → J (p.send res e).1
  pub send_ine_keeps : (res : Response) (e : p.State) → J e → J (p.send_ine res e).1
  -- the one command by which a handler writes
  pub hmset_keeps :
      (mbuid : ℕ) (e : p.State)
      → J e
      → J (p.hmset (gen_session_key mbuid) ((codes "mbuid", to_string mbuid) ∷ []) e).1

pub record OuterKeeps (p : Platform) (J : p.State → Type 0) : Type 0 where
  pub calls : CallKeeps p J
  pub query_keeps : (conn : p.Conn) (sql : Bytes) (e : p.State) → J e → J (p.query conn sql e).1

-- The calls of the libraries stop in no other faults than these.
pub record CallStops (p : Platform) (may : Fault → Type 0) : Type 0 where
  pub connect_stops : (conf : MysqlConf) (e : p.State) → StopsIn may (p.connect conf e).0
  pub generate_uuid_stops : (e : p.State) → StopsIn may (p.generate_uuid e).0
  pub hgetall_stops : (key : Bytes) (e : p.State) → StopsIn may (p.hgetall key e).0
  pub expire_stops : (key : Bytes) (sec : ℕ) (e : p.State) → StopsIn may (p.expire key sec e).0
  pub send_stops : (res : Response) (e : p.State) → StopsIn may (p.send res e).0
  pub send_ine_stops : (res : Response) (e : p.State) → StopsIn may (p.send_ine res e).0
  pub hmset_stops :
      (key : Bytes) (fields : Fields) (e : p.State) → StopsIn may (p.hmset key fields e).0
  pub string_at_stops : (jv : p.Json) (key : Bytes) → StopsIn may (p.string_at jv key)

-- Conditions on the outer state, on the keep-alive and the version of the request, on the
-- connection manager, on the connections that it hands out and on the responses that were handed
-- over, and the faults that are allowed. The fields of the connection manager.
pub record Manager (p : Platform) : Type 0 where
  pub pools : List (List (ConnPtr p))
  pub opts : List MysqlConf
  pub loaders : List (Loader p)
  pub next_target : ℕ

abbrev pub manager_of : {p : Platform} → Process p → Manager p
manager_of s = record {
  pools = s.pools;
  opts = s.opts;
  loaders = s.loaders;
  next_target = s.next_target;
}

pub record Setting (p : Platform) : Type 1 where
  pub outside : p.State → Type 0
  pub served : Bool → ℕ → Type 0
  pub manager : Manager p → Type 0
  pub usable : ConnPtr p → Type 0
  pub log : List Response → Type 0
  pub may : Fault → Type 0

-- What a setting asks of the process, whose Redis client is open.
abbrev pub Outer : (p : Platform) → Setting p → Contract (Process p)
Outer p W = record {
  holds = λ s. W.outside s.ext × (s.redis_open ≡ true) × W.manager (manager_of s) × W.log s.sent;
  may = W.may;
}

module _ {p : Platform} (W : Setting p) where
  -- A value that an asynchronous call gave without an error, in a state of the setting.
  pub record Given {A : Type 0} (op : p.State → Reply A × p.State) (a : A) : Type 0 where
    pub before : p.State
    pub held : W.outside before
    pub no_error : (op before).0.ec ≡ 0
    pub same : a ≡ (op before).0.result

  -- A resultset that a query gave.
  abbrev pub Asked : Bytes → p.ResultSet → Type 0
  Asked sql result = (c : p.Conn) × Given (p.query c sql) result

-- What the handlers need of a setting.
pub record Allows (p : Platform) (W : Setting p) : Type 0 where
  pub calls_stop : CallStops p W.may
  -- a connection, and the null pointer, which a failed attempt gives
  pub some_usable : (c : p.Conn) → W.usable (some c)
  pub failed_usable :
      (conf : MysqlConf) (e : p.State) (x : Exn)
      → W.outside e
      → (p.connect conf e).0 ≡ raise x
      → is_std x ≡ true
      → W.usable none
  pub null_connection_may : W.usable none → W.may Fault.null_connection
  -- a row that was found, and the row that tells whether a player exists
  pub found_row :
      (r : p.ResultSet) (row : ReadOne p.ResultSet p.Field)
      → Given W (p.read_one r) row
      → row.found ≡ true
      → row.row ≡ []
      → W.may Fault.empty_row
  pub exists_row :
      (my_value : Bytes) (r : p.ResultSet) (row : ReadOne p.ResultSet p.Field)
      → Asked W (player_exists_sql my_value) r
      → Given W (p.read_one r) row
      → row.row ≡ []
      → W.may Fault.empty_row
  pub pool_there :
      (m : Manager p) → W.manager m → (ltb 0 (length m.pools) ≡ true) ⊎ W.may Fault.assertion
  pub target_there :
      (m : Manager p) → W.manager m → (ltb 0 (length m.opts) ≡ true) ⊎ W.may Fault.assertion
  pub popped :
      (m : Manager p) (conn : ConnPtr p) (rest : List (ConnPtr p))
      → get_elem? m.pools 0 ≡ some (conn ∷ rest)
      → W.manager m
      → W.usable conn × W.manager (record m { pools = set m.pools 0 rest })
  pub bad_request_logged :
      (keep_alive : Bool) (version : ℕ)
      → W.served keep_alive version
      → (why : Bytes) (l : List Response) → W.log l
      → W.log (get_bad_request p keep_alive version why ∷ l)
  pub server_error_logged :
      (keep_alive : Bool) (version : ℕ)
      → W.served keep_alive version
      → (why : Bytes) (l : List Response) → W.log l
      → W.log (get_server_error p keep_alive version why ∷ l)
  pub rsponse_logged :
      (msg : Bytes) (keep_alive : Bool) (version : ℕ)
      → W.served keep_alive version
      → (body_msg : Bytes) (l : List Response) → W.log l
      → W.log (get_rsponse p msg keep_alive version body_msg ∷ l)

pub record Calls (p : Platform) (W : Setting p) : Type 0 where
  pub keeps : CallKeeps p W.outside
  pub allows : Allows p W

pub record Queries (p : Platform) (W : Setting p) : Type 0 where
  pub calls : Calls p W
  pub query_keeps :
      (conn : p.Conn) (sql : Bytes) (e : p.State) → W.outside e → W.outside (p.query conn sql e).1

pub null_pointer :
    {p : Platform} {W : Setting p} (allows : Allows p W) (conn : ConnPtr p)
    → W.usable conn
    → conn ≡ none
    → W.may Fault.null_connection
null_pointer {W} allows conn usable e = allows.null_connection_may (subst W.usable e usable)

pub Keeps-call :
    {p : Platform} (W : Setting p) {A : Type 0} (m : M p.State A)
    → ((e : p.State) → W.outside e → W.outside (m e).1)
    → ((e : p.State) → StopsIn W.may (m e).0)
    → Keeps (Outer p W) (call m)
Keeps-call W m k stops = record {
  at = λ s (h, is_open, there, logged). ((k s.ext h, is_open, there, logged), stops s.ext);
}
