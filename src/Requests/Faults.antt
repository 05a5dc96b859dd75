-- ===== src/Requests/Faults.antt =====
-- Where a request may hit undefined behaviour.
use mlnserver_web.Prelude.{
  ℕ, ◌<◌, Bool, true, ◌≡◌, refl, ◌⊎◌, inl, inr, Bytes, ltb, length, length-set, arith,
}
use mlnserver_web.Outcome.{Fault, Outcome, ok, raise, fault}
use mlnserver_web.Outcome.Keeps.{StopsIn}
use mlnserver_web.Platform.{Platform, Fields}
use mlnserver_web.Process.{Process}
use mlnserver_web.Http.Query.Keeps.{EnoughRounds}
use mlnserver_web.Outer.{CallStops, Setting, Queries}
use mlnserver_web.Outer.AnyFault.{no_condition}
use mlnserver_web.Requests.{Route, handler}
use mlnserver_web.Requests.Keeps.{handler-Keeps}

-- A call through a null connection, and the first field of a row that has none.
abbrev pub IsKnownFault : Fault → Type 0
IsKnownFault f = (f ≡ Fault.null_connection) ⊎ (f ≡ Fault.empty_row)

-- A target was added to the connection manager, and the Redis client is open.
pub record IsReady {p : Platform} (s : Process p) : Type 0 where
  pub redis_open : s.redis_open ≡ true
  pub some_pool : 0 < length s.pools
  pub some_target : 0 < length s.opts

-- The calls of the libraries return or throw.
abbrev pub CallsEnd : Platform → Type 0
CallsEnd p = CallStops p (λ f. ⊥)

StopsIn-never :
    {A : Type 0} (may : Fault → Type 0) (o : Outcome A) → StopsIn (λ f. ⊥) o → StopsIn may o
StopsIn-never may (ok a) h = tt
StopsIn-never may (raise e) h = tt
StopsIn-never may (fault f) h = absurd h

-- There is a pool and a target.
abbrev in_use : (p : Platform) → Setting p
in_use p = record {
  outside = λ e. Unit {0};
  served = λ keep_alive version. Unit {0};
  manager = λ m. (0 < length m.pools) × (0 < length m.opts);
  usable = λ conn. Unit {0};
  log = λ l. Unit {0};
  may = IsKnownFault;
}

pub positive_ltb : (n : ℕ) → 0 < n → ltb 0 n ≡ true
positive_ltb n h = ground arith

module _ {p : Platform} (calls : CallsEnd p) where
  known_stops : CallStops p IsKnownFault
  known_stops = record {
    connect_stops = λ conf e. StopsIn-never _ _ (calls.connect_stops conf e);
    generate_uuid_stops = λ e. StopsIn-never _ _ (calls.generate_uuid_stops e);
    hgetall_stops = λ key e. StopsIn-never _ _ (calls.hgetall_stops key e);
    expire_stops = λ key sec e. StopsIn-never _ _ (calls.expire_stops key sec e);
    send_stops = λ res e. StopsIn-never _ _ (calls.send_stops res e);
    send_ine_stops = λ res e. StopsIn-never _ _ (calls.send_ine_stops res e);
    hmset_stops = λ key fields e. StopsIn-never _ _ (calls.hmset_stops key fields e);
    string_at_stops = λ jv key. StopsIn-never _ _ (calls.string_at_stops jv key);
  }

  in_use-Queries : Queries p (in_use p)
  in_use-Queries = record {
    calls = record {
      keeps = no_condition;
      allows = record {
        calls_stop = known_stops;
        some_usable = λ c. tt;
        failed_usable = λ conf e x _ _ _. tt;
        null_connection_may = λ _. inl refl;
        found_row = λ r row _ _ _. inr refl;
        exists_row = λ my_value r row _ _ _. inr refl;
        pool_there = λ m h. inl (positive_ltb (length m.pools) h.0);
        target_there = λ m h. inl (positive_ltb (length m.opts) h.1);
        popped = λ m conn rest _ (some_pool, some_target).
            (tt, (rw (length-set m.pools 0 rest) some_pool, some_target));
        bad_request_logged = λ _ _ _ _ l h. h;
        server_error_logged = λ _ _ _ _ l h. h;
        rsponse_logged = λ _ _ _ _ _ l h. h;
      };
    };
    query_keeps = λ conn sql e h. h;
  }

  -- Where the calls of the libraries return or throw, a read that finds a row takes it off, and the
  -- rounds are more than what is pending of any resultset: once a target is added and the Redis
  -- client is open, a request of any route returns, throws, or hits one of two faults, a null
  -- connection or a first row without a field; the target and the client are there afterwards too.
  pub handler-StopsIn :
      (rounds : ℕ) (route : Route) (header : Fields) (body : Bytes) (keep_alive : Bool)
      (version : ℕ) (s : Process p)
      → EnoughRounds p rounds
      → IsReady s
      → StopsIn IsKnownFault (handler p rounds route header body keep_alive version s).0
        × IsReady (handler p rounds route header body keep_alive version s).1
  handler-StopsIn rounds route header body keep_alive version s enough ready =
      let ((_, is_open, (pool, target), _), stops) =
        (handler-Keeps in_use-Queries rounds (inr enough) route header body keep_alive version
            tt).at
          s (tt, ready.redis_open, (ready.some_pool, ready.some_target), tt) in
      (stops, record { redis_open = is_open; some_pool = pool; some_target = target })
