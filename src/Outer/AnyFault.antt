-- ===== src/Outer/AnyFault.antt =====
-- Settings that allow every fault, and the conditions that ask for nothing.
use mlnserver_web.Prelude.{◌≡◌, inr, true}
use mlnserver_web.Outcome.{M}
use mlnserver_web.Outcome.Keeps.{StopsIn-any, Keeps}
use mlnserver_web.Platform.{Platform}
use mlnserver_web.Process.{Process}
use mlnserver_web.Outer.{CallKeeps, OuterKeeps, CallStops, Setting, Outer, Allows, Calls, Queries}

-- A condition on the outer state alone, with every fault allowed.
abbrev pub any_fault : {p : Platform} → (p.State → Type 0) → Setting p
any_fault J = record {
  outside = J;
  served = λ keep_alive version. Unit {0};
  manager = λ m. Unit {0};
  usable = λ conn. Unit {0};
  log = λ l. Unit {0};
  may = λ f. Unit {0};
}

-- The conditions that ask for nothing.
pub no_condition : {p : Platform} → CallKeeps p (λ e. Unit {0})
no_condition = record {
  connect_keeps = λ conf e h. h;
  read_one_keeps = λ r e h. h;
  generate_uuid_keeps = λ e h. h;
  hgetall_keeps = λ key e h. h;
  expire_keeps = λ key sec e h. h;
  send_keeps = λ res e h. h;
  send_ine_keeps = λ res e h. h;
  hmset_keeps = λ mbuid e h. h;
}

pub CallStops-any : {p : Platform} → CallStops p (λ f. Unit {0})
CallStops-any = record {
  connect_stops = λ conf e. StopsIn-any _;
  generate_uuid_stops = λ e. StopsIn-any _;
  hgetall_stops = λ key e. StopsIn-any _;
  expire_stops = λ key sec e. StopsIn-any _;
  send_stops = λ res e. StopsIn-any _;
  send_ine_stops = λ res e. StopsIn-any _;
  hmset_stops = λ key fields e. StopsIn-any _;
  string_at_stops = λ jv key. StopsIn-any _;
}

module _ {p : Platform} {J : p.State → Type 0} where
  any_fault-Allows : Allows p (any_fault J)
  any_fault-Allows = record {
    calls_stop = CallStops-any;
    some_usable = λ c. tt;
    failed_usable = λ conf e x _ _ _. tt;
    null_connection_may = λ _. tt;
    found_row = λ r row _ _ _. tt;
    exists_row = λ my_value r row _ _ _. tt;
    pool_there = λ m _. inr tt;
    target_there = λ m _. inr tt;
    popped = λ m conn rest _ _. (tt, tt);
    bad_request_logged = λ _ _ _ _ l _. tt;
    server_error_logged = λ _ _ _ _ l _. tt;
    rsponse_logged = λ _ _ _ _ _ l _. tt;
  }

  pub any_fault-Calls : CallKeeps p J → Calls p (any_fault J)
  any_fault-Calls calls = record { keeps = calls; allows = any_fault-Allows }

  pub any_fault-Queries : OuterKeeps p J → Queries p (any_fault J)
  any_fault-Queries outer = record {
    calls = any_fault-Calls outer.calls;
    query_keeps = outer.query_keeps;
  }

-- Of such a setting, what a call keeps.
pub kept_by :
    {p : Platform} (J : p.State → Type 0) {A : Type 0} {m : M (Process p) A}
    → Keeps (Outer p (any_fault J)) m
    → (s : Process p) → J s.ext × (s.redis_open ≡ true)
    → J (m s).1.ext × ((m s).1.redis_open ≡ true)
kept_by J k s (h, is_open) =
    let ((after, still, _, _), _) = k.at s (h, is_open, tt, tt) in (after, still)
