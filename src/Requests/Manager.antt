-- ===== src/Requests/Manager.antt =====
-- What a request does to the connection manager.
use mlnserver_web.Prelude.{
  ℕ, Bool, true, ◌≡◌, refl, ap, sym, ◌∙◌, inl, inr, List, [], ◌∷◌, some, All, All-get_elem?, Bytes,
  get_elem?, length, ◌<◌,
}
use mathlib.Core.Path.{subst}
use mlnserver_web.Platform.{Platform, Fields}
use mlnserver_web.Process.{Loader, Process}
use mlnserver_web.Mysql.Pools.{Inv}
use mlnserver_web.Outer.{Manager, manager_of, Setting, Queries}
use mlnserver_web.Outer.AnyFault.{no_condition, CallStops-any}
use mlnserver_web.Requests.{Route, handler}
use mlnserver_web.Requests.Keeps.{handler-Keeps}

-- The manager is this one.
abbrev manager_is : {p : Platform} → Manager p → Setting p
manager_is m = record {
  outside = λ e. Unit {0};
  served = λ keep_alive version. Unit {0};
  manager = λ n. n ≡ m;
  usable = λ conn. Unit {0};
  log = λ l. Unit {0};
  may = λ f. Unit {0};
}

pub never_popped :
    {A Q : Type 0} (pools : List (List A)) (conn : A) (rest : List A)
    → All (λ pool. pool ≡ []) pools
    → get_elem? pools 0 ≡ some (conn ∷ rest)
    → Q
never_popped pools conn rest empty e =
    let same : conn ∷ rest ≡ [] = All-get_elem? (λ pool. pool ≡ []) pools 0 _ empty e in cc

module _ {p : Platform} (m : Manager p) (empty : All (λ pool. pool ≡ []) m.pools) where
  manager_is-Queries : Queries p (manager_is m)
  manager_is-Queries = record {
    calls = record {
      keeps = no_condition;
      allows = record {
        calls_stop = CallStops-any;
        some_usable = λ c. tt;
        failed_usable = λ conf e x _ _ _. tt;
        null_connection_may = λ _. tt;
        found_row = λ r row _ _ _. tt;
        exists_row = λ my_value r row _ _ _. tt;
        pool_there = λ n _. inr tt;
        target_there = λ n _. inr tt;
        popped = λ n conn rest e same.
            never_popped m.pools conn rest empty (ap (λ k. get_elem? k.pools 0) (sym same) ∙ e);
        bad_request_logged = λ _ _ _ _ l h. h;
        server_error_logged = λ _ _ _ _ l h. h;
        rsponse_logged = λ _ _ _ _ _ l h. h;
      };
    };
    query_keeps = λ conn sql e h. h;
  }

pub same_manager-Inv :
    {p : Platform} {s t : Process p} → manager_of t ≡ manager_of s → Inv p s → Inv p t
same_manager-Inv {p} {s} {t} same inv = record {
  pools_count =
      ap (λ m. length m.pools) same ∙ inv.pools_count ∙ ap (λ m. m.next_target) (sym same);
  opts_count = ap (λ m. length m.opts) same ∙ inv.opts_count ∙ ap (λ m. m.next_target) (sym same);
  empty_pools = subst (λ m. All (λ pool. pool ≡ []) m.pools) (sym same) inv.empty_pools;
  loader_targets =
      subst (λ m. All (λ (l : Loader p). l.target < m.next_target) m.loaders) (sym same)
        inv.loader_targets;
}

-- Where the pools of the manager are empty and the Redis client is open, a request leaves both so.
pub handler-manager :
    {p : Platform} (rounds : ℕ) (route : Route) (header : Fields) (body : Bytes) (keep_alive : Bool)
    (version : ℕ) (s : Process p)
    → Inv p s
    → s.redis_open ≡ true
    → let t = (handler p rounds route header body keep_alive version s).1 in
      (manager_of t ≡ manager_of s) × (t.redis_open ≡ true)
handler-manager rounds route header body keep_alive version s inv is_open =
    let ((_, still, same, _), _) =
      (handler-Keeps (manager_is-Queries (manager_of s) inv.empty_pools) rounds (inl tt) route
          header body keep_alive version tt).at
        s (tt, is_open, refl, tt) in
    (same, still)
