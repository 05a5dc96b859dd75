-- ===== src/Requests/Health.antt =====
-- While the database answers, no request hits undefined behaviour.
use mlnserver_web.Prelude.{
  ℕ, Bool, true, ◌≡◌, ◌≢◌, ◌<◌, refl, ap, sym, ◌∙◌, inl, inr, none, some, [], All, Bytes, get_elem?,
  length,
}
use mathlib.Core.Path.{subst}
use mlnserver_web.Outcome.{ok}
use mlnserver_web.Outcome.Keeps.{StopsIn}
use mlnserver_web.Conf.{MysqlConf}
use mlnserver_web.Platform.{Platform, Fields, ReadOne}
use mlnserver_web.Process.{Process}
use mlnserver_web.Http.Query.Keeps.{EnoughRounds}
use mlnserver_web.Handlers.Player.{player_exists_sql}
use mlnserver_web.Handlers.Macros.Escapes.{ok_raise}
use mlnserver_web.Outer.{Manager, manager_of, OuterKeeps, Setting, Given, Asked, Queries}
use mlnserver_web.Requests.{Route, handler}
use mlnserver_web.Requests.Faults.{CallsEnd, positive_ltb}
use mlnserver_web.Mysql.Outside.{Step-keeps}
use mlnserver_web.Requests.Manager.{never_popped}
use mlnserver_web.Requests.Serving.{
  InService, InService-IsReady, Serving, Serving-InService, started, managed, handled,
}
use mlnserver_web.Requests.Keeps.{handler-Keeps}

-- What the code relies on of MySQL while it is up, which the calls of a handler leave it: a
-- connection attempt gives a connection, a row that was found has a field, and so has the row that
-- an EXISTS query is answered with.
pub record DatabaseUp (p : Platform) (Up : p.State → Type 0) : Type 0 where
  pub stays_up : OuterKeeps p Up
  pub connects :
      (conf : MysqlConf) (e : p.State) → Up e → (c : p.Conn) × ((p.connect conf e).0 ≡ ok c)
  pub found_row :
      (r : p.ResultSet) (e : p.State)
      → Up e
      → (p.read_one r e).0.ec ≡ 0
      → (p.read_one r e).0.result.found ≡ true
      → (p.read_one r e).0.result.row ≢ []
  pub exists_row :
      (conn : p.Conn) (my_value : Bytes) (e e' : p.State)
      → Up e
      → Up e'
      → let r = (p.query conn (player_exists_sql my_value) e).0 in
        r.ec ≡ 0 → (p.read_one r.result e').0.ec ≡ 0 → (p.read_one r.result e').0.result.row ≢ []

-- The database is up, and the manager is this one.
abbrev healthy : {p : Platform} → (p.State → Type 0) → Manager p → Setting p
healthy Up m = record {
  outside = Up;
  served = λ keep_alive version. Unit {0};
  manager = λ n. n ≡ m;
  usable = λ conn. conn ≢ none;
  log = λ l. Unit {0};
  may = λ f. ⊥;
}

pointer_there : {A : Type 0} (a : A) → some a ≢ none
pointer_there a h = cc

module _ {p : Platform} {Up : p.State → Type 0} (calls : CallsEnd p) (up : DatabaseUp p Up)
    (m : Manager p) (empty : All (λ pool. pool ≡ []) m.pools) (some_pool : 0 < length m.pools)
    (some_target : 0 < length m.opts) where
  found_fields :
      (r : p.ResultSet) (row : ReadOne p.ResultSet p.Field)
      → Given (healthy Up m) (p.read_one r) row
      → row.found ≡ true
      → row.row ≢ []
  found_fields r row given found none_there =
      up.found_row r given.before given.held given.no_error
        (ap (λ k. k.found) (sym given.same) ∙ found) (ap (λ k. k.row) (sym given.same) ∙ none_there)

  exists_fields :
      (my_value : Bytes) (r : p.ResultSet) (row : ReadOne p.ResultSet p.Field)
      → Asked (healthy Up m) (player_exists_sql my_value) r
      → Given (healthy Up m) (p.read_one r) row
      → row.row ≢ []
  exists_fields my_value r row (conn, asked) given none_there =
      let first = p.query conn (player_exists_sql my_value) asked.before in
      let read : (p.read_one first.0.result given.before).0.ec ≡ 0 =
        ap (λ k. (p.read_one k given.before).0.ec) (sym asked.same) ∙ given.no_error in
      up.exists_row conn my_value asked.before given.before asked.held given.held asked.no_error
        read
        (ap (λ k. (p.read_one k given.before).0.result.row) (sym asked.same)
          ∙ ap (λ k. k.row) (sym given.same)
          ∙ none_there)

  healthy-Queries : Queries p (healthy Up m)
  healthy-Queries = record {
    calls = record {
      keeps = up.stays_up.calls;
      allows = record {
        calls_stop = calls;
        some_usable = pointer_there;
        failed_usable =
            λ conf e x held refused _. ok_raise (sym (up.connects conf e held).1 ∙ refused);
        null_connection_may = λ usable. usable refl;
        found_row = found_fields;
        exists_row = exists_fields;
        pool_there =
            λ n same. inl (positive_ltb _ (subst (λ k. 0 < length k.pools) (sym same) some_pool));
        target_there =
            λ n same. inl (positive_ltb _ (subst (λ k. 0 < length k.opts) (sym same) some_target));
        popped = λ n conn rest e same.
            never_popped m.pools conn rest empty (ap (λ k. get_elem? k.pools 0) (sym same) ∙ e);
        bad_request_logged = λ _ _ _ _ l h. h;
        server_error_logged = λ _ _ _ _ l h. h;
        rsponse_logged = λ _ _ _ _ _ l h. h;
      };
    };
    query_keeps = up.stays_up.query_keeps;
  }

-- Where the calls of the libraries return or throw, a read that finds a row takes it off, and the
-- rounds are more than what is pending of any resultset: while the database is up, a request of any
-- route to a server in service, that is one with the target 0, empty pools and an open Redis client,
-- returns or throws and hits no undefined behaviour; the database is up and the server in service
-- behind it.
pub handler-healthy :
    {p : Platform} {Up : p.State → Type 0} {conf : MysqlConf} (rounds : ℕ) (route : Route)
    (header : Fields) (body : Bytes) (keep_alive : Bool) (version : ℕ) (s : Process p)
    → CallsEnd p
    → EnoughRounds p rounds
    → DatabaseUp p Up
    → Up s.ext
    → InService conf s
    → let r = handler p rounds route header body keep_alive version s in
      StopsIn (λ f. ⊥) r.0 × Up r.1.ext × InService conf r.1
handler-healthy rounds route header body keep_alive version s calls enough up held here =
    let ready = InService-IsReady here in
    let ((still_up, _, _, _), stops) =
      (handler-Keeps
          (healthy-Queries calls up (manager_of s) here.inv.empty_pools ready.some_pool
            ready.some_target)
          rounds (inr enough) route header body keep_alive version tt).at
        s (held, here.redis_open, refl, tt) in
    (stops, still_up, Serving-InService here (handled started route header body keep_alive version))

-- A server that is at work stays in service, and the database up.
pub Serving-healthy :
    {p : Platform} {Up : p.State → Type 0} {conf : MysqlConf} {rounds : ℕ} {s t : Process p}
    → CallsEnd p
    → EnoughRounds p rounds
    → DatabaseUp p Up
    → Up s.ext
    → InService conf s
    → Serving p rounds s t
    → Up t.ext × InService conf t
Serving-healthy calls enough up held here started = (held, here)
Serving-healthy {Up} {rounds} calls enough up held here (managed r st) =
    let (before, there) = Serving-healthy calls enough up held here r in
    (
      Step-keeps Up up.stays_up.calls.connect_keeps there.inv st before,
      Serving-InService {rounds = rounds} there (managed started st),
    )
Serving-healthy {rounds} calls enough up held here
      (handled {t} r route header body keep_alive version) =
    let (before, there) = Serving-healthy calls enough up held here r in
    let (_, after, still) =
      handler-healthy rounds route header body keep_alive version t calls enough up before there in
    (after, still)
