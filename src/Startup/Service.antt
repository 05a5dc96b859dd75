-- ===== src/Startup/Service.antt =====
-- The server after the start-up, at work.
use mlnserver_web.Prelude.{ℕ, Bool, true, ◌≡◌, ◌∙◌, Bytes}
use mlnserver_web.Outcome.{ok}
use mlnserver_web.Outcome.Keeps.{StopsIn}
use mlnserver_web.Conf.{MysqlConf}
use mlnserver_web.Platform.{Platform, Fields}
use mlnserver_web.Process.{Process}
use mlnserver_web.Http.Answers.{SenderReturns}
use mlnserver_web.Http.Query.Keeps.{EnoughRounds}
use mlnserver_web.Mysql.{get_conn, connect_or_null}
use mlnserver_web.Mysql.Steps.{IsFresh}
use mlnserver_web.Mysql.Pools.{get_conn_of_Inv, create_conn_at}
use mlnserver_web.Requests.{Route, handler}
use mlnserver_web.Requests.Faults.{IsKnownFault, CallsEnd, handler-StopsIn}
use mlnserver_web.Requests.Replies.{PayloadLaws}
use mlnserver_web.Requests.Health.{DatabaseUp, Serving-healthy}
use mlnserver_web.Requests.Answered.{MayEscape, IsAnswered, handler-IsAnswered}
use mlnserver_web.Requests.Serving.{Serving, InService-IsReady, Serving-InService}
use mlnserver_web.Startup.{Server, StartupSource, prepare}
use mlnserver_web.Startup.Ready.{prepare-InService}

-- What a state offers to the requests: `getConn(0)` attempts a connection with the configuration, and
-- a request of any route stops in one of the two known faults, if it stops.
pub record Offers (p : Platform) (rounds : ℕ) (s : Process p) (conf : MysqlConf) : Type 0 where
  pub connects : get_conn p 0 s ≡ connect_or_null p conf s
  pub stops_known :
      (route : Route) (header : Fields) (body : Bytes) (keep_alive : Bool) (version : ℕ)
      → StopsIn IsKnownFault (handler p rounds route header body keep_alive version s).0

module _ (p : Platform) (src : StartupSource p) where
  -- Where the calls of the libraries return or throw, a read that finds a row takes it off, and the
  -- rounds are more than what is pending of any resultset: if the preparation of a server without
  -- targets returned and its Redis client is open, then in every state that requests of any route,
  -- the loader threads and other callers of the manager reach from there, in any order,
  -- `getConn(0)` attempts a connection with the configuration that was loaded, and a request
  -- returns, throws, or hits a null connection or a first row without a field.
  pub prepare-Serving :
      (rounds : ℕ) (s t : Server p) (u : Process p)
      → CallsEnd p
      → EnoughRounds p rounds
      → IsFresh p s.process
      → prepare p src rounds s ≡ (ok tt, t)
      → t.process.redis_open ≡ true
      → Serving p rounds t.process u
      → Offers p rounds u t.config.mysql_conf
  prepare-Serving rounds s t u calls enough fresh h is_open at_work =
      let now = Serving-InService (prepare-InService p src rounds s t fresh h is_open) at_work in
      record {
        connects = get_conn_of_Inv p 0 u now.inv ∙ create_conn_at p 0 u now.configured;
        stops_known = λ route header body keep_alive version.
            (handler-StopsIn calls rounds route header body keep_alive version u enough
              (InService-IsReady now)).0;
      }

  -- Where handing over a response returns, `prepare_payload` sets the length alone, the calls of
  -- the libraries return or throw, a read that finds a row takes it off, and the rounds are more
  -- than what is pending of any resultset: if the preparation of a server without targets returned,
  -- its Redis client is open and the database is up, then in every state that requests of any
  -- route, the loader threads and other callers of the manager reach from there, in any order, a
  -- request returns with exactly one response more, a reply to it, or throws with none. No
  -- exception leaves the handler of /alive, none but those that are no std::exception that of
  -- /account/auth_pass, and none but those and an exception that Redis answered the look-up of the
  -- session with those of /player/value_set and /player/value_get.
  pub prepare-IsAnswered :
      {Up : p.State → Type 0} (rounds : ℕ) (s t : Server p) (u : Process p) (route : Route)
      (header : Fields) (body : Bytes) (keep_alive : Bool) (version : ℕ)
      → SenderReturns p
      → PayloadLaws p
      → CallsEnd p
      → EnoughRounds p rounds
      → DatabaseUp p Up
      → IsFresh p s.process
      → prepare p src rounds s ≡ (ok tt, t)
      → t.process.redis_open ≡ true
      → Up t.process.ext
      → Serving p rounds t.process u
      → IsAnswered p keep_alive version u.sent
          (MayEscape p route header u)
          (handler p rounds route header body keep_alive version u)
  prepare-IsAnswered rounds s t u route header body keep_alive version sender payload calls enough
        up fresh h is_open held at_work =
      let (still_up, now) =
        Serving-healthy calls enough up held (prepare-InService p src rounds s t fresh h is_open)
          at_work in
      handler-IsAnswered rounds route header body keep_alive version u sender payload calls enough
        up still_up now
