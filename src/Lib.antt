-- ===== src/Lib.antt =====
-- A model of mlnserver, the lobby server of this repository: an HTTP server over mlnsdk that keeps
-- accounts in MySQL, by boost::mysql, and sessions in Redis, by redis++. Paths below are relative to
-- the root of the repository.
--
-- A request reaches one of four handlers. The macros of mlnserver/lobbyServerMacros.h frame a handler:
-- with a session, they look the key of the request up in Redis by SessionManager; in each case they
-- run the handler's callback inside mysqlTemplate of mlnserver/lobbyServerUtils.h, which parses the
-- body and turns exceptions into responses. A callback gets a connection from ConnMgr, runs its
-- query, stores a session by RedisConnector, and hands its response to the sender.
--
-- Outcome    How a C++ call ends: a value, an exception of one of the classes that the code tells
--            apart, or a fault (a null pointer, an empty row, a failed assert, std::exit, or a loop
--            that was cut off). A call that changes a state S is `M S A`; `catching` is try and catch.
-- Platform   All that the server calls and does not implement, as functions of a state of their own:
--            boost::mysql, redis++, Boost.JSON, the response's prepare_payload, the sender, uuidxx and
--            utf8; and whether the build defines METABOLOTS_USE_PARAM_CHECKER, as
--            mlnserver/CMakeLists.txt does. No law is built in: what a theorem relies on is a
--            record among its hypotheses
--            (Http.Answers.SenderReturns, Redis.Laws.RedisLaws, Http.Query.Purge.RowLaws,
--            Redis.Consumer.Forever.ConsumerLaws, Handlers.Account.Login.DatabaseRange,
--            Handlers.Account.Database.AccountLaws, Session.Frame.HashFrame,
--            Handlers.Player.Existence.Told.PlayerLaws,
--            StringUtils.Laws.Utf8Laws, Startup.Path.PathLaws, Redis.Overloads.OneField,
--            Requests.Faults.CallsEnd, Http.Query.Keeps.EnoughRounds, Requests.Replies.PayloadLaws,
--            Requests.Health.DatabaseUp). A call may change more than its own effect: what other
--            handlers do meanwhile is part of it.
-- Process    The state of the process: the fields of the singletons ConnMgr, RedisConnector and
--            SessionManager, the two thread-local variables, and the responses that were sent. The
--            two are static variables of a header, so that handleAccount.cpp and handlePlayer.cpp have
--            a pair each; the model has one pair, which Platform.resumed may change at every wait.
-- Number     std::to_string and std::stoull, on the 64-bit range.
-- Conf       The records of mlnserver/confMysql.h, mlnserver/confRedis.h, mlnserver/configuration.h,
--            and the members that are registered with struct_mapping (Orm).
-- Http       mlnserver/lobbyServerUtils.h: the response builders (Build), the wrappers of
--            boost::mysql (Query), and mysqlTemplate (Template).
-- Redis      mlnserver/redisConnector.cpp; Consumer is its ConsumerThreadTask, Tour its testRedis, as
--            the list of the calls. A std::unordered_map is an association list, whose order the code
--            does not use.
-- Session    mlnserver/sessionManager.cpp and mlnserver/sessionManager.h. Changes is what handlers
--            that run at the same time may do to the sessions in Redis, Frame what that asks of each
--            call.
-- Mysql      mlnserver/mysqlConn. Steps has the detached threads of initTarget as a step relation,
--            in which any thread or caller may take the next step. A step is a whole call or one
--            round of a loader; races inside one of these are not modelled.
-- Handlers   mlnserver/lobbyServerMacros.h (Macros), mlnserver/myPacketHandler/handleAccount.cpp
--            (Account) and mlnserver/myPacketHandler/handlePlayer.cpp (Player).
-- StringUtils, PacketChecker, Enums
--            mlnserver/stringUtils.hpp, over the conversions of utf8; mlnserver/packetChecker; and
--            include/enums. A wchar_t has as many bits as convUtf8 is told, 32 on Linux and 16 on
--            Windows; a char is signed.
-- Outer      A Setting: conditions on the outer state, on the connection manager, on the connections
--            that it hands out, on the request and on the responses that were sent, and the faults
--            that are allowed; Allows is what the handlers need of it. The Keeps files of Outcome,
--            Http, Mysql, Redis, Session, Handlers and Requests are about one operation each, in any
--            setting; a theorem about all handlers chooses a setting (AnyFault has those that
--            allow every fault).
-- Requests   The routes as a step relation: the requests of a process one after the other, in any
--            number, while other handlers and Redis change the sessions during the calls and in
--            between. Faults, Health and Answered are about the faults that a request can hit, and
--            Replies about its responses; there, a database that is up is one that gives a connection,
--            a field in each row that is found, and a row to EXISTS (DatabaseUp), and a server in
--            service has its target and an open Redis client (InService). Serving has requests,
--            the loader threads and other callers of ConnMgr in any order.
-- Tables     mlnserver/tableManager.cpp, over the file system, nlohmann::json and struct_mapping as
--            parameters.
-- Startup    mlnserver/main.cpp, mlnserver/lobbyServerCoro.cpp, mlnserver/configuration.cpp and the
--            registration of the handlers, over the file system, struct_mapping and mlnsdk's server.
--            Path is executable_path, over GetModuleFileName; it starts with a buffer of 1024 bytes.
--            Directory is setExecutablePath, on Windows and on Linux. Service is about the server
--            after its preparation, at work.
-- Interfaces, Singletons
--            The namespaces, the macros, the headers of the handlers and the classes, as records of
--            their operations, with the default arguments, and what fills them.
-- Tests      Small platforms of which the laws hold (Demo, Bank), and the theorems at concrete inputs
--            over them.
--
-- Bounds. The loop of purgeResult and the inner loop of ConsumerThreadTask run for a number of
-- rounds, and end in the fault out_of_fuel when it is used up. For purgeResult one round more than
-- the rows that are pending is enough; the loop of the consumer has no end, so no number is. The
-- loop of createPoolFunc runs once for each connection asked for. The loop of executable_path needs
-- one round more than doublings of the buffer; its size stays below 2 ^ 32. Every other loop is over
-- a list.
-- A uint32_t and a uint64_t are natural numbers; the conversions that can wrap, of the Redis port to
-- int and of a char to wchar_t, are written out.
--
-- Not modelled: log lines, what testRedis prints, and the console title of main. By far the most of
-- the repository's lines are copies of other projects (boost_mysql twice, nlohmann, struct_mapping,
-- utf8, uuidxx): the server's calls of them are parameters, and what is in them is not modelled. The
-- server's own code is about 1900 lines, its includes and blank lines counted.
-- A handler gives its thread up where it waits for boost::mysql. What others do meanwhile is the
-- change of the outer state by that call, and Platform.resumed, which says what the two thread-local
-- variables hold where the handler goes on; that others meanwhile change the pools of ConnMgr is not
-- modelled, and the pools are always empty. What two first logins of one user at the same time do to
-- each other is not modelled: Handlers.Account.Database.Alone leaves it out.
-- Time does not pass by itself: the expiry of a Redis key is a change of the outer state.
pub mod Prelude
pub mod Outcome
pub mod Number
pub mod Conf
pub mod Platform
pub mod Process
pub mod Http
pub mod Interfaces
pub mod Redis
pub mod Session
pub mod Mysql
pub mod Handlers
pub mod Tables
pub mod StringUtils
pub mod PacketChecker
pub mod Enums
pub mod Outer
pub mod Startup
pub mod Singletons
pub mod Requests
pub mod Tests
