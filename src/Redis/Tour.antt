-- ===== src/Redis/Tour.antt =====
-- `RedisConnector::testRedis` of mlnserver/redisConnector.cpp, which nothing calls: a tour of redis++
-- against a server on the same machine. What it prints is left out; a container without an order is
-- listed as it is written.
pub mod Order
use mlnserver_web.Prelude.{
  ℕ, ◌-◌, ℤ, pos, negsuc, Bool, true, false, List, [], ◌∷◌, ◌++◌, Bytes, codes,
}
use mlnserver_web.Outcome.{Exn, M, pure, throw, ◌>>◌, catching}
use mlnserver_web.Platform.{Fields}

-- The bounds of a range of scores, in tenths.
pub data Interval : Type 0 where
  unbounded : Interval
  closed left_open : ℕ → ℕ → Interval

-- A command of Redis with its arguments; a score is in tenths.
pub data Command : Type 0 where
  set : Bytes → Bytes → Command
  get hgetall smembers incr : Bytes → Command
  rpush hmget sadd : Bytes → List Bytes → Command
  lrange : Bytes → ℤ → ℤ → Command
  hset : Bytes → Bytes → Bytes → Command
  hmset : Bytes → Fields → Command
  sismember rename : Bytes → Bytes → Command
  zadd : Bytes → List (Bytes × ℕ) → Command
  zrangebyscore : Bytes → Interval → Bool → Command
  eval : Bytes → List Bytes → List Bytes → Command
  mget generic : List Bytes → Command

-- The types that a reply is parsed as.
pub data ReplyType : Type 0 where
  bool optional_string void long_long strings optional_strings : ReplyType

pub data Action : Type 0 where
  -- a client, a client of a cluster
  redis redis_cluster : Bytes → Action
  -- a command, of the client and of the cluster's client
  send send_cluster : Command → Action
  -- a pipeline and a transaction, with `exec`, and a reply of either
  pipeline transaction : List Command → Action
  pipe_reply tx_reply : ReplyType → ℕ → Action

-- What each section of the function asks for.
abbrev letters : List Bytes
letters = codes "a" ∷ codes "b" ∷ codes "c" ∷ []

abbrev strings_and_lists : List Action
strings_and_lists =
    redis (codes "tcp://127.0.0.1:6379")
    ∷ send (set (codes "key") (codes "val"))
    ∷ send (get (codes "key"))
    ∷ send (rpush (codes "list") letters)
    ∷ send (rpush (codes "list") letters)
    ∷ send (lrange (codes "list") (pos 0) (negsuc 0))
    ∷ []

abbrev hashes : List Action
hashes =
    send (hset (codes "hash") (codes "field") (codes "val"))
    ∷ send (hset (codes "hash") (codes "field") (codes "val"))
    ∷ send (
        hmset (codes "hash") ((codes "field1", codes "val1") ∷ (codes "field2", codes "val2") ∷ []))
    ∷ send (hgetall (codes "hash"))
    ∷ send (hmget (codes "hash") (codes "field1" ∷ codes "field2" ∷ []))
    ∷ []

abbrev sets : List Action
sets =
    send (sadd (codes "set") (codes "m1" ∷ []))
    ∷ send (sadd (codes "set") (codes "m2" ∷ codes "m3" ∷ []))
    ∷ send (sadd (codes "set") (codes "m2" ∷ codes "m3" ∷ []))
    ∷ send (smembers (codes "set"))
    ∷ send (sismember (codes "set") (codes "m1"))
    ∷ []

abbrev sorted_sets : List Action
sorted_sets =
    send (zadd (codes "sorted_set") ((codes "m1", 13) ∷ []))
    ∷ send (zadd (codes "sorted_set") ((codes "m2", 23) ∷ (codes "m3", 45) ∷ []))
    ∷ send (zrangebyscore (codes "sorted_set") unbounded true)
    ∷ send (zrangebyscore (codes "sorted_set") (closed 15 34) false)
    ∷ send (zrangebyscore (codes "sorted_set") (left_open 15 34) true)
    ∷ []

abbrev mset_with_ttl_script : Bytes
mset_with_ttl_script =
    codes "\n        local len = #KEYS\n"
    ++ (codes "        if (len == 0 or len + 1 ~= #ARGV) then return 0 end\n"
        ++ (codes "        local ttl = tonumber(ARGV[len + 1])\n"
            ++ (codes "        if (not ttl or ttl <= 0) then return 0 end\n"
                ++ (codes
                      "        for i = 1, len do redis.call(\"SET\", KEYS[i], ARGV[i], \"EX\", ttl) end\n"
                    ++ codes "        return 1\n    "))))

abbrev scripts : List Action
scripts =
    send (eval (codes "return 1") [] [])
    ∷ send (eval (codes "return {ARGV[1], ARGV[2]}") [] (codes "1" ∷ codes "2" ∷ []))
    ∷ send (
        eval mset_with_ttl_script (codes "key1" ∷ codes "key2" ∷ codes "key3" ∷ [])
          (codes "val1" ∷ codes "val2" ∷ codes "val3" ∷ codes "60" ∷ []))
    ∷ []

abbrev pipelined : List Action
pipelined =
    pipeline (
      set (codes "key") (codes "value")
      ∷ get (codes "key")
      ∷ rename (codes "key") (codes "new-key")
      ∷ rpush (codes "list") letters
      ∷ lrange (codes "list") (pos 0) (negsuc 0)
      ∷ [])
    ∷ pipe_reply bool 0
    ∷ pipe_reply optional_string 1
    ∷ pipe_reply void 2
    ∷ pipe_reply long_long 3
    ∷ pipe_reply strings 4
    ∷ []

abbrev transacted : List Action
transacted =
    transaction
      (incr (codes "num0") ∷ incr (codes "num1") ∷ mget (codes "num0" ∷ codes "num1" ∷ []) ∷ [])
    ∷ tx_reply long_long 0
    ∷ tx_reply long_long 1
    ∷ tx_reply optional_strings 2
    ∷ []

abbrev generics : List Action
generics =
    send (generic (codes "client" ∷ codes "getname" ∷ []))
    ∷ send (generic (codes "client" ∷ codes "getname" ∷ []))
    ∷ send (generic (codes "sort" ∷ codes "list" ∷ codes "ALPHA" ∷ []))
    ∷ send (generic (codes "sort" ∷ codes "list" ∷ codes "ALPHA" ∷ []))
    ∷ []

abbrev clustered : List Action
clustered =
    redis_cluster (codes "tcp://127.0.0.1:7000")
    ∷ send_cluster (set (codes "key") (codes "value"))
    ∷ send_cluster (get (codes "key"))
    ∷ send_cluster (set (codes "key{tag}1") (codes "val1"))
    ∷ send_cluster (set (codes "key{tag}2") (codes "val2"))
    ∷ send_cluster (set (codes "key{tag}3") (codes "val3"))
    ∷ send_cluster (mget (codes "key{tag}1" ∷ codes "key{tag}2" ∷ codes "key{tag}3" ∷ []))
    ∷ []

-- From the pipeline on.
abbrev pub batches_and_cluster : List Action
batches_and_cluster = pipelined ++ (transacted ++ (generics ++ clustered))

abbrev pub tour : List Action
tour = strings_and_lists ++ (hashes ++ (sets ++ (sorted_sets ++ (scripts ++ batches_and_cluster))))

module _ {S : Type 0} (act : Action → M S (Unit {0})) where
  unfoldable pub act_all : List Action → M S (Unit {0})
  act_all [] = pure tt
  act_all (a ∷ rest) = act a >> act_all rest

  -- `catch (const Error&)`, with an empty body.
  abbrev pub ignore_error : Exn → M S (Unit {0})
  ignore_error (Exn.timeout_error msg) = pure tt
  ignore_error (Exn.redis_error msg) = pure tt
  ignore_error e = throw e

  unfoldable pub test_redis : M S (Unit {0})
  unfolding act_all
  test_redis = catching (act_all tour) ignore_error
