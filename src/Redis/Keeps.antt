-- ===== src/Redis/Keeps.antt =====
-- The Redis connector keeps every setting that the outer calls keep.
use mlnserver_web.Prelude.{ℕ, Bool-cases, inl, inr, [], ◌∷◌, Bytes, codes, ◌==◌}
use mlnserver_web.Outcome.{Fault}
use mlnserver_web.Outcome.Keeps.{Keeps, Keeps-bind, Keeps-check, Keeps-pure}
use mlnserver_web.Platform.{Platform}
use mlnserver_web.Process.{call}
use mlnserver_web.Number.{to_string}
use mlnserver_web.Redis.{use_redis, expire_if_set, hset_fields, hget_all}
use mlnserver_web.Session.{gen_session_key}
use mlnserver_web.Outer.{Setting, Calls, Outer, Keeps-call}

module _ {p : Platform} {W : Setting p} (outer : Calls p W) where
  use_redis-Keeps : Keeps (Outer p W) (use_redis p)
  unfolding use_redis
  use_redis-Keeps = record {
    at = λ s h. (Keeps-check {P = Outer p W} s.redis_open Fault.null_redis (inl h.1)).at s h;
  }

  pub expire_if_set-Keeps : (key : Bytes) (sec : ℕ) → Keeps (Outer p W) (expire_if_set p key sec)
  unfolding expire_if_set
  expire_if_set-Keeps key sec = elim (Bool-cases (sec == 0)) [
    | inl never ↦ rw never (Keeps-pure tt)
    | inr later ↦ rw later (
        Keeps-call W (p.expire key sec) (outer.keeps.expire_keeps key sec)
          (outer.allows.calls_stop.expire_stops key sec))
  ]

  -- The session of a user, under its key.
  pub hset_fields-Keeps :
      (mbuid sec : ℕ)
      → Keeps
          (Outer p W)
          (hset_fields p (gen_session_key mbuid) ((codes "mbuid", to_string mbuid) ∷ []) sec)
  unfolding hset_fields
  hset_fields-Keeps mbuid sec = Keeps-bind (use_redis p) _ use_redis-Keeps λ _.
      Keeps-bind (call (p.hmset (gen_session_key mbuid) ((codes "mbuid", to_string mbuid) ∷ []))) _
        (Keeps-call W _ (outer.keeps.hmset_keeps mbuid) (outer.allows.calls_stop.hmset_stops _ _))
        λ _. expire_if_set-Keeps (gen_session_key mbuid) sec

  pub hget_all-Keeps : (key : Bytes) → Keeps (Outer p W) (hget_all p key)
  unfolding hget_all
  hget_all-Keeps key = Keeps-bind (use_redis p) _ use_redis-Keeps λ _.
      Keeps-bind (call (p.hgetall key)) _
        (Keeps-call W (p.hgetall key) (outer.keeps.hgetall_keeps key)
          (outer.allows.calls_stop.hgetall_stops key))
        λ found. Keeps-pure _
