-- ===== src/Redis/Overloads.antt =====
-- The two overloads of `RedisConnector::hset`.
use mlnserver_web.Prelude.{ℕ, ◌≡◌, refl, Bool-cases, inl, inr, [], ◌∷◌, Bytes}
use mlnserver_web.Platform.{Platform}
use mlnserver_web.Process.{Process}
use mlnserver_web.Redis.{use_redis, hset, hset_fields}

-- What the code relies on of Redis: HSET and HMSET do the same with one field.
pub record OneField (p : Platform) : Type 0 where
  pub hset_hmset :
      (key field value : Bytes) (e : p.State)
      → p.hset key field value e ≡ p.hmset key ((field, value) ∷ []) e

-- Where HSET and HMSET do the same with one field, so do the two overloads of `hset`, whatever the
-- expiry and the state, a client that is not open included.
pub hset-eq-hset_fields :
    {p : Platform} (law : OneField p) (key field value : Bytes) (expire_sec : ℕ) (s : Process p)
    → hset p key field value expire_sec s ≡ hset_fields p key ((field, value) ∷ []) expire_sec s
unfolding hset hset_fields use_redis
hset-eq-hset_fields law key field value expire_sec s = elim (Bool-cases s.redis_open) [
  | inl is_open ↦ rw (is_open, law.hset_hmset key field value s.ext) refl
  | inr closed ↦ rw closed refl
]
