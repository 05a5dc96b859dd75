-- ===== src/Redis/Laws.antt =====
-- What the code relies on of redis++ and Redis, and what the connector then promises: fields that
-- were stored are found again.
use mlnserver_web.Prelude.{
  ℕ, ◌↔◌, ◌≡◌, refl, ◌∙◌, ap, sym, Bool, true, false, [], ◌∷◌, Bytes, arith, if◌then◌else◌,
}
use mlnserver_web.Outcome.{Fault, ok, check-eq-ok, continue, continue-eq-ok}
use mlnserver_web.Platform.{Platform, Fields}
use mlnserver_web.Process.{Process, call}
use mlnserver_web.Redis.Containers.{
  find, overwritten, is_empty, insert_all, find-insert_all, is_empty-insert_all,
}
use mlnserver_web.Conf.{RedisConf}
use mlnserver_web.Redis.{
  init, start_consumer, connection_options, use_redis, expire_if_set, hset_fields, hget_all,
}

-- The commands that returned did what Redis documents. `hash e key` is what the hash at `key` holds.
pub record RedisLaws (p : Platform) : Type 0 where
  pub hash : p.State → Bytes → Fields
  pub hmset_sets :
      (key : Bytes) (fields : Fields) (e : p.State)
      → (p.hmset key fields e).0 ≡ ok tt
      → (field : Bytes)
      → find field (hash (p.hmset key fields e).1 key)
        ≡ overwritten (find field fields) (find field (hash e key))
  pub hgetall_gets :
      (key : Bytes) (e : p.State) (found : Fields)
      → (p.hgetall key e).0 ≡ ok found
      → found ≡ hash e key

is_empty-eq-true :
    (found : Fields) → ((if is_empty found then false else true) ≡ false) ↔ (found ≡ [])
is_empty-eq-true [] = ((λ _. refl), (λ _. refl))
is_empty-eq-true (x ∷ found) = ((λ e. cc), (λ e. cc))

use_redis-ok :
    {p : Platform} (s t : Process p) {a : Unit {0}}
    → use_redis p s ≡ (ok a, t)
    → (s.redis_open ≡ true) × (t ≡ s)
unfolding use_redis
use_redis-ok s t h = check-eq-ok s.redis_open Fault.null_redis s t h

module _ {p : Platform} (laws : RedisLaws p) where
  expired-open :
      (key : Bytes) (expire_sec : ℕ) (s : Process p)
      → (expire_if_set p key expire_sec s).1.redis_open ≡ s.redis_open
  unfolding expire_if_set
  expired-open key expire_sec s = ground arith

  -- A store that returned was made over an open client: HMSET left its fields in the hash, and
  -- setting the expiry was the last call.
  pub hset_fields-find :
      (key : Bytes) (fields : Fields) (expire_sec : ℕ) (s t : Process p)
      → hset_fields p key fields expire_sec s ≡ (ok tt, t)
      → (t.redis_open ≡ true)
        × (u : Process p) × (u.redis_open ≡ true)
        × (t ≡ (expire_if_set p key expire_sec u).1)
        × ((field : Bytes)
            → find field (laws.hash u.ext key)
              ≡ overwritten (find field fields) (find field (laws.hash s.ext key)))
  unfolding hset_fields
  hset_fields-find key fields expire_sec s t h =
      let (_, s₁, e₁, h₁) = continue-eq-ok (use_redis p s) _ h in
      let (is_open, same₁) = use_redis-ok s s₁ e₁ in
      let (_, s₂, e₂, h₂) = continue-eq-ok (call (p.hmset key fields) s₁) _ h₁ in
      let same₂ : s₂ ≡ record s { ext = (p.hmset key fields s.ext).1 } =
        sym (ap (λ r. r.1) e₂)
        ∙ ap {B = Process p} (λ q. record q { ext = (p.hmset key fields q.ext).1 }) same₁ in
      let same₃ : t ≡ (expire_if_set p key expire_sec s₂).1 = sym (ap (λ r. r.1) h₂) in
      let returned : (p.hmset key fields s.ext).0 ≡ ok tt =
        ap (λ q. (p.hmset key fields q.ext).0) (sym same₁) ∙ ap (λ r. r.0) e₂ in
      let open₂ : s₂.redis_open ≡ true = ap (λ q. q.redis_open) same₂ ∙ is_open in
      (
        ap (λ q. q.redis_open) same₃ ∙ expired-open key expire_sec s₂ ∙ open₂,
        s₂,
        open₂,
        same₃,
        λ field.
            ap (λ q. find field (laws.hash q.ext key)) same₂
            ∙ laws.hmset_sets key fields s.ext returned field,
      )

  -- A look-up that returned gives what the hash holds, and whether that is anything.
  pub hget_all-find :
      (key : Bytes) (s : Process p) (found : Fields)
      → s.redis_open ≡ true
      → (p.hgetall key s.ext).0 ≡ ok found
      → (b : Bool) × (out : Fields) × ((hget_all p key s).0 ≡ ok (b, out))
        × ((b ≡ false) ↔ (laws.hash s.ext key ≡ []))
        × ((field : Bytes) → find field out ≡ find field (laws.hash s.ext key))
  unfolding hget_all
  hget_all-find key s found is_open h =
      let same = laws.hgetall_gets key s.ext found h in
      (
        (if is_empty (insert_all [] found) then false else true),
        insert_all [] found,
        rw (is_open, h),
        rw (is_empty-insert_all found, ← same) (is_empty-eq-true found),
        λ field. find-insert_all field found ∙ ap (find field) same,
      )

opened_by :
    {p : Platform} (conf : RedisConf) (s t : Process p) (b : Bool)
    → s.redis_open ≡ b
    → (if b
        then (ok tt, s)
        else continue
            (call (p.open_redis (connection_options conf)) s)
            (λ _. start_consumer p conf))
      ≡ (ok tt, t)
    → t.redis_open ≡ true
unfolding start_consumer
opened_by conf s t true is_open h = sym (ap (λ r. r.1.redis_open) h) ∙ is_open
opened_by {p} conf s t false shut h =
    let (_, s', _, h') =
      continue-eq-ok (call (p.open_redis (connection_options conf)) s) (λ _. start_consumer p conf)
        h in
    sym (ap (λ r. r.1.redis_open) h')

init-opens :
    {p : Platform} (conf : RedisConf) (s t : Process p)
    → init p conf s ≡ (ok tt, t)
    → t.redis_open ≡ true
unfolding init
init-opens conf s t h = opened_by conf s t s.redis_open refl h

-- After a call of `init` that returned, another one changes nothing, whatever configuration it is
-- given: the first client and the first consumer thread stay the only ones.
pub init-again :
    {p : Platform} (conf conf' : RedisConf) (s t : Process p)
    → init p conf s ≡ (ok tt, t)
    → init p conf' t ≡ (ok tt, t)
unfolding init
init-again conf conf' s t h = rw (init-opens conf s t h) refl
