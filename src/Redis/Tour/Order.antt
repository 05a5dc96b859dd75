-- ===== src/Redis/Tour/Order.antt =====
-- The tour goes through its actions in their order, up to the first that fails.
use mlnserver_web.Prelude.{◌≡◌, refl, ap, List, [], ◌∷◌, ◌++◌}
use mlnserver_web.Outcome.{Exn, Outcome, ok, raise, fault, M, continue, handle}
use mlnserver_web.Redis.Consumer.Forever.{IsRedisEnd, continue-IsRedisEnd}
use mlnserver_web.Redis.Tour.{Action, act_all, ignore_error, tour, test_redis}

module _ {S : Type 0} (act : Action → M S (Unit {0})) where
  -- The actions of a list return, one after the other.
  pub data Ran : S → List Action → S → Type 0 where
    ran : (s : S) → Ran s [] s
    ran_first :
        {s t u : S} {rest : List Action} (a : Action)
        → act a s ≡ (ok tt, t)
        → Ran t rest u
        → Ran s (a ∷ rest) u

  -- A list of actions ran as a whole, or up to one that throws.
  pub data Stops (s : S) (actions : List Action) (r : Outcome (Unit {0}) × S) : Type 0 where
    finished : {t : S} → Ran s actions t → r ≡ (ok tt, t) → Stops s actions r
    failed :
        {t u : S} {e : Exn} (before rest : List Action) (a : Action)
        → actions ≡ before ++ (a ∷ rest)
        → Ran s before t
        → act a t ≡ (raise e, u)
        → r ≡ (raise e, u)
        → Stops s actions r

  module _ (ends : (a : Action) (s : S) → IsRedisEnd (act a s).0) where
    Stops-first :
        {s t : S} {rest : List Action} {r : Outcome (Unit {0}) × S} (a : Action)
        → act a s ≡ (ok tt, t)
        → Stops t rest r
        → Stops s (a ∷ rest) r
    Stops-first a e (finished all h) = finished (ran_first a e all) h
    Stops-first a e (failed before rest b split some_ran thrown h) =
        failed (a ∷ before) rest b (ap (λ l. a ∷ l) split) (ran_first a e some_ran) thrown h

    then-Stops :
        {s : S} {rest : List Action} (a : Action) (k : M S (Unit {0}))
        → ((t : S) → Stops t rest (k t))
        → (r : Outcome (Unit {0}) × S) → act a s ≡ r
        → IsRedisEnd r.0
        → Stops s (a ∷ rest) (continue r (λ _. k))
    then-Stops a k hk (ok x, t) e h = Stops-first a e (hk t)
    then-Stops {s} {rest} a k hk (raise x, t) e h = failed [] rest a refl (ran s) e refl
    then-Stops a k hk (fault f, t) e h = absurd h

    act_all-Stops : (actions : List Action) (s : S) → Stops s actions (act_all act actions s)
    unfolding act_all
    act_all-Stops [] s = finished (ran s) refl
    act_all-Stops (a ∷ rest) s =
        then-Stops a (act_all act rest) (act_all-Stops rest) (act a s) refl (ends a s)

    caught :
        (r : Outcome (Unit {0}) × S) → IsRedisEnd r.0 → handle r (ignore_error act) ≡ (ok tt, r.1)
    caught (ok x, s) h = refl
    caught (raise (Exn.timeout_error msg), s) h = refl
    caught (raise (Exn.redis_error msg), s) h = refl
    caught (raise _, s) h = absurd h
    caught (fault f, s) h = absurd h

    act_all-IsRedisEnd : (actions : List Action) (s : S) → IsRedisEnd (act_all act actions s).0
    unfolding act_all
    act_all-IsRedisEnd [] s = tt
    act_all-IsRedisEnd (a ∷ rest) s =
        continue-IsRedisEnd (act a s) (act_all act rest) (ends a s) (act_all-IsRedisEnd rest)

    -- Where each action ends with a value or an error of redis++: `testRedis` returns, and the
    -- state it leaves is that of its actions run in their order, all of them or up to the first
    -- that throws.
    pub test_redis-Stops :
        (s : S) → (r : Outcome (Unit {0}) × S) × Stops s tour r × (test_redis act s ≡ (ok tt, r.1))
    unfolding test_redis
    test_redis-Stops s = (
      act_all act tour s,
      act_all-Stops tour s,
      caught (act_all act tour s) (act_all-IsRedisEnd tour s),
    )
