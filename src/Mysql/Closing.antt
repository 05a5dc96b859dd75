-- ===== src/Mysql/Closing.antt =====
-- What the destructor of the manager closes.
use mlnserver_web.Prelude.{◌≡◌, refl, List, [], ◌∷◌, All}
use mlnserver_web.Outcome.{ok, continue}
use mlnserver_web.Platform.{Platform}
use mlnserver_web.Process.{Process, ConnPtr}
use mlnserver_web.Mysql.{close_pool, close_pools, destroy}
use mlnserver_web.Mysql.Steps.{IsFresh, Reach}
use mlnserver_web.Mysql.Pools.{Reach-Inv}

module _ (p : Platform) where
  close_pools_empty :
      (pools : List (List (ConnPtr p))) (s : Process p)
      → All (λ pool. pool ≡ []) pools
      → close_pools p pools s ≡ (ok tt, s)
  unfolding close_pools close_pool
  close_pools_empty [] s h = refl
  close_pools_empty (pool ∷ pools) s (nothing, h) = rw nothing (close_pools_empty pools s h)

  -- In every state that callers and loader threads reach, the destructor of the manager returns and
  -- closes no connection: it drops the pools and leaves all else, the outer state included.
  pub destroy_reached :
      {s t : Process p} → IsFresh p s → Reach p s t → destroy p t ≡ (ok tt, record t { pools = [] })
  unfolding destroy
  destroy_reached {t} fresh r =
      rw (close_pools_empty t.pools t (Reach-Inv p fresh r).empty_pools, continue) refl
