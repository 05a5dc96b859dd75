-- ===== src/Requests/Sessions.antt =====
-- What the requests of a process change in Redis, while other handlers run.
use mlnserver_web.Prelude.{inl, ◌≡◌, ◌∙◌, true}
use mlnserver_web.Platform.{Platform}
use mlnserver_web.Process.{Process}
use mlnserver_web.Redis.Laws.{RedisLaws}
use mlnserver_web.Session.Changes.{Hashes, ChangeLaws}
use mlnserver_web.Session.Frame.{HashFrame, OnHashes-OuterKeeps}
use mlnserver_web.Outer.{OuterKeeps}
use mlnserver_web.Outer.AnyFault.{any_fault-Queries, kept_by}
use mlnserver_web.Requests.Keeps.{handler-Keeps}
use mlnserver_web.Requests.{Serves, serves, Lives, request, meanwhile, Lived, born, lived_next}

-- Every request keeps what the outer calls keep.
Serves-keeps :
    {p : Platform} (J : p.State → Type 0) {s t : Process p}
    → OuterKeeps p J
    → Serves p s t
    → J s.ext × (s.redis_open ≡ true)
    → J t.ext × (t.redis_open ≡ true)
Serves-keeps J {s} outer (serves rounds route header body keep_alive version) h =
    kept_by J
      (handler-Keeps (any_fault-Queries outer) rounds (inl tt) route header body keep_alive version
        tt)
      s h

module _ {p : Platform} (laws : RedisLaws p) {R : Hashes → Hashes → Type 0} (change : ChangeLaws R)
    (frame : HashFrame p laws.hash R) where
  Serves-changes :
      {s t : Process p}
      → s.redis_open ≡ true
      → Serves p s t
      → R (laws.hash s.ext) (laws.hash t.ext) × (t.redis_open ≡ true)
  Serves-changes {s} is_open st =
      let outer =
        OnHashes-OuterKeeps change frame (R (laws.hash s.ext))
          (λ h h' step k. change.after _ h h' k step) in
      Serves-keeps (λ e. R (laws.hash s.ext) (laws.hash e)) outer st
        (change.nothing (laws.hash s.ext), is_open)

  Lives-changes :
      {s t : Process p}
      → s.redis_open ≡ true
      → Lives laws R s t
      → R (laws.hash s.ext) (laws.hash t.ext) × (t.redis_open ≡ true)
  Lives-changes is_open (request st) = Serves-changes is_open st
  Lives-changes is_open (meanwhile rest same) = (rest, same ∙ is_open)

  -- For a kind of change that any number of handlers make together if each makes it, and that the
  -- storing of a session is: if other handlers change Redis in this way alone during the calls and
  -- between the requests of a process whose Redis client is open, then so do its requests, and the
  -- client stays open.
  pub Lived-changes :
      {s t : Process p}
      → s.redis_open ≡ true
      → Lived laws R s t
      → R (laws.hash s.ext) (laws.hash t.ext) × (t.redis_open ≡ true)
  Lived-changes {s} is_open born = (change.nothing (laws.hash s.ext), is_open)
  Lived-changes {s} is_open (lived_next r st) =
      let (before, still) = Lived-changes is_open r in
      let (last, open_after) = Lives-changes still st in
      (change.after (laws.hash s.ext) _ _ before last, open_after)
