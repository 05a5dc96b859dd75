-- ===== src/Redis/Consumer/Forever.antt =====
-- The consumer thread runs until the process ends: it never returns, and no error of the library
-- stops it once it has subscribed.
use mlnserver_web.Prelude.{ℕ, zero, suc, ◌≡◌, refl, List, [], ◌∷◌, Bytes}
use mlnserver_web.Outcome.{Exn, Fault, Outcome, ok, raise, fault, M, continue, ◌>>◌, handle}
use mlnserver_web.Platform.{Platform, ConnectionOptions}
use mlnserver_web.Process.{Process, call}
use mlnserver_web.Redis.Consumer.{
  on_consume_error, on_setup_error, subscribe_all, consume_loop, consume_messages,
  consumer_thread_task,
}

-- The ends of a call that waits for a message: a message, or an error of redis++.
abbrev pub IsRedisEnd : {A : Type 0} → Outcome A → Type 0
IsRedisEnd (ok a) = Unit {0}
IsRedisEnd (raise (Exn.timeout_error msg)) = Unit {0}
IsRedisEnd (raise (Exn.redis_error msg)) = Unit {0}
IsRedisEnd _ = ⊥

pub continue-IsRedisEnd :
    {S : Type 0} (r : Outcome (Unit {0}) × S) (k : M S (Unit {0}))
    → IsRedisEnd r.0
    → ((s : S) → IsRedisEnd (k s).0)
    → IsRedisEnd (continue r (λ _. k)).0
continue-IsRedisEnd (ok a, s) k h hk = hk s
continue-IsRedisEnd (raise e, s) k h hk = h
continue-IsRedisEnd (fault f, s) k h hk = absurd h

-- What the code relies on of redis++ and the system: connections, subscriptions and waits end with a
-- value or an error of redis++, and a pause returns.
pub record ConsumerLaws (p : Platform) : Type 0 where
  pub opens : (o : ConnectionOptions) (e : p.State) → IsRedisEnd (p.open_subscriber o e).0
  pub subscribes : (c : Bytes) (e : p.State) → IsRedisEnd (p.subscribe c e).0
  pub consumes : (e : p.State) → IsRedisEnd (p.consume e).0
  pub sleeps : (ms : ℕ) (e : p.State) → (p.sleep_for ms e).0 ≡ ok tt

-- Still running after the rounds that were given, or the process has ended.
abbrev pub IsForever : {A : Type 0} → Outcome A → Type 0
IsForever (fault Fault.out_of_fuel) = Unit {0}
IsForever (fault Fault.exited) = Unit {0}
IsForever _ = ⊥

module _ {p : Platform} (laws : ConsumerLaws p) where
  one_message :
      (r : Outcome (Unit {0}) × Process p)
      → IsRedisEnd r.0
      → (s : Process p) × (handle r on_consume_error ≡ (ok tt, s))
  one_message (ok a, s) h = (s, refl)
  one_message (raise (Exn.timeout_error msg), s) h = (s, refl)
  one_message (raise (Exn.redis_error msg), s) h = (s, refl)
  one_message (raise _, s) h = absurd h
  one_message (fault f, s) h = absurd h

  consume_loop-cut :
      (rounds : ℕ) (s : Process p)
      → (t : Process p) × (consume_loop p rounds s ≡ (fault Fault.out_of_fuel, t))
  unfolding consume_loop
  consume_loop-cut zero s = (s, refl)
  consume_loop-cut (suc rounds) s =
      let (s₁, e) = one_message (call p.consume s) (laws.consumes s.ext) in
      let (t, rest) = consume_loop-cut rounds s₁ in (t, rw (e, continue) rest)

  subscribe_all-IsRedisEnd :
      (sub_groups : List Bytes) (s : Process p) → IsRedisEnd (subscribe_all p sub_groups s).0
  unfolding subscribe_all
  subscribe_all-IsRedisEnd [] s = tt
  subscribe_all-IsRedisEnd (c ∷ rest) s =
      continue-IsRedisEnd (call (p.subscribe c) s) (subscribe_all p rest) (laws.subscribes c s.ext)
        (subscribe_all-IsRedisEnd rest)

  -- Both numbers of rounds give the same end, and it is one of the two.
  abbrev AgreeForever : (q r : Outcome (Unit {0}) × Process p) → Type 0
  AgreeForever q r = (q.0 ≡ r.0) × IsForever q.0

  exits :
      (s : Process p) (e : Exn)
      → IsRedisEnd {A = Unit {0}} (raise e)
      → IsForever (on_setup_error p e s).0
  unfolding on_setup_error
  exits s (Exn.timeout_error m) h = rw (laws.sleeps 3000 s.ext) tt
  exits s (Exn.redis_error m) h = rw (laws.sleeps 3000 s.ext) tt
  exits s _ h = absurd h

  looped :
      (m n : ℕ) (r : Outcome (Unit {0}) × Process p)
      → IsRedisEnd r.0
      → AgreeForever
          (handle (continue r (λ _. consume_loop p m)) (on_setup_error p))
          (handle (continue r (λ _. consume_loop p n)) (on_setup_error p))
  looped m n (ok a, s) h =
      let (t, e) = consume_loop-cut m s in
      let (u, e') = consume_loop-cut n s in rw (e, handle) (rw (e', handle) (refl, tt))
  looped m n (raise x, s) h = (refl, exits s x h)
  looped m n (fault f, s) h = absurd h

  opened :
      (m n : ℕ) (sub_groups : List Bytes) (r : Outcome (Unit {0}) × Process p)
      → IsRedisEnd r.0
      → AgreeForever
          (handle
            (continue r (λ _. subscribe_all p sub_groups >> consume_loop p m))
            (on_setup_error p))
          (handle
            (continue r (λ _. subscribe_all p sub_groups >> consume_loop p n))
            (on_setup_error p))
  opened m n sub_groups (ok a, s) h =
      looped m n (subscribe_all p sub_groups s) (subscribe_all-IsRedisEnd sub_groups s)
  opened m n sub_groups (raise x, s) h = (refl, exits s x h)
  opened m n sub_groups (fault f, s) h = absurd h

  -- The consumer thread never returns and never throws: either it still runs after every number of
  -- rounds, or, for every number, it has ended the process.
  pub consumer_thread_task-IsForever :
      (m n : ℕ) (options : ConnectionOptions) (sub_groups : List Bytes) (s : Process p)
      → ((consumer_thread_task p m options sub_groups s).0
          ≡ (consumer_thread_task p n options sub_groups s).0)
        × IsForever (consumer_thread_task p m options sub_groups s).0
  unfolding consumer_thread_task consume_messages
  consumer_thread_task-IsForever m n options sub_groups s =
      opened m n sub_groups (call (p.open_subscriber (record options { socket_timeout = 0 })) s)
        (laws.opens (record options { socket_timeout = 0 }) s.ext)
