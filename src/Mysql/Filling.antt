-- ===== src/Mysql/Filling.antt =====
-- A loader thread that runs on its own does what `createPoolFunc` does, one step for each round.
use mlnserver_web.Prelude.{
  ℕ, zero, suc, ◌+◌, ◌-◌, ◌<◌, ◌≡◌, ◌∙◌, ap, sym, List, ◌∷◌, some, arith, set, get_elem?,
  get_elem?-set, set-set, set-get_elem?, get_elem?→lt, length,
}
use mathlib.Core.Path.{subst}
use mlnserver_web.Outcome.{Outcome, ok, continue, continue-eq-ok, ok-injective}
use mlnserver_web.Platform.{Platform}
use mlnserver_web.Process.{Process, ConnPtr, Loader}
use mlnserver_web.Mysql.{create_conn, create_pool_func}
use mlnserver_web.Mysql.Steps.{Reach, here, later, loads, push_round, load_round, Reach-trans}

module _ (p : Platform) where
  -- A state with other loaders.
  abbrev with_loaders :
      {A : Type 0} → List (Loader p) → Outcome A × Process p → Outcome A × Process p
  with_loaders loaders (o, s) = (o, record s { loaders = loaders })

  create_conn-with_loaders :
      (target_idx : ℕ) (loaders : List (Loader p)) (s : Process p)
      → create_conn p target_idx (record s { loaders = loaders })
        ≡ with_loaders loaders (create_conn p target_idx s)
  unfolding create_conn
  create_conn-with_loaders target_idx loaders s = ground arith

  abbrev loader : ℕ → ℕ → List (ConnPtr p) → Loader p
  loader remaining target pool = record { remaining = remaining; target = target; pool = pool }

  -- One step of the thread `i`, when its connection attempt returns.
  load_round-lem :
      (i n target_idx : ℕ) (pool : List (ConnPtr p)) (loaders : List (Loader p)) (u u₁ : Process p)
      (conn : ConnPtr p)
      → create_conn p target_idx u ≡ (ok conn, u₁)
      → (load_round p i
          (loader (suc n) target_idx pool)
          (record u { loaders = set loaders i (loader (suc n) target_idx pool) })).1
        ≡ record u₁ { loaders = set loaders i (loader n target_idx (conn ∷ pool)) }
  unfolding load_round push_round
  load_round-lem i n target_idx pool loaders u u₁ conn e =
      let less : suc n - 1 ≡ n = omega arith in
      rw (create_conn-with_loaders target_idx (set loaders i (loader (suc n) target_idx pool)) u) (
        rw (e, continue)
          (ap {B = Process p} (λ ls. record u₁ { loaders = ls })
              (set-set loaders i (loader (suc n) target_idx pool)
                (loader (suc n - 1) target_idx (conn ∷ pool)))
            ∙ ap {B = Process p}
                (λ k. record u₁ { loaders = set loaders i (loader k target_idx (conn ∷ pool)) })
                less))

  filled-Reach :
      (n i target_idx : ℕ) (pool pool' : List (ConnPtr p)) (loaders : List (Loader p))
      (u t : Process p)
      → i < length loaders
      → create_pool_func p n target_idx pool u ≡ (ok pool', t)
      → Reach p
          (record u { loaders = set loaders i (loader n target_idx pool) })
          (record t { loaders = set loaders i (loader 0 target_idx pool') })
  unfolding create_pool_func
  filled-Reach zero i target_idx pool pool' loaders u t there h =
      subst (λ v. Reach p (left u) (right v pool')) (ap (λ r. r.1) h)
        (subst (λ x. Reach p (left u) (right u x)) (ok-injective (ap (λ r. r.0) h)) here)
    where
      left : Process p → Process p
      left v = record v { loaders = set loaders i (loader 0 target_idx pool) }

      right : Process p → List (ConnPtr p) → Process p
      right v x = record v { loaders = set loaders i (loader 0 target_idx x) }
  filled-Reach (suc n) i target_idx pool pool' loaders u t there h =
      let (conn, u₁, e, h') = continue-eq-ok (create_conn p target_idx u) _ h in
      Reach-trans p
        (subst (Reach p (record u { loaders = set loaders i (loader (suc n) target_idx pool) }))
          (load_round-lem i n target_idx pool loaders u u₁ conn e)
          (later here (
            loads i (loader (suc n) target_idx pool)
              (get_elem?-set loaders i (loader (suc n) target_idx pool) there) (omega arith))))
        (filled-Reach n i target_idx (conn ∷ pool) pool' loaders u₁ t there h')

  filled-length :
      (n target_idx : ℕ) (pool pool' : List (ConnPtr p)) (u t : Process p)
      → create_pool_func p n target_idx pool u ≡ (ok pool', t)
      → length pool' ≡ length pool + n
  unfolding create_pool_func
  filled-length zero target_idx pool pool' u t h =
      ap length (sym (ok-injective (ap (λ r. r.0) h))) ∙ omega arith
  filled-length (suc n) target_idx pool pool' u t h =
      let (conn, u₁, e, h') = continue-eq-ok (create_conn p target_idx u) _ h in
      filled-length n target_idx (conn ∷ pool) pool' u₁ t h' ∙ omega arith

  -- Where `createPoolFunc` returns for the rounds, the target and the pool that a loader thread has,
  -- the steps of that thread reach the state that it leaves, in which the thread has no rounds left
  -- and holds the pool that it returns, longer than before by the number of rounds.
  pub create_pool_func-Reach :
      (i : ℕ) (l : Loader p) (pool : List (ConnPtr p)) (s t : Process p)
      → get_elem? s.loaders i ≡ some l
      → create_pool_func p l.remaining l.target l.pool s ≡ (ok pool, t)
      → Reach p s (record t {
        loaders = set s.loaders i (record { remaining = 0; target = l.target; pool = pool });
      })
        × (length pool ≡ length l.pool + l.remaining)
  create_pool_func-Reach i l pool s t at h = (
    subst
        (λ ls.
          Reach p (record s { loaders = ls })
            (record t {
              loaders = set s.loaders i (record { remaining = 0; target = l.target; pool = pool });
            }))
        (set-get_elem? s.loaders i l at)
        (filled-Reach l.remaining i l.target l.pool pool s.loaders s t (get_elem?→lt s.loaders i at)
          h),
    filled-length l.remaining l.target l.pool pool s t h,
  )
