-- ===== src/Mysql/Keeps.antt =====
-- The connection manager keeps every setting that the outer calls keep.
use mlnserver_web.Prelude.{
  ◌≡◌, refl, if◌then◌else◌, ◌⊎◌, Bool, true, false, Bool-cases, Option-cases, inl, inr, List, [],
  ◌∷◌, ltb, length, get_elem?, some, none,
}
use mlnserver_web.Outcome.{
  Exn, Outcome, ok, raise, fault, throw, handle, is_std, Fault, pure, ◌>>=◌, continue, or_throw,
  check,
}
use mlnserver_web.Outcome.Keeps.{
  StopsIn, EndsIn, KeepsTo, KeepsTo-bind, KeepsTo-Keeps, Keeps, Keeps-check, Keeps-or_throw,
}
use mlnserver_web.Conf.{MysqlConf}
use mlnserver_web.Platform.{Platform}
use mlnserver_web.Process.{Process, ConnPtr, call}
use mlnserver_web.Mysql.{connect_or_null, create_conn, pop_or_create, get_conn}
use mlnserver_web.Outer.{manager_of, Setting, Calls, Outer}

module _ {p : Platform} {W : Setting p} (outer : Calls p W) where
  -- Of what an attempt gave, in a state before it.
  attempted :
      (conf : MysqlConf) (e : p.State)
      → W.outside e
      → (r : Outcome p.Conn × Process p) (x : Outcome p.Conn) → r.0 ≡ x
      → (p.connect conf e).0 ≡ x
      → (Outer p W).holds r.1
      → StopsIn W.may x
      → let t =
          handle
            (continue r (λ conn. pure (some conn)))
            (λ e. if is_std e then pure none else throw e) in
        (Outer p W).holds t.1 × EndsIn W.may W.usable t.0
  attempted conf e h (o, s) (ok c) same seen after stops =
      rw same (after, outer.allows.some_usable c)
  attempted conf e h (o, s) (raise x) same seen after stops =
      rw same (elim (Bool-cases (is_std x)) [
        | inl std ↦ rw std (after, outer.allows.failed_usable conf e x h seen std)
        | inr other ↦ rw other (after, tt)
      ])
  attempted conf e h (o, s) (fault f) same seen after stops = rw same (after, stops)

  connect_or_null-usable :
      (conf : MysqlConf) → KeepsTo (Outer p W) W.usable (connect_or_null p conf)
  connect_or_null-usable conf = record {
    at = λ s (h, is_open, there, logged).
        attempted conf s.ext h (call (p.connect conf) s) (p.connect conf s.ext).0 refl refl
          (outer.keeps.connect_keeps conf s.ext h, is_open, there, logged)
          (outer.allows.calls_stop.connect_stops conf s.ext);
  }

  -- The handlers ask for target 0.
  create_conn-usable : KeepsTo (Outer p W) W.usable (create_conn p 0)
  unfolding create_conn
  create_conn-usable = record {
    at = λ s (h, is_open, there, logged).
        (KeepsTo-bind (λ _. Unit {0}) W.usable (check (ltb 0 (length s.opts)) Fault.assertion) _
            (Keeps-check (ltb 0 (length s.opts)) Fault.assertion
              (outer.allows.target_there (manager_of s) there))
            λ _ _.
              KeepsTo-bind (λ _. Unit {0}) W.usable (or_throw (get_elem? s.opts 0) Exn.out_of_range)
                (connect_or_null p) (Keeps-or_throw (get_elem? s.opts 0) Exn.out_of_range)
                λ conf _. connect_or_null-usable conf).at
          s (h, is_open, there, logged);
  }

  -- Of the pool of a state.
  pop_or_create-usable :
      (s : Process p) (pool : List (ConnPtr p))
      → get_elem? s.pools 0 ≡ some pool
      → (Outer p W).holds s
      → (Outer p W).holds (pop_or_create p 0 pool s).1
        × EndsIn W.may W.usable (pop_or_create p 0 pool s).0
  unfolding pop_or_create
  pop_or_create-usable s [] e h = create_conn-usable.at s h
  pop_or_create-usable s (conn ∷ rest) e (h, is_open, there, logged) =
      let (usable, popped) = outer.allows.popped (manager_of s) conn rest e there in
      ((h, is_open, popped, logged), usable)

  -- The check of the index and what follows it.
  checked-usable :
      (s : Process p)
      → (Outer p W).holds s
      → (b : Bool) → (b ≡ true) ⊎ W.may Fault.assertion
      → let r =
          continue
            (check b Fault.assertion s)
            (λ _. or_throw (get_elem? s.pools 0) Exn.out_of_range >>= pop_or_create p 0) in
        (Outer p W).holds r.1 × EndsIn W.may W.usable r.0
  checked-usable s h true may = elim (Option-cases (get_elem? s.pools 0)) [
    | inl missing ↦ rw missing (h, tt)
    | inr (pool, e) ↦ rw e (pop_or_create-usable s pool e h)
  ]
  checked-usable s h false (inl same) = cc
  checked-usable s h false (inr may) = (h, may)

  pub get_conn-usable : KeepsTo (Outer p W) W.usable (get_conn p 0)
  unfolding get_conn
  get_conn-usable = record {
    at = λ s (h, is_open, there, logged).
        checked-usable s (h, is_open, there, logged) (ltb 0 (length s.pools))
          (outer.allows.pool_there (manager_of s) there);
  }

  pub get_conn-Keeps : Keeps (Outer p W) (get_conn p 0)
  get_conn-Keeps = KeepsTo-Keeps W.usable (get_conn p 0) get_conn-usable
