-- ===== src/Http/Query/Keeps.antt =====
-- The database wrappers keep every setting that the outer calls keep.
use mlnserver_web.Prelude.{
  ℕ, zero, suc, ◌<◌, ◌⊎◌, ◌≡◌, refl, none, some, Bool-cases, inl, inr, Bytes, ◌==◌, arith,
}
use mlnserver_web.Outcome.{Outcome, ok, raise, fault, Fault}
use mlnserver_web.Outcome.Keeps.{
  StopsIn, KeepsTo, KeepsTo-mono, KeepsTo-Keeps, Keeps, Keeps-bind, Keeps-pure, Keeps-stop,
}
use mlnserver_web.Platform.{Platform, Reply}
use mlnserver_web.Process.{ConnPtr}
use mlnserver_web.Http.Query.{check_error, async, send_query, read_one, purge_result}
use mlnserver_web.Http.Query.Purge.{RowLaws, Ends, purge_result-Ends}
use mlnserver_web.Outer.{Setting, Given, Asked, Calls, Outer}

module _ {p : Platform} (W : Setting p) where
  async-Given :
      {A : Type 0} (op : p.State → Reply A × p.State)
      → ((e : p.State) → W.outside e → W.outside (op e).1)
      → KeepsTo (Outer p W) (Given W op) (async p op)
  unfolding async check_error
  async-Given op k = record {
    at = λ s (h, is_open, there, logged). elim (Bool-cases ((op s.ext).0.ec == 0)) [
      | inl good ↦ rw good (
        (k s.ext h, is_open, there, logged),
        record { before = s.ext; held = h; no_error = ground arith; same = refl },
      )
      | inr bad ↦ rw bad ((k s.ext h, is_open, there, logged), tt)
    ];
  }

  -- Of a query, what its text is asked for is enough.
  pub send_query-Asked :
      (conn : ConnPtr p) (sql : Bytes)
      → (conn ≡ none → W.may Fault.null_connection)
      → ((c : p.Conn) (e : p.State) → W.outside e → W.outside (p.query c sql e).1)
      → KeepsTo (Outer p W) (Asked W sql) (send_query p conn sql)
  unfolding send_query
  send_query-Asked none sql may k = record { at = λ s h. (h, may refl) }
  send_query-Asked (some c) sql may k = record {
    at =
        (KeepsTo-mono (Given W (p.query c sql)) (Asked W sql) (async p (p.query c sql))
          (λ r given. (c, given)) (async-Given (p.query c sql) (k c))).at;
  }

  pub send_query-Keeps :
      (conn : ConnPtr p) (sql : Bytes)
      → (conn ≡ none → W.may Fault.null_connection)
      → ((c : p.Conn) (e : p.State) → W.outside e → W.outside (p.query c sql e).1)
      → Keeps (Outer p W) (send_query p conn sql)
  send_query-Keeps conn sql may k =
      KeepsTo-Keeps (Asked W sql) (send_query p conn sql) (send_query-Asked conn sql may k)

module _ {p : Platform} {W : Setting p} (outer : Calls p W) where
  pub read_one-Given :
      (r : p.ResultSet) → KeepsTo (Outer p W) (Given W (p.read_one r)) (read_one p r)
  unfolding read_one
  read_one-Given r = async-Given W (p.read_one r) (outer.keeps.read_one_keeps r)

  pub read_one-Keeps : (r : p.ResultSet) → Keeps (Outer p W) (read_one p r)
  read_one-Keeps r = KeepsTo-Keeps (Given W (p.read_one r)) (read_one p r) (read_one-Given r)

-- The rounds of the loop of `purgeResult` are more than what is pending of any resultset.
pub record EnoughRounds (p : Platform) (rounds : ℕ) : Type 0 where
  pub rows : RowLaws p
  pub enough : (r : p.ResultSet) → rows.pending r < rounds

-- The loop is not cut off, or may be.
abbrev pub RoundsFit : {p : Platform} → Setting p → ℕ → Type 0
RoundsFit {p} W rounds = W.may Fault.out_of_fuel ⊎ EnoughRounds p rounds

ended-StopsIn : {S A : Type 0} (may : Fault → Type 0) (r : Outcome A × S) → Ends r → StopsIn may r.0
ended-StopsIn may (ok a, s) h = tt
ended-StopsIn may (raise e, s) h = tt
ended-StopsIn may (fault f, s) h = absurd h

module _ {p : Platform} (W : Setting p)
    (k : (r : p.ResultSet) (e : p.State) → W.outside e → W.outside (p.read_one r e).1) where
  cut_off-Keeps :
      W.may Fault.out_of_fuel
      → (rounds : ℕ) (r : p.ResultSet) → Keeps (Outer p W) (purge_result p rounds r)
  unfolding purge_result read_one
  cut_off-Keeps may zero r = elim (Bool-cases (p.complete r)) [
    | inl done ↦ rw done (Keeps-pure r)
    | inr more ↦ rw more (Keeps-stop Fault.out_of_fuel may)
  ]
  cut_off-Keeps may (suc rounds) r = elim (Bool-cases (p.complete r)) [
    | inl done ↦ rw done (Keeps-pure r)
    | inr more ↦ rw more (
        Keeps-bind (read_one p r) _
          (KeepsTo-Keeps (Given W (p.read_one r)) (read_one p r)
            (async-Given W (p.read_one r) (k r)))
          λ row. elim (Bool-cases row.found) [
            | inl found ↦ rw found (cut_off-Keeps may rounds row.after)
            | inr last ↦ rw last (Keeps-pure row.after)
          ])
  ]

pub purge_result-Keeps :
    {p : Platform} {W : Setting p} (outer : Calls p W) (rounds : ℕ)
    → RoundsFit W rounds
    → (r : p.ResultSet) → Keeps (Outer p W) (purge_result p rounds r)
purge_result-Keeps {W} outer rounds (inl may) r =
    cut_off-Keeps W outer.keeps.read_one_keeps may rounds r
purge_result-Keeps {p} {W} outer rounds (inr few) r = record {
  at = λ s h. (
    ((cut_off-Keeps (record W { may = λ f. Unit {0} }) outer.keeps.read_one_keeps tt rounds r).at s
        h).0,
    ended-StopsIn W.may (purge_result p rounds r s)
        (purge_result-Ends few.rows rounds rounds r s (few.enough r) (few.enough r)).0,
  );
}
