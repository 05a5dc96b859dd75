-- ===== src/Http/Query/Purge.antt =====
-- The loop of `purgeResult` ends, and how many rounds it is given beyond the rows does not matter.
use mlnserver_web.Prelude.{
  ℕ, zero, suc, ◌<◌, ◌⊎◌, ◌≡◌, refl, true, arith, Bool-cases, inl, inr, ◌==◌,
}
use mlnserver_web.Outcome.{Exn, Outcome, ok, raise, fault}
use mlnserver_web.Platform.{Platform}
use mlnserver_web.Process.{Process}
use mlnserver_web.Http.Query.{check_error, check_noted, resume, async, read_one, purge_result}

-- What the code relies on of boost::mysql: a resultset has finitely many rows, and a read that finds
-- a row takes it off.
pub record RowLaws (p : Platform) : Type 0 where
  pub pending : p.ResultSet → ℕ
  pub row_taken :
      (r : p.ResultSet) (e : p.State)
      → (p.read_one r e).0.result.found ≡ true
      → pending (p.read_one r e).0.result.after < pending r

module _ {p : Platform} where
  -- A read returns what the library read, or it throws.
  read_one-cases :
      (r : p.ResultSet) (s : Process p)
      → (s' : Process p) × ((read_one p r s ≡ (ok (p.read_one r s.ext).0.result, s'))
          ⊎ ((e : Exn) × (read_one p r s ≡ (raise e, s'))))
  unfolding read_one async check_noted check_error resume
  read_one-cases r s =
      let (reply, e) = p.read_one r s.ext in
      let held = p.resumed e (s.param_string, reply.info) in
      let s' = record s { ext = e; param_string = held.0; additional_info = held.1 } in
      (
        s',
        elim (Bool-cases (reply.ec == 0)) [
          | inl good ↦ inl (rw good refl)
          | inr bad ↦ inr (Exn.system_error reply.ec held.1, rw bad refl)
        ],
      )

-- How a call ends that neither hits undefined behaviour nor is cut off.
abbrev pub Ends : {S A : Type 0} → Outcome A × S → Type 0
Ends (ok a, s) = Unit {0}
Ends (raise e, s) = Unit {0}
Ends (fault f, s) = ⊥

module _ {p : Platform} (laws : RowLaws p) where
  -- Where a read that finds a row takes it off, with more rounds than pending rows, `purgeResult`
  -- returns or throws, and any two such numbers of rounds give the same.
  pub purge_result-Ends :
      (m n : ℕ) (r : p.ResultSet) (s : Process p)
      → laws.pending r < m
      → laws.pending r < n
      → Ends (purge_result p m r s) × (purge_result p m r s ≡ purge_result p n r s)
  unfolding purge_result
  purge_result-Ends zero n r s hm hn = absurd (omega arith)
  purge_result-Ends (suc m) zero r s hm hn = absurd (omega arith)
  purge_result-Ends (suc m) (suc n) r s hm hn = elim (Bool-cases (p.complete r)) [
    | inl done ↦ rw done (tt, refl)
    | inr more ↦
        let (s', read) = read_one-cases r s in
        rw more (elim read [
          | inr (e, thrown) ↦ rw thrown (tt, refl)
          | inl row ↦ rw row (elim (Bool-cases (p.read_one r s.ext).0.result.found) [
            | inr last ↦ rw last (tt, refl)
            | inl found ↦
                let fewer = laws.row_taken r s.ext found in
                rw found (
                  purge_result-Ends m n (p.read_one r s.ext).0.result.after s' (omega arith)
                    (omega arith))
          ])
        ])
  ]
