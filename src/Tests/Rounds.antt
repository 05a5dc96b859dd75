-- ===== src/Tests/Rounds.antt =====
-- A database whose resultsets have at most one row.
use mlnserver_web.Prelude.{ℕ, ◌<◌, ◌≡◌, true, none, some, arith}
use mlnserver_web.Http.Query.Purge.{RowLaws}
use mlnserver_web.Http.Query.Keeps.{EnoughRounds}
use mlnserver_web.Tests.Bank.{Rows, World, bank}

abbrev pub rows_left : Rows → ℕ
rows_left (none, n) = 0
rows_left (some m, n) = 1

pub row_taken :
    (r : Rows) (e : World)
    → (bank.read_one r e).0.result.found ≡ true
    → rows_left (bank.read_one r e).0.result.after < rows_left r
row_taken (none, n) e h = cc
row_taken (some m, n) e h = omega arith

unfoldable bank_row_laws : RowLaws bank
bank_row_laws = record { pending = rows_left; row_taken = row_taken }

pub one_row : (r : Rows) → rows_left r < 2
one_row (none, n) = omega arith
one_row (some m, n) = omega arith

pub bank_rounds : EnoughRounds bank 2
unfolding bank_row_laws
bank_rounds = record { rows = bank_row_laws; enough = one_row }
