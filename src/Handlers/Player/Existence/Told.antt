-- ===== src/Handlers/Player/Existence/Told.antt =====
-- The handler of /player/value_get against what its database holds.
use mlnserver_web.Prelude.{
  ◌≡◌, ◌≢◌, ◌⊎◌, Bool, some, List, [], ◌∷◌, ◌++◌, Bytes, codes, pos, ℤ, if◌then◌else◌,
}
use mlnserver_web.Outcome.{Exn, Outcome, ok, raise}
use mlnserver_web.Platform.{Platform, JsonObject, ErrorCode, ErrorInfo, text, int}
use mlnserver_web.Process.{Process}
use mlnserver_web.Http.Query.Reads.{Later}
use mlnserver_web.Http.Template.Errors.{Answers}
use mlnserver_web.Handlers.Account.Database.{IsPlain}

-- The statement that asks for a player, as MySQL reads it.
abbrev pub player_query : Bytes → Bytes
player_query v =
    codes "SELECT EXISTS(SELECT * FROM player WHERE player_name='" ++ (v ++ codes "') as RESULT;")

abbrev pub flag : Bool → ℤ
flag b = if b then pos 1 else pos 0

-- What the handler relies on of MySQL. `is_player e v` says whether the table `player` has a row with
-- the player_name `v`. For a plain text between the quotes, the query has one row, of the number 1 or
-- 0, that tells it, if it is the same before and behind the query.
pub record PlayerLaws (p : Platform) : Type 0 where
  pub is_player : p.State → Bytes → Bool
  pub exists_tells :
      (conn : p.Conn) (v : Bytes) (b : Bool) (e e' : p.State)
      → IsPlain v
      → let (reply, e₁) = p.query conn (player_query v) e in
        is_player e v ≡ b
        → is_player e₁ v ≡ b
        → reply.ec ≡ 0
        → (p.read_one reply.result e').0.ec ≡ 0
        → (field : p.Field) × (rest : List p.Field) × ((p.read_one reply.result e').0.result.row
            ≡ field ∷ rest)
          × (p.as_int64 field ≡ some (flag b))

module _ (p : Platform) where
  -- The database reported an error of the query, of the reading of its row, or of a later reading.
  pub data Reported (c : p.Conn) (sql : Bytes) (e : p.State) : Type 0 where
    query_reported : (p.query c sql e).0.ec ≢ 0 → Reported c sql e
    row_reported :
        (p.read_one (p.query c sql e).0.result (p.query c sql e).1).0.ec ≢ 0 → Reported c sql e
    later_reported :
        {r : p.ResultSet} (e' : p.State)
        → Later p (p.read_one (p.query c sql e).0.result (p.query c sql e).1).0.result.after r
        → (p.read_one r e').0.ec ≢ 0
        → Reported c sql e

  -- What the client reads, in the fields of the reply.
  abbrev pub told : Bytes → Bool → JsonObject
  told v b =
      (codes "msg", text (codes "ok"))
      ∷ (codes "player_name", text v)
      ∷ (codes "exists", int (flag b))
      ∷ (codes "comment", text (p.utf16_to_8 (codes "exists   0->해당 닉네임 없음. 1->해당 닉네임 존재.")))
      ∷ []

  abbrev Told : p.Conn → Bytes → Bool → p.State → Outcome ℤ × Process p → Type 0
  Told c sql b e r =
      ((t : Process p) × (r ≡ (ok (flag b), t)))
      ⊎ ((err : ErrorCode) × (info : ErrorInfo) × (t : Process p) × (r
            ≡ (raise (Exn.system_error err info), t))
          × Reported c sql e)
