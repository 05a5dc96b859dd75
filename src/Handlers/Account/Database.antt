-- ===== src/Handlers/Account/Database.antt =====
-- The accounts of the database, and what the two statements of the login do to them.
use mlnserver_web.Prelude.{
  ℕ, ◌≡◌, ◌≢◌, ◌∙◌, refl, ap, true, false, Option, none, some, List, ◌∷◌, All, Bytes,
}
use mathlib.Core.Path.{subst}
use mlnserver_web.Outcome.{ok}
use mlnserver_web.Platform.{Platform, ReadOne}
use mlnserver_web.Process.{Process, ConnPtr}
use mlnserver_web.Http.Query.{send_query}
use mlnserver_web.Http.Query.Returned.{send_query-Returned}
use mlnserver_web.Handlers.Account.{select_account_sql, insert_account_sql}
use mlnserver_web.Outer.{CallKeeps}

-- A text that a literal of SQL holds as it is: neither a quote nor a backslash.
abbrev pub IsPlain : Bytes → Type 0
IsPlain = All (λ b. (b ≢ 39) × (b ≢ 92))

-- What the first row of a result says of an account.
abbrev pub Tells : (p : Platform) → Option ℕ → ReadOne p.ResultSet p.Field → Type 0
Tells p none r = r.found ≡ false
Tells p (some n) r =
    (r.found ≡ true)
    × (field : p.Field) × (rest : List p.Field) × (r.row ≡ field ∷ rest)
    × (p.as_uint64 field ≡ some n)

-- What the login relies on of MySQL. `account e user_id` is the identifier of the first account with
-- that user_id, and an account that is there stays. The look-up tells what is there, for a plain text
-- between the quotes, if that is the same before and behind it.
pub record AccountLaws (p : Platform) : Type 0 where
  pub account : p.State → Bytes → Option ℕ
  pub accounts_stay : (user_id : Bytes) (n : ℕ) → CallKeeps p (λ e. account e user_id ≡ some n)
  pub select_stays :
      (conn : p.Conn) (user_id : Bytes) (n : ℕ) (e : p.State)
      → account e user_id ≡ some n
      → account (p.query conn (select_account_sql user_id) e).1 user_id ≡ some n
  pub select_tells :
      (conn : p.Conn) (user_id : Bytes) (o : Option ℕ) (e e' : p.State)
      → IsPlain user_id
      → let (reply, e₁) = p.query conn (select_account_sql user_id) e in
        account e user_id ≡ o
        → account e₁ user_id ≡ o
        → reply.ec ≡ 0
        → (p.read_one reply.result e').0.ec ≡ 0
        → Tells p o (p.read_one reply.result e').0.result
  pub uuid_plain : (ext : Bytes) (e : p.State) → (p.generate_uuid e).0 ≡ ok ext → IsPlain ext

-- No other handler makes an account of the user while the login runs: one that is not there stays
-- away until the login inserts it.
pub record Alone {p : Platform} (db : AccountLaws p) (user_id : Bytes) : Type 0 where
  pub calls : CallKeeps p (λ e. db.account e user_id ≡ none)
  pub select_none :
      (conn : p.Conn) (e : p.State)
      → db.account e user_id ≡ none
      → db.account (p.query conn (select_account_sql user_id) e).1 user_id ≡ none
  pub insert_makes :
      (conn : p.Conn) (user_id_ext : Bytes) (e : p.State)
      → IsPlain user_id
      → IsPlain user_id_ext
      → db.account e user_id ≡ none
      → let r = p.query conn (insert_account_sql user_id user_id_ext) e in
        r.0.ec ≡ 0 → db.account r.1 user_id ≡ some (p.last_insert_id r.0.result)

module _ {p : Platform} (db : AccountLaws p) where
  -- The account of a user is as given, and the Redis client is open.
  abbrev pub AccountIs : Bytes → Option ℕ → Process p → Type 0
  AccountIs user_id o s = (db.account s.ext user_id ≡ o) × (s.redis_open ≡ true)

  pub others_keep :
      (user_id : Bytes) (o : Option ℕ)
      → (o ≡ none → Alone db user_id)
      → CallKeeps p (λ e. db.account e user_id ≡ o)
  others_keep user_id none alone = (alone refl).calls
  others_keep user_id (some n) alone = db.accounts_stay user_id n

  select_keeps :
      (conn : p.Conn) (user_id : Bytes) (o : Option ℕ) (e : p.State)
      → (o ≡ none → Alone db user_id)
      → db.account e user_id ≡ o
      → db.account (p.query conn (select_account_sql user_id) e).1 user_id ≡ o
  select_keeps conn user_id none e alone = (alone refl).select_none conn e
  select_keeps conn user_id (some n) e alone = db.select_stays conn user_id n e

  pub inserted-account :
      (user_id ext : Bytes) (conn : ConnPtr p) (s t : Process p) (inserted : p.ResultSet)
      → Alone db user_id
      → IsPlain user_id
      → IsPlain ext
      → AccountIs user_id none s
      → send_query p conn (insert_account_sql user_id ext) s ≡ (ok inserted, t)
      → AccountIs user_id (some (p.last_insert_id inserted)) t
  inserted-account user_id ext conn s t inserted alone plain plain' k h =
      let (c, ret) = send_query-Returned conn (insert_account_sql user_id ext) s t inserted h in
      (
        ap (λ e. db.account e user_id) ret.ext_left
            ∙ alone.insert_makes c ext s.ext plain plain' k.0 ret.no_error
            ∙ ap (λ r. some (p.last_insert_id r)) ret.result_same,
        ret.open_kept ∙ k.1,
      )

  pub selected-account :
      (user_id : Bytes) (conn : ConnPtr p) (o : Option ℕ) (s t : Process p) (result : p.ResultSet)
      → (o ≡ none → Alone db user_id)
      → IsPlain user_id
      → AccountIs user_id o s
      → send_query p conn (select_account_sql user_id) s ≡ (ok result, t)
      → AccountIs user_id o t
        × ((e : p.State)
            → (p.read_one result e).0.ec ≡ 0
            → Tells p o (p.read_one result e).0.result)
  selected-account user_id conn o s t result alone plain k h =
      let (c, ret) = send_query-Returned conn (select_account_sql user_id) s t result h in
      let kept = select_keeps c user_id o s.ext alone k.0 in
      (
        (ap (λ e. db.account e user_id) ret.ext_left ∙ kept, ret.open_kept ∙ k.1),
        λ e.
            subst (λ x. (p.read_one x e).0.ec ≡ 0 → Tells p o (p.read_one x e).0.result)
              ret.result_same (db.select_tells c user_id o s.ext e plain k.0 kept ret.no_error),
      )
