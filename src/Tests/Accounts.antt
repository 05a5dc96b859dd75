-- ===== src/Tests/Accounts.antt =====
-- A platform with a database of accounts, and logins over it. A state is what Redis holds and the
-- accounts.
use mlnserver_web.Prelude.{
  ℕ, ◌≡◌, ◌⊎◌, refl, ◌∙◌, ap, true, false, Option, none, some, [], ◌∷◌, ◌++◌, Bytes, codes,
  bytes_eq_refl, ◌==◌, arith, append_assoc,
}
use mathlib.Core.Path.{subst}
use mlnserver_web.Outer.{CallKeeps}
use mlnserver_web.Outcome.{ok, ok-injective}
use mlnserver_web.Process.{Process}
use mlnserver_web.Http.Build.{get_rsponse}
use mlnserver_web.Mysql.{get_conn, create_conn}
use mlnserver_web.Http.Query.{send_query, read_one, purge_result}
use mlnserver_web.Http.Template.{send_rsp}
use mlnserver_web.Redis.{hset_fields}
use mlnserver_web.Session.{create_session}
use mlnserver_web.Handlers.Macros.{casual_obj_move_at_string}
use mlnserver_web.Handlers.Account.{insert_account_sql, account_pass}
use mlnserver_web.Handlers.Account.Database.{IsPlain, Tells, AccountLaws, Alone}
use mlnserver_web.Handlers.Account.Identity.{account_pass-account}
use mlnserver_web.Handlers.Account.Identity.Again.{account_pass-again}
use mlnserver_web.Tests.Bank.{World, until_quote, run_sql, read_row, bank}
use mlnserver_web.Tests.Demo.{demo_mysql}

pub until_quote_plain : (s rest : Bytes) → IsPlain s → until_quote (s ++ (39 ∷ rest)) ≡ s
until_quote_plain [] rest h = refl
until_quote_plain (b ∷ s) rest ((no_quote, _), hs) =
    let other : (b == 39) ≡ false = ground arith in rw (other, until_quote_plain s rest hs) refl

tells : (o : Option ℕ) (n : ℕ) → Tells bank o (read_row (o, n))
tells none n = refl
tells (some m) n = (refl, m, [], refl, refl)

inserts :
    (user_id ext : Bytes) (e : World)
    → IsPlain user_id
    → (run_sql (insert_account_sql user_id ext) e).1.1 user_id ≡ some 9
inserts user_id ext (h, a) plain =
    let read : until_quote (
          (user_id ++ codes "'")
          ++ (codes ", " ++ ((codes "'" ++ (ext ++ codes "'")) ++ codes ", 0);")))
        ≡ user_id =
      ap until_quote (append_assoc user_id (codes "'") _) ∙ until_quote_plain user_id _ plain in
    rw (read, bytes_eq_refl user_id) refl

zeros-IsPlain : IsPlain (codes "0000")
zeros-IsPlain = ground arith

bank_keeps : (user_id : Bytes) (o : Option ℕ) → CallKeeps bank (λ e. e.1 user_id ≡ o)
bank_keeps user_id o = record {
  connect_keeps = λ conf e h. h;
  read_one_keeps = λ r e h. h;
  generate_uuid_keeps = λ e h. h;
  hgetall_keeps = λ key e h. h;
  expire_keeps = λ key sec e h. h;
  send_keeps = λ res e h. h;
  send_ine_keeps = λ res e h. h;
  hmset_keeps = λ mbuid e h. h;
}

unfoldable bank_account_laws : AccountLaws bank
bank_account_laws = record {
  account = λ e. e.1;
  accounts_stay = λ user_id n. bank_keeps user_id (some n);
  select_stays = λ conn user_id n e h. h;
  select_tells = λ conn user_id o e e' plain h _ _ _.
      rw (until_quote_plain user_id [] plain)
        (subst (λ x. Tells bank x (read_row (e.1 user_id, 0))) h (tells (e.1 user_id) 0));
  uuid_plain = λ ext e h. rw (← ok-injective h) zeros-IsPlain;
}

bank-Alone : (user_id : Bytes) → Alone bank_account_laws user_id
unfolding bank_account_laws
bank-Alone user_id = record {
  calls = bank_keeps user_id none;
  select_none = λ conn e h. h;
  insert_makes = λ conn ext e plain _ _ _. inserts user_id ext e plain;
}

-- Redis is open, and there are no accounts.
abbrev pub opened : Process bank
opened = record {
  ext = (λ key. [], λ user_id. none);
  pools = [] ∷ [];
  opts = demo_mysql ∷ [];
  next_target = 1;
  loaders = [];
  redis_open = true;
  consumers = [];
  session_expire_sec = 1800;
  param_string = [];
  additional_info = [];
  sent = [];
}

abbrev after_login : Process bank → Process bank
after_login s = (account_pass bank 4 [] (codes "bob") true 11 none s).1

first_returns :
    account_pass bank 4 [] (codes "bob") true 11 none opened ≡ (ok tt, after_login opened)
unfolding account_pass casual_obj_move_at_string get_conn create_conn send_query read_one
    purge_result create_session hset_fields send_rsp
first_returns = refl

second_returns :
    account_pass bank 4 [] (codes "bob") true 11 none (after_login opened)
    ≡ (ok tt, after_login (after_login opened))
unfolding account_pass casual_obj_move_at_string get_conn create_conn send_query read_one
    purge_result create_session hset_fields send_rsp
second_returns = refl

still_open : (after_login opened).redis_open ≡ true
unfolding account_pass casual_obj_move_at_string get_conn create_conn send_query read_one
    purge_result create_session hset_fields send_rsp
still_open = refl

bob-IsPlain : IsPlain (codes "bob")
bob-IsPlain = ground arith

account_pass-account_example :
    (mbuid : ℕ) × ((after_login opened).sent
      ≡ get_rsponse bank (codes "{}") true 11 (codes "0") ∷ [])
    × ((after_login opened).ext.1 (codes "bob") ≡ some mbuid)
    × ((◌≡◌ {A = Option ℕ} none none) ⊎ (◌≡◌ {A = Option ℕ} none (some mbuid)))
unfolding bank_account_laws
account_pass-account_example =
    account_pass-account bank_account_laws 4 [] (codes "bob") true 11 none (codes "bob") opened
      (after_login opened) (λ _. bank-Alone (codes "bob")) bob-IsPlain refl refl first_returns

account_pass-again_example :
    (mbuid : ℕ) × ((after_login opened).sent
      ≡ get_rsponse bank (codes "{}") true 11 (codes "0") ∷ [])
    × ((after_login (after_login opened)).sent
        ≡ get_rsponse bank (codes "{}") true 11 (codes "0") ∷ (after_login opened).sent)
unfolding bank_account_laws
account_pass-again_example =
    account_pass-again bank_account_laws 4 4 [] [] (codes "bob") (codes "bob") true true 11 11 none
      none (codes "bob") opened (after_login opened) (after_login opened)
      (after_login (after_login opened)) (λ _. bank-Alone (codes "bob")) bob-IsPlain refl refl refl
      still_open first_returns refl second_returns
