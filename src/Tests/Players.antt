-- ===== src/Tests/Players.antt =====
-- A platform whose database looks players up, and the handler of /player/value_get over it. The
-- second part of a state says which names the players have.
use mlnserver_web.Prelude.{
  ℕ, ◌+◌, ◌≡◌, refl, ◌∙◌, ap, true, false, Bool, Option, none, some, [], ◌∷◌, ◌++◌, Bytes, codes,
  drop, bytes_eq, pos, if◌then◌else◌,
}
use mlnserver_web.Platform.{Platform, Fields, JsonObject, int}
use mlnserver_web.Process.{Process}
use mlnserver_web.Http.Template.Errors.{Answers}
use mlnserver_web.Handlers.Player.Existence.Told.{PlayerLaws, flag}
use mlnserver_web.Tests.Bank.{Rows, reply, until_quote, bank}
use mlnserver_web.Tests.Accounts.{until_quote_plain}
use mlnserver_web.Tests.Demo.{demo_mysql}

abbrev is_some : Option ℕ → Bool
is_some none = false
is_some (some n) = true

-- The one row of the query: its literal begins behind 54 bytes.
abbrev exists_row : Option ℕ → Rows
exists_row o = (some (if is_some o then 1 else 0), 0)

-- The first number of an object.
abbrev digit_shown : JsonObject → Bytes
digit_shown [] = []
digit_shown ((key, int (pos n)) ∷ rest) = (48 + n) ∷ []
digit_shown ((key, _) ∷ rest) = digit_shown rest

abbrev tavern : Platform
tavern = record bank {
  query = λ _ sql e. (reply (exists_row (e.1 (until_quote (drop 54 sql)))), e);
  serialize = digit_shown;
}

flag_row :
    (o : Option ℕ) (b : Bool)
    → is_some o ≡ b
    → some (pos (if is_some o then 1 else 0)) ≡ some (flag b)
flag_row none b h = ap (λ c. some (flag c)) h
flag_row (some n) b h = ap (λ c. some (flag c)) h

unfoldable tavern_laws : PlayerLaws tavern
tavern_laws = record {
  is_player = λ e v. is_some (e.1 v);
  exists_tells = λ conn v b e e' plain before behind good read. (
    (if is_some (e.1 (until_quote (v ++ codes "') as RESULT;"))) then 1 else 0),
    [],
    refl,
    ap (λ name. some (pos (if is_some (e.1 name) then 1 else 0))) (until_quote_plain v _ plain)
        ∙ flag_row (e.1 v) b before,
  );
}

-- Bob is a player, and user 7 has a session.
abbrev with_bob : Process tavern
with_bob = record {
  ext = (
    λ key. if bytes_eq (codes "mbsk7") key then (codes "mbuid", codes "7") ∷ [] else [],
    λ name. if bytes_eq (codes "bob") name then some 9 else none,
  );
  pools = [] ∷ [];
  opts = demo_mysql ∷ [];
  next_target = 1;
  loaders = [];
  redis_open = true;
  consumers = [];
  session_expire_sec = 1800;
  param_string = [];
  additional_info = [];
  sent = [];
}

abbrev asking : Process tavern
asking = record with_bob { param_string = codes "myValue" }

abbrev session_header : Fields
session_header = (codes "mbsk", codes "mbsk7") ∷ []
