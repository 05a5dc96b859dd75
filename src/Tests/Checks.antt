-- ===== src/Tests/Checks.antt =====
-- The wrappers of boost::mysql and of Redis at concrete inputs.
use mlnserver_web.Prelude.{◌≡◌, refl, true, [], ◌∷◌, codes, arith}
use mlnserver_web.Outcome.{Exn, ok, raise}
use mlnserver_web.Platform.{Platform}
use mlnserver_web.Process.{Process}
use mlnserver_web.Http.Query.{read_one, read_all}
use mlnserver_web.Http.Query.Checks.{read_one-read_all}
use mlnserver_web.Tests.Demo.{demo}

-- A platform on which one row can be read, and all rows cannot, and on which another handler has
-- failed during each wait.
abbrev broken : Platform
broken = record demo {
  read_one = λ n e. (
    record {
      ec = 0;
      info = codes "fine";
      result = record { found = true; row = 7 ∷ []; after = n };
    },
    e,
  );
  read_all = λ n e. (record { ec = 2013; info = codes "lost"; result = [] }, e);
  resumed = λ _ held. (held.0, codes "gone");
}

abbrev before : Process broken
before = record {
  ext = λ key. [];
  pools = [] ∷ [];
  opts = [];
  next_target = 1;
  loaders = [];
  redis_open = true;
  consumers = [];
  session_expire_sec = 1800;
  param_string = [];
  additional_info = [];
  sent = [];
}

one_read : read_one broken 1 before ≡ (
  ok (record { found = true; row = 7 ∷ []; after = 1 }),
  record before { additional_info = codes "gone" },
)
unfolding read_one
one_read = refl

read_one-read_all_example :
    (read_all broken 1 (record before { additional_info = codes "gone" })).0
    ≡ raise (Exn.system_error 2013 (codes "gone"))
read_one-read_all_example =
    read_one-read_all broken 1 1 before (record before { additional_info = codes "gone" })
      (record { found = true; row = 7 ∷ []; after = 1 }) one_read (omega arith)
