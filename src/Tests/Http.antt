-- ===== src/Tests/Http.antt =====
-- The database wrappers and the template at concrete inputs.
use mlnserver_web.Prelude.{ℕ, zero, suc, ◌<◌, ◌≡◌, refl, true, none, [], ◌++◌, codes, arith}
use mlnserver_web.Outcome.{Exn, throw}
use mlnserver_web.Http.Query.{purge_result}
use mlnserver_web.Http.Query.Purge.{RowLaws, Ends, purge_result-Ends}
use mlnserver_web.Http.Template.{json_msg, Callback, mysql_template}
use mlnserver_web.Http.Build.{get_bad_request}
use mlnserver_web.Http.Template.Errors.{Answers, mysql_template-Answers}
use mlnserver_web.Tests.Demo.{Hashes, demo, running, demo-SenderReturns}

demo_row_taken :
    (r : ℕ) (e : Hashes)
    → (demo.read_one r e).0.result.found ≡ true
    → (demo.read_one r e).0.result.after < r
demo_row_taken zero e h = cc
demo_row_taken (suc r) e h = omega arith

demo_row_laws : RowLaws demo
demo_row_laws = record { pending = λ n. n; row_taken = demo_row_taken }

-- Two rows, with three and with five rounds.
purge_result-Ends_example :
    Ends (purge_result demo 3 2 running)
    × (purge_result demo 3 2 running ≡ purge_result demo 5 2 running)
unfolding demo_row_laws
purge_result-Ends_example =
    purge_result-Ends demo_row_laws 3 5 2 running (omega arith) (omega arith)

-- A callback that finds no Redis.
abbrev redis_is_gone : Callback demo
redis_is_gone header jv keep_alive version session = throw (Exn.redis_error (codes "gone"))

-- Redis is gone, and the client is told of a bad parameter.
mysql_template-Answers_example :
    Answers demo-SenderReturns []
      (mysql_template demo [] (codes "x") true 11 none redis_is_gone running)
      (get_bad_request demo true 11 (json_msg (codes "bad parameter:" ++ [])))
mysql_template-Answers_example =
    mysql_template-Answers demo-SenderReturns [] (codes "x") true 11 none redis_is_gone running
      running (codes "x") (Exn.redis_error (codes "gone")) refl refl refl
