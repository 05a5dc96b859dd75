-- ===== src/Tests/Session.antt =====
-- Sessions and numbers at concrete inputs.
use mlnserver_web.Prelude.{ℕ, ◌≡◌, ◌↔◌, refl, true, some, [], ◌∷◌, codes}
use mlnserver_web.Outcome.{ok, raise, Exn}
use mlnserver_web.Number.{to_string, stoull}
use mlnserver_web.Session.{is_valid_session}
use mlnserver_web.Session.Laws.{
  gen_session_key_injective, IsSessionOf, session_of, is_valid_session_iff,
}
use mlnserver_web.Tests.Demo.{demo, running, demo_redis_laws}

numbers :
    (to_string 907 ≡ codes "907")
    × (stoull (codes " +18446744073709551615z") ≡ ok 18446744073709551615)
    × (stoull (codes "18446744073709551616") ≡ raise Exn.out_of_range)
    × (stoull (codes "-1") ≡ ok 18446744073709551615)
    × (stoull (codes "x1") ≡ raise Exn.invalid_argument)
unfolding to_string stoull
numbers = (refl, refl, refl, refl, refl)

gen_session_key_injective_example : ◌≡◌ {A = ℕ} 7 7
gen_session_key_injective_example = gen_session_key_injective 7 7 refl

is_valid_session_iff_example :
    ((is_valid_session demo (codes "mbsk7") running).0
      ≡ ok (true, some (session_of (codes "mbsk7") 7)))
    ↔ IsSessionOf (codes "mbsk7") ((codes "mbuid", codes "7") ∷ []) (session_of (codes "mbsk7") 7)
unfolding demo_redis_laws
is_valid_session_iff_example =
    is_valid_session_iff demo_redis_laws (codes "mbsk7") running _ (session_of (codes "mbsk7") 7)
      refl refl
