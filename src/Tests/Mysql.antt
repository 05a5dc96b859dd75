-- ===== src/Tests/Mysql.antt =====
-- The connection manager at concrete inputs.
use mlnserver_web.Prelude.{List, length, set, get_elem?, ◌≡◌, refl, [], ◌∷◌, some, codes, arith}
use mlnserver_web.Outcome.{ok}
use mlnserver_web.Mysql.{get_conn, create_conn, init_target}
use mlnserver_web.Mysql.Steps.{Reach, here, later, init_targets, loads, load_round}
use mlnserver_web.Mysql.Pools.{get_conn-eq-create_conn}
use mlnserver_web.Mysql.{destroy}
use mlnserver_web.Mysql.Closing.{destroy_reached}
use mlnserver_web.Mysql.{create_pool_func}
use mlnserver_web.Mysql.Filling.{create_pool_func-Reach}
use mlnserver_web.Process.{Process, ConnPtr}
use mlnserver_web.Tests.Demo.{demo, demo_mysql, blank, blank-IsFresh}

-- One target, and one round of its loader.
abbrev set_up : Process demo
set_up = (init_target demo demo_mysql blank).1

set_up-Reach : Reach demo blank set_up
set_up-Reach = later here (init_targets demo_mysql)

loader_pushes : Process demo
loader_pushes = (load_round demo 0 (record { remaining = 2; target = 0; pool = [] }) set_up).1

loader_pushes-Reach : Reach demo blank loader_pushes
unfolding init_target loader_pushes
loader_pushes-Reach =
    later set_up-Reach
      (loads 0 (record { remaining = 2; target = 0; pool = [] }) refl (omega arith))

-- The loader holds a connection, and the manager's pool is empty still.
loader_pushes_pools :
    (loader_pushes.pools ≡ [] ∷ [])
    × (loader_pushes.loaders
        ≡ record { remaining = 1; target = 0; pool = some (codes "db") ∷ [] } ∷ [])
unfolding loader_pushes load_round create_conn init_target
loader_pushes_pools = (refl, refl)

get_conn-eq-create_conn_example : get_conn demo 0 loader_pushes ≡ create_conn demo 0 loader_pushes
get_conn-eq-create_conn_example = get_conn-eq-create_conn demo blank-IsFresh loader_pushes-Reach 0

-- The connection that the loader made stays open.
destroy_reached_example : destroy demo loader_pushes ≡ (ok tt, record loader_pushes { pools = [] })
destroy_reached_example = destroy_reached demo blank-IsFresh loader_pushes-Reach

abbrev two_conns : List (ConnPtr demo)
two_conns = some (codes "db") ∷ some (codes "db") ∷ []

set_up_loader : get_elem? set_up.loaders 0 ≡ some (record { remaining = 2; target = 0; pool = [] })
unfolding init_target
set_up_loader = refl

two_rounds : create_pool_func demo 2 0 [] set_up ≡ (ok two_conns, set_up)
unfolding create_pool_func create_conn init_target
two_rounds = refl

create_pool_func-Reach_example :
    Reach demo set_up (record set_up {
      loaders = set set_up.loaders 0 (record { remaining = 0; target = 0; pool = two_conns });
    })
    × (length two_conns ≡ 2)
create_pool_func-Reach_example =
    create_pool_func-Reach demo 0 (record { remaining = 2; target = 0; pool = [] }) two_conns set_up
      set_up set_up_loader two_rounds
