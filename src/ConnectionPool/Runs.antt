-- ===== src/ConnectionPool/Runs.antt =====
-- Runs of a connection pool.
use server_framework_learnin.Prelude.{ℕ, ◌≡◌, refl, Bool, true, [], ◌∷◌, none, some, arith}
use server_framework_learnin.ConnectionPool.{
  Connection, new_connection, Limits, Pool, get_connection, take_valid, lend, subtract, release,
  is_over, end_of_life,
}
use server_framework_learnin.ConnectionPool.Reachable.{
  gets, releases, Reaches, starts, steps, Inv, reachable-Inv, reachable-reuse,
}

abbrev limits : Limits
limits = record { max_alive_time = 30000; max_request = 10 }

abbrev empty : Pool
empty = record { conns = []; total = 0; lent = [] }

abbrev always : ℕ → Bool
always id = true

-- A pool that has lent its first connection.
abbrev lending : Pool
lending = get_connection limits always 50000 (some 5) empty

-- A pool that has it back.
abbrev idle : Pool
idle = release limits always 50001 (new_connection 5) (record lending { lent = [] })

lending-Reaches : Reaches limits lending
lending-Reaches = steps empty lending starts (gets always 50000 (some 5) empty)

idle-Reaches : Reaches limits idle
unfolding get_connection take_valid lend subtract
idle-Reaches =
    steps lending idle lending-Reaches (releases always 50001 lending [] (new_connection 5) [] refl)

reachable-Inv_example : Inv idle
reachable-Inv_example = reachable-Inv limits idle idle-Reaches

-- The connection after one request.
abbrev used_once : Connection
used_once = record { id = 5; create_time = 0; request = 1 }

reachable-reuse_example :
    ((get_connection limits always 90000 none idle).lent ≡ used_once ∷ idle.lent)
    × ((get_connection limits always 90000 none idle).conns ≡ [])
unfolding get_connection take_valid lend subtract release is_over end_of_life new_connection
reachable-reuse_example =
    reachable-reuse limits idle always 90000 none [] used_once [] idle-Reaches (omega arith)
      (omega arith) refl tt refl
