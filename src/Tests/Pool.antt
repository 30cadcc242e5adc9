-- ===== src/Tests/Pool.antt =====
-- The connection pool of pkg/pool/pool.go.
use pluster.Prelude.{
  ◌+◌, ◌<◌, ◌≢◌, ◌≡◌, refl, false, arith, codes, bytes_eq, true, some, List, [], ◌∷◌, Bytes,
}
use pluster.Proto.Value.{simple_string}
use pluster.Pool.Dial.{Peer, value, opened, dial, dial_as, pooled, pick, new_pipelined_pool}
use pluster.Pool.Dial.Opened.{IsGreeted, dial_as-IsGreeted}
use pluster.Proto.Outcome.{ok, panicked}
use pluster.Pool.{PooledConn, Pool, new_pool, get_round, pop_idle, pop_from, put, waiting}
use pluster.Pool.Count.{IsCounted, PoolRun, PoolRun-IsCounted}
use pluster.Pool.Waiters.{Waiters, new_waiters, get_first, give_back}
use pluster.Pool.Waiters.Wakeup.{WaitRun, made, asked, returned, WaitRun-keeps_awake}
use pluster.Pool.Registry.{
  new_pool_registry, create, remove, get_or_create, send_request, find_pool, delete_pool,
  new_handle, cut_ro,
}
use pluster.Pool.Registry.Invariant.{RegistryRun, fresh, created, removed}
use pluster.Pool.Registry.Serves.{Serves, RegistryRun-Serves, send_request-removed}

abbrev one : PooledConn
one = record { id = 1; used_at = 0; broken = false }

-- Two places taken at a pool of three, and one connection back.
abbrev two_out : Pool
two_out = (get_round 5 (get_round 5 (new_pool 3 60)).0).0

abbrev one_back : Pool
one_back = (put 7 false one two_out).0

run_out : PoolRun 2 two_out
unfolding get_round new_pool pop_idle pop_from
run_out = PoolRun.got 5 (PoolRun.got 5 (PoolRun.made 3 60 (ground arith)))

PoolRun-IsCounted_example : IsCounted 1 one_back
PoolRun-IsCounted_example = PoolRun-IsCounted (PoolRun.returned 7 one run_out)

counts : (get_round 5 (new_pool 3 60)).0.num_conns ≡ 1
unfolding get_round new_pool pop_idle pop_from
counts = refl

-- The pool of a node that has gone and come back.
come_back : RegistryRun (remove (codes "n0") (create (codes "n0") new_pool_registry).0)
come_back = removed (codes "n0") (created (codes "n0") fresh)

RegistryRun-Serves_example :
    let (r, h) =
      get_or_create (codes "n0") (remove (codes "n0") (create (codes "n0") new_pool_registry).0) in
    Serves (codes "n0") r h
RegistryRun-Serves_example = RegistryRun-Serves (codes "n0") come_back

send_request-removed_example :
    let (after, h) = get_or_create (codes "n0") new_pool_registry in
    (send_request h after ≡ ok after) × (send_request h (remove (codes "n0") after) ≡ panicked)
send_request-removed_example = send_request-removed (codes "n0") fresh

second_number :
    (create (codes "n0") (remove (codes "n0") (create (codes "n0") new_pool_registry).0)).1.number
    ≡ 1
unfolding create remove find_pool delete_pool new_handle cut_ro bytes_eq
second_number = refl

-- A node that takes everything, and a read-only pool with a password.
abbrev willing : Peer
willing sent = value (simple_string (codes "OK"))

abbrev both_commands : List (List Bytes)
both_commands = (codes "AUTH" ∷ codes "pw" ∷ []) ∷ (codes "READONLY" ∷ []) ∷ []

greeted : dial (some willing) [] (codes "n0") [] (codes "pw") true ≡ opened both_commands
unfolding dial_as
greeted = refl

dial_as-IsGreeted_example : IsGreeted willing both_commands both_commands
dial_as-IsGreeted_example =
    dial_as-IsGreeted pooled willing [] (codes "n0") [] (codes "pw") true both_commands greeted

picked : (pick (new_pipelined_pool 0)).0 ≡ ok 0
unfolding pick new_pipelined_pool
picked = refl

-- A pool of one: the second goroutine waits, and the connection of the first comes back.
abbrev one_waits : Waiters
one_waits = give_back 7 one (get_first 5 (get_first 5 (new_waiters 1 60)))

one_waits-run : WaitRun 0 one_waits
unfolding get_first get_round new_pool pop_idle pop_from
one_waits-run = returned 7 one (asked 5 (asked 5 (made 1 60 (ground arith))))

one_asleep : 0 < one_waits.asleep
unfolding give_back get_first get_round new_pool pop_idle pop_from
one_asleep = ground arith

one_place : 0 < one_waits.pool.max_size
unfolding give_back put get_first get_round new_pool pop_idle pop_from
one_place = ground arith

WaitRun-keeps_awake_example :
    (0 < one_waits.tokens + one_waits.woken + one_waits.owing)
    × ((get_round 9 one_waits.pool).1 ≢ waiting)
WaitRun-keeps_awake_example = WaitRun-keeps_awake 9 one_waits-run one_asleep one_place
