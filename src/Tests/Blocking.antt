-- ===== src/Tests/Blocking.antt =====
-- The idle connections of pkg/engine/blocking_pool.go.
use pluster.Prelude.{ℕ, ◌≡◌, refl, some, Bytes, bytes_eq, codes}
use pluster.Engine.Blocking.{BlockingConnPool, new_blocking_conn_pool, put_idle, reuse_idle}
use pluster.Engine.Blocking.Idle.{IdleRun, none_yet, was_kept, one_more}

abbrev nothing_kept : Bytes → ℕ → ℕ
nothing_kept a c = 0

abbrev two_put : BlockingConnPool
two_put = (put_idle (put_idle new_blocking_conn_pool (codes "a") 4).0 (codes "a") 5).0

kept_twice : IdleRun (one_more (one_more nothing_kept (codes "a") 4) (codes "a") 5) two_put
unfolding put_idle bytes_eq
kept_twice = was_kept (codes "a") 5 refl (was_kept (codes "a") 4 refl none_yet)

last_in : (reuse_idle two_put (codes "a")).1 ≡ some 5
unfolding put_idle reuse_idle bytes_eq
last_in = refl
