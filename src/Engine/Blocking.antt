-- ===== src/Engine/Blocking.antt =====
-- `blockingConnPool` of pkg/engine/blocking_pool.go: idle connections for blocking commands.
pub mod Idle
use pluster.Prelude.{
  ℕ, ◌+◌, Bool, true, false, Option, none, some, List, [], ◌∷◌, leb, if◌then◌else◌, Bytes, bytes_eq,
  length,
}

-- The lists of `idle` have their last element first; the map is a function of the address.
pub record BlockingConnPool : Type 0 where
  pub idle : Bytes → List ℕ
  pub reuses : ℕ

abbrev pub blocking_pool_cap : ℕ
blocking_pool_cap = 10

abbrev pub new_blocking_conn_pool : BlockingConnPool
new_blocking_conn_pool = record { idle = λ addr. []; reuses = 0 }

abbrev pub with_idle : BlockingConnPool → Bytes → List ℕ → BlockingConnPool
with_idle p addr conns = record p {
  idle = λ (a : Bytes). if bytes_eq a addr then conns else p.idle a;
}

abbrev pub reuse_from : BlockingConnPool → Bytes → List ℕ → BlockingConnPool × Option ℕ
reuse_from p addr [] = (p, none)
reuse_from p addr (c ∷ conns) = (record (with_idle p addr conns) { reuses = p.reuses + 1 }, some c)

-- `get`.
unfoldable pub reuse_idle : BlockingConnPool → Bytes → BlockingConnPool × Option ℕ
reuse_idle p addr = reuse_from p addr (p.idle addr)

-- `put`.
unfoldable pub put_idle : BlockingConnPool → Bytes → ℕ → BlockingConnPool × Bool
put_idle p addr c =
    if leb blocking_pool_cap (length (p.idle addr))
    then (p, false)
    else (with_idle p addr (c ∷ p.idle addr), true)
