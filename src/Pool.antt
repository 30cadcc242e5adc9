-- ===== src/Pool.antt =====
-- `Pool` of pkg/pool/pool.go: a bounded pool of connections to one node. Each function is one
-- critical section of the mutex; `Get` and `put` of several goroutines interleave between them.
pub mod Count
pub mod Pipeline
pub mod Registry
pub mod Waiters
pub mod Dial
use pluster.Prelude.{
  ℕ, ◌+◌, ◌-◌, Bool, true, false, ◌&&◌, ◌||◌, Option, none, some, List, [], ◌∷◌, ltb, if◌then◌else◌,
  length,
}
use pluster.Proto.Int64.{neg64, add64, lt64}

-- What the pool reads of a `Conn`: its identity, and `usedAt`, in nanoseconds.
pub record PooledConn : Type 0 where
  pub id : ℕ
  pub used_at : ℕ
  pub broken : Bool

-- `conns` with its last element first; `numConns` is an int, as a pattern of 64 bits.
pub record Pool : Type 0 where
  pub max_size : ℕ
  pub idle_timeout : ℕ
  pub conns : List PooledConn
  pub num_conns : ℕ
  pub closed : Bool

abbrev pub increment : ℕ → ℕ
increment n = add64 n 1

abbrev pub decrement : ℕ → ℕ
decrement n = add64 n (neg64 1)

-- `New`, with the defaults for a size and a timeout that are not positive.
abbrev pub default_pool_size : ℕ
default_pool_size = 10

abbrev pub default_idle_timeout : ℕ
default_idle_timeout = 30000000000

unfoldable pub new_pool : ℕ → ℕ → Pool
new_pool size timeout = record {
  max_size = if lt64 0 size then size else default_pool_size;
  idle_timeout = if lt64 0 timeout then timeout else default_idle_timeout;
  conns = [];
  num_conns = 0;
  closed = false;
}

-- The loop of `popIdle`, at `p.conns`.
unfoldable pub pop_from : ℕ → Pool → List PooledConn → Pool × Option PooledConn
pop_from now p [] = (record p { conns = [] }, none)
pop_from now p (c ∷ cs) =
    let dropped = pop_from now (record p { num_conns = decrement p.num_conns }) cs in
    if ltb 0 p.idle_timeout && ltb p.idle_timeout (now - c.used_at)
    then dropped
    else (record p { conns = cs }, some c)

-- `popIdle`.
unfoldable pub pop_idle : ℕ → Pool → Pool × Option PooledConn
unfolding pop_from
pop_idle now p = pop_from now p p.conns

-- What a round of the loop of `Get` comes to: an idle connection, a place for a new one, which is
-- then dialled outside of the mutex, or waiting for `waiters`.
pub data GetResult : Type 0 where
  reused : PooledConn → GetResult
  reserved waiting : GetResult

abbrev pub get_from : Pool × Option PooledConn → Pool × GetResult
get_from (p, some c) = (p, reused c)
get_from (p, none) =
    if lt64 p.num_conns p.max_size
    then (record p { num_conns = increment p.num_conns }, reserved)
    else (p, waiting)

unfoldable pub get_round : ℕ → Pool → Pool × GetResult
unfolding pop_idle
get_round now p = get_from (pop_idle now p)

-- `Get`, when the dial has failed.
unfoldable pub dial_failed : Pool → Pool
dial_failed p = record p { num_conns = decrement p.num_conns }

-- `put`, where `closed.Load()` has answered `is_closed`; and whether the pool keeps the connection.
unfoldable pub put : ℕ → Bool → PooledConn → Pool → Pool × Bool
put now is_closed c p =
    if c.broken || is_closed
    then (record p { num_conns = decrement p.num_conns }, false)
    else if lt64 (length p.conns) p.max_size
    then (record p { conns = record c { used_at = now } ∷ p.conns }, true)
    else (record p { num_conns = decrement p.num_conns }, false)

-- `Close`.
unfoldable pub close : Pool → Pool
close p = record p { closed = true; conns = []; num_conns = 0 }
