-- ===== src/Pool/Waiters.antt =====
-- The goroutines that wait in `Get` of pkg/pool/pool.go for the channel `waiters`, and `notify`, which
-- comes behind the critical sections of `put` and of a failed dial.
pub mod Wakeup
use pluster.Prelude.{ℕ, suc, ◌+◌, ◌-◌, Bool, false, ltb, if◌then◌else◌}
use pluster.Pool.{
  PooledConn, Pool, new_pool, GetResult, reused, reserved, waiting, get_round, dial_failed, put,
}

-- A pool with its channel: how many elements it holds; how many goroutines wait, how many have taken
-- an element and are before their next round, and how many are about to call `notify`.
pub record Waiters : Type 0 where
  pub pool : Pool
  pub tokens : ℕ
  pub asleep : ℕ
  pub woken : ℕ
  pub owing : ℕ

abbrev pub new_waiters : ℕ → ℕ → Waiters
new_waiters size timeout = record {
  pool = new_pool size timeout;
  tokens = 0;
  asleep = 0;
  woken = 0;
  owing = 0;
}

-- Behind a round of the loop of `Get`.
abbrev pub settled : Waiters → Pool → GetResult → Waiters
settled w p waiting = record w { pool = p; asleep = suc w.asleep }
settled w p _ = record w { pool = p }

-- The first round of a goroutine.
unfoldable pub get_first : ℕ → Waiters → Waiters
unfolding get_round
get_first now w = settled w (get_round now w.pool).0 (get_round now w.pool).1

-- `case <-p.waiters`, the round that follows, and `case <-ctx.Done()`.
abbrev pub wake : Waiters → Waiters
wake w = record w { tokens = w.tokens - 1; asleep = w.asleep - 1; woken = suc w.woken }

unfoldable pub get_again : ℕ → Waiters → Waiters
unfolding get_first
get_again now w = get_first now (record w { woken = w.woken - 1 })

abbrev pub give_up : Waiters → Waiters
give_up w = record w { asleep = w.asleep - 1 }

-- `put` and the failed dial of `Get`, before `notify`.
unfoldable pub give_back : ℕ → PooledConn → Waiters → Waiters
unfolding put
give_back now c w = record w { pool = (put now false c w.pool).0; owing = suc w.owing }

unfoldable pub fail_dial : Waiters → Waiters
unfolding dial_failed
fail_dial w = record w { pool = dial_failed w.pool; owing = suc w.owing }

-- `notify`, on a channel with room for `maxSize` elements.
unfoldable pub notify : Waiters → Waiters
notify w =
    let rest = record w { owing = w.owing - 1 } in
    if ltb w.tokens w.pool.max_size then record rest { tokens = suc w.tokens } else rest
