-- ===== src/Pool/Count.antt =====
-- How many connections there are.
use pluster.Prelude.{
  ℕ, suc, ◌+◌, ◌-◌, ◌≤◌, ◌<◌, ◌≡◌, refl, ap, ◌∙◌, true, false, ◌&&◌, Option, none, some, List, [],
  ◌∷◌, ltb, length, not, Bool-cases, inl, inr, arith,
}
use pluster.Proto.Int64.{half_word, lt64, neg64}
use pluster.Pool.{
  PooledConn, Pool, decrement, increment, new_pool, pop_from, pop_idle, GetResult, reused, reserved,
  waiting, get_round, get_from, dial_failed, put, close,
}

-- `out` connections are in use or being dialled: they and the idle ones are counted, and fit.
pub record IsCounted (out : ℕ) (p : Pool) : Type 0 where
  pub counted : p.num_conns ≡ length p.conns + out
  pub fits : p.num_conns ≤ p.max_size
  pub small : p.max_size < half_word

-- With the `cs` in place of `conns`.
record IsCountedAt (out : ℕ) (p : Pool) (cs : List PooledConn) : Type 0 where
  counted : p.num_conns ≡ length cs + out
  fits : p.num_conns ≤ p.max_size
  small : p.max_size < half_word

-- On counts that are in range the arithmetic does not wrap.
decrement-pos : (n k : ℕ) → n ≡ suc k → n < half_word → decrement n ≡ k
decrement-pos n k e h = omega arith

increment-small : (n : ℕ) → n < half_word → increment n ≡ suc n
increment-small n h = omega arith

abbrev used : Option PooledConn → ℕ
used none = 0
used (some c) = 1

pop_from-IsCounted :
    (now out : ℕ) (p : Pool) (cs : List PooledConn)
    → IsCountedAt out p cs
    → IsCounted (used (pop_from now p cs).1 + out) (pop_from now p cs).0
unfolding pop_from
pop_from-IsCounted now out p [] i = record {
  counted = omega (arith, i.counted);
  fits = i.fits;
  small = i.small;
}
pop_from-IsCounted now out p (c ∷ cs) i =
    elim (Bool-cases (ltb 0 p.idle_timeout && ltb p.idle_timeout (now - c.used_at))) [
      | inl old ↦ rw old (
          pop_from-IsCounted now out (record p { num_conns = decrement p.num_conns }) cs
            (record {
              counted =
                  decrement-pos p.num_conns (length cs + out) (omega (arith, i.counted))
                    (omega (arith, i.fits, i.small));
              fits = omega (
                arith,
                i.counted,
                i.fits,
                decrement-pos p.num_conns (length cs + out) (omega (arith, i.counted))
                    (omega (arith, i.fits, i.small)),
              );
              small = i.small;
            }))
      | inr fresh ↦
          rw fresh (record { counted = omega (arith, i.counted); fits = i.fits; small = i.small })
    ]

abbrev pub taken : GetResult → ℕ
taken (reused c) = 1
taken reserved = 1
taken waiting = 0

get_from-IsCounted :
    (out : ℕ) (p : Pool) (c : Option PooledConn)
    → IsCounted (used c + out) p
    → IsCounted (taken (get_from (p, c)).1 + out) (get_from (p, c)).0
get_from-IsCounted out p (some c) i = i
get_from-IsCounted out p none i = elim (Bool-cases (lt64 p.num_conns p.max_size)) [
  | inl free ↦ rw free (record {
    counted =
        omega (arith, i.counted, increment-small p.num_conns (omega (arith, i.fits, i.small)));
    fits =
        ground
          (arith, i.fits, i.small, increment-small p.num_conns (omega (arith, i.fits, i.small)));
    small = i.small;
  })
  | inr full ↦ rw full i
]

pub get_round-IsCounted :
    (now out : ℕ) (p : Pool)
    → IsCounted out p
    → IsCounted (taken (get_round now p).1 + out) (get_round now p).0
unfolding get_round pop_idle
get_round-IsCounted now out p i =
    get_from-IsCounted out (pop_from now p p.conns).0 (pop_from now p p.conns).1 (
      pop_from-IsCounted now out p p.conns
        (record { counted = i.counted; fits = i.fits; small = i.small }))

-- One connection fewer, and none of those that are idle.
given_up-IsCounted :
    (out : ℕ) (p : Pool)
    → IsCounted (suc out) p
    → IsCounted out (record p { num_conns = decrement p.num_conns })
given_up-IsCounted out p i =
    let e : decrement p.num_conns ≡ length p.conns + out =
      decrement-pos _ _ (omega (arith, i.counted)) (omega (arith, i.fits, i.small)) in
    record { counted = e; fits = omega (arith, e, i.counted, i.fits); small = i.small }

pub dial_failed-IsCounted :
    (out : ℕ) (p : Pool) → IsCounted (suc out) p → IsCounted out (dial_failed p)
unfolding dial_failed
dial_failed-IsCounted out p i = given_up-IsCounted out p i

pub put-IsCounted :
    (now : ℕ) (c : PooledConn) (out : ℕ) (p : Pool)
    → IsCounted (suc out) p
    → IsCounted out (put now false c p).0 × ((put now false c p).1 ≡ not c.broken)
unfolding put
put-IsCounted now c out p i = elim (Bool-cases c.broken) [
  | inl broken ↦ rw broken (given_up-IsCounted out p i, refl)
  | inr whole ↦
      let room : lt64 (length p.conns) p.max_size ≡ true =
        ground (arith, i.counted, i.fits, i.small) in
      rw (whole, room)
        (record { counted = omega (arith, i.counted); fits = i.fits; small = i.small }, refl)
]

-- What the goroutines do to a pool that is not closed; `out` connections are in use or being
-- dialled.
pub data PoolRun : ℕ → Pool → Type 0 where
  made : (size timeout : ℕ) → size < half_word → PoolRun 0 (new_pool size timeout)
  got :
      {out : ℕ} {p : Pool} (now : ℕ)
      → PoolRun out p
      → PoolRun (taken (get_round now p).1 + out) (get_round now p).0
  failed_dial : {out : ℕ} {p : Pool} → PoolRun (suc out) p → PoolRun out (dial_failed p)
  returned :
      {out : ℕ} {p : Pool} (now : ℕ) (c : PooledConn)
      → PoolRun (suc out) p
      → PoolRun out (put now false c p).0

pub new_pool-IsCounted : (size timeout : ℕ) → size < half_word → IsCounted 0 (new_pool size timeout)
unfolding new_pool
new_pool-IsCounted size timeout h = record {
  counted = refl;
  fits = ground arith;
  small = ground arith;
}

-- However `Get`s, failed dials and returns interleave on a pool that is not closed, `numConns` is the
-- number of idle connections and of those in use or being dialled, and is at most `maxSize`.
pub PoolRun-IsCounted : {out : ℕ} {p : Pool} → PoolRun out p → IsCounted out p
PoolRun-IsCounted (made size timeout h) = new_pool-IsCounted size timeout h
PoolRun-IsCounted (got {out} {p} now run) = get_round-IsCounted now out p (PoolRun-IsCounted run)
PoolRun-IsCounted (failed_dial {out} {p} run) = dial_failed-IsCounted out p (PoolRun-IsCounted run)
PoolRun-IsCounted (returned {out} {p} now c run) =
    (put-IsCounted now c out p (PoolRun-IsCounted run)).0

-- A connection that is returned to a pool that is not closed is kept, unless it is marked broken:
-- there is always room.
pub put_keeps :
    {out : ℕ} {p : Pool} (now : ℕ) (c : PooledConn)
    → PoolRun (suc out) p
    → (put now false c p).1 ≡ not c.broken
put_keeps {out} {p} now c run = (put-IsCounted now c out p (PoolRun-IsCounted run)).1

-- The connections that come back after `Close`.
abbrev pub put_all : List PooledConn → Pool → Pool
put_all [] p = p
put_all (c ∷ cs) p = put_all cs (put 0 true c p).0

put-closed :
    (c : PooledConn) (p : Pool)
    → (put 0 true c p).0 ≡ record p { num_conns = decrement p.num_conns }
unfolding put
put-closed c p = elim (Bool-cases c.broken) [ inl b ↦ rw b refl | inr w ↦ rw w refl ]

neg64-suc : (n k : ℕ) → n ≡ neg64 k → suc k < half_word → decrement n ≡ neg64 (suc k)
neg64-suc n k e h = omega (arith, e)

put_all-num_conns :
    (cs : List PooledConn) (p : Pool) (k : ℕ)
    → k + length cs < half_word
    → p.num_conns ≡ neg64 k
    → (put_all cs p).num_conns ≡ neg64 (k + length cs)
put_all-num_conns [] p k h e = e ∙ ap neg64 {x = k} (omega arith)
put_all-num_conns (c ∷ cs) p k h e =
    ap (λ q. (put_all cs q).num_conns) (put-closed c p)
    ∙ put_all-num_conns cs (record p { num_conns = decrement p.num_conns }) (suc k) (omega arith)
        (neg64-suc p.num_conns k e (omega arith))
    ∙ ap neg64 {x = suc k + length cs} (omega arith)

-- Every connection that is in use when the pool is closed makes `numConns` one less than zero when
-- it comes back.
pub put-close :
    (cs : List PooledConn) (p : Pool)
    → length cs < half_word
    → (put_all cs (close p)).num_conns ≡ neg64 (length cs)
unfolding close
put-close cs p h =
    put_all-num_conns cs (close p) 0 (omega arith) refl ∙ ap neg64 {x = 0 + length cs} (omega arith)
