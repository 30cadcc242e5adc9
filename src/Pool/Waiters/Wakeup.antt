-- ===== src/Pool/Waiters/Wakeup.antt =====
-- No wake-up is lost.
use pluster.Prelude.{
  ℕ, suc, ◌+◌, ◌-◌, ◌≤◌, ◌<◌, ◌≡◌, ◌≢◌, refl, sym, ap, subst, ◌∙◌, false, ◌&&◌, Option, none, some,
  List, [], ◌∷◌, ltb, length, Bool-cases, inl, inr, arith,
}
use pluster.Prelude.Index.{none-some}
use pluster.Proto.Int64.{half_word, lt64}
use pluster.Pool.{
  PooledConn, Pool, decrement, pop_from, pop_idle, GetResult, reused, reserved, waiting, get_round,
  get_from, put,
}
use pluster.Pool.Count.{
  IsCounted, taken, get_round-IsCounted, dial_failed-IsCounted, put-IsCounted, new_pool-IsCounted,
}
use pluster.Pool.Waiters.{
  Waiters, new_waiters, settled, get_first, wake, get_again, give_up, give_back, fail_dial, notify,
}

-- A pool over time, with `out` connections in use or being dialled: rounds of `Get`, of new goroutines
-- and of those that have been woken, contexts that end, connections that come back, failed dials, and
-- the calls of `notify` behind these, in any order.
pub data WaitRun : ℕ → Waiters → Type 0 where
  made : (size timeout : ℕ) → size < half_word → WaitRun 0 (new_waiters size timeout)
  asked :
      {out : ℕ} {w : Waiters} (now : ℕ)
      → WaitRun out w
      → WaitRun (taken (get_round now w.pool).1 + out) (get_first now w)
  woke :
      {out : ℕ} {w : Waiters} → 0 < w.tokens → 0 < w.asleep → WaitRun out w → WaitRun out (wake w)
  asked_again :
      {out : ℕ} {w : Waiters} (now : ℕ)
      → 0 < w.woken
      → WaitRun out w
      → WaitRun (taken (get_round now w.pool).1 + out) (get_again now w)
  gave_up : {out : ℕ} {w : Waiters} → 0 < w.asleep → WaitRun out w → WaitRun out (give_up w)
  returned :
      {out : ℕ} {w : Waiters} (now : ℕ) (c : PooledConn)
      → WaitRun (suc out) w
      → WaitRun out (give_back now c w)
  failed : {out : ℕ} {w : Waiters} → WaitRun (suc out) w → WaitRun out (fail_dial w)
  notified : {out : ℕ} {w : Waiters} → 0 < w.owing → WaitRun out w → WaitRun out (notify w)

-- While a goroutine sleeps, all places of the pool are taken, or on their way to one that sleeps.
record IsAwake (out : ℕ) (w : Waiters) : Type 0 where
  counted : IsCounted out w.pool
  awake : 0 < w.asleep → w.pool.max_size ≤ out + w.tokens + w.woken + w.owing

-- The size of a pool stays.
pop_from-max_size :
    (now : ℕ) (p : Pool) (cs : List PooledConn) → (pop_from now p cs).0.max_size ≡ p.max_size
unfolding pop_from
pop_from-max_size now p [] = refl
pop_from-max_size now p (c ∷ cs) =
    elim (Bool-cases (ltb 0 p.idle_timeout && ltb p.idle_timeout (now - c.used_at))) [
      | inl old ↦ rw old (pop_from-max_size now (record p { num_conns = decrement p.num_conns }) cs)
      | inr fresh ↦ rw fresh refl
    ]

get_from-max_size : (p : Pool) (c : Option PooledConn) → (get_from (p, c)).0.max_size ≡ p.max_size
get_from-max_size p (some c) = refl
get_from-max_size p none = elim (Bool-cases (lt64 p.num_conns p.max_size)) [
  | inl y ↦ rw y refl
  | inr n ↦ rw n refl
]

get_round-max_size : (now : ℕ) (p : Pool) → (get_round now p).0.max_size ≡ p.max_size
unfolding get_round pop_idle
get_round-max_size now p =
    get_from-max_size (pop_from now p p.conns).0 (pop_from now p p.conns).1
    ∙ pop_from-max_size now p p.conns

put-max_size : (now : ℕ) (c : PooledConn) (p : Pool) → (put now false c p).0.max_size ≡ p.max_size
unfolding put
put-max_size now c p = ground arith

-- A goroutine has to wait only where all places are taken.
pop_from-none :
    (now : ℕ) (p : Pool) (cs : List PooledConn)
    → (pop_from now p cs).1 ≡ none
    → (pop_from now p cs).0.conns ≡ []
unfolding pop_from
pop_from-none now p [] e = refl
pop_from-none now p (c ∷ cs) e =
    elim (Bool-cases (ltb 0 p.idle_timeout && ltb p.idle_timeout (now - c.used_at))) [
      | inl old ↦ rw old (
          pop_from-none now (record p { num_conns = decrement p.num_conns }) cs
            (sym (rw old refl) ∙ e))
      | inr fresh ↦
          let here : (pop_from now p (c ∷ cs)).1 ≡ some c = rw fresh refl in
          absurd (none-some (sym e ∙ here))
    ]

get_from-waiting :
    (out : ℕ) (p : Pool) (c : Option PooledConn)
    → IsCounted out (get_from (p, c)).0
    → (c ≡ none → p.conns ≡ [])
    → (get_from (p, c)).1 ≡ waiting
    → p.max_size ≤ out
get_from-waiting out p (some c) i k e = cc
get_from-waiting out p none i k e = elim (Bool-cases (lt64 p.num_conns p.max_size)) [
  | inl y ↦ let same : (get_from (p, none)).1 ≡ reserved = rw y refl in cc
  | inr n ↦
      let same : get_from (p, none) ≡ (p, waiting) = rw n refl in
      let i' = subst (λ x. IsCounted out x.0) same i in
      ground (arith, i'.counted, i'.fits, i'.small, ap length (k refl))
]

get_round-waiting :
    (now out : ℕ) (p : Pool) → IsCounted out p → (get_round now p).1 ≡ waiting → p.max_size ≤ out
unfolding get_round pop_idle
get_round-waiting now out p i e =
    let popped = pop_from now p p.conns in
    let i' : IsCounted (0 + out) (get_from popped).0 =
      subst (λ r. IsCounted (taken r + out) (get_from popped).0) e
        (get_round-IsCounted now out p i) in
    let full =
      get_from-waiting (0 + out) popped.0 popped.1 i' (λ k. pop_from-none now p p.conns k) e in
    omega (arith, full, pop_from-max_size now p p.conns)

-- Each step.
settled-IsAwake :
    (out : ℕ) (w : Waiters) (p : Pool) (r : GetResult)
    → IsCounted (taken r + out) p
    → p.max_size ≡ w.pool.max_size
    → (r ≡ waiting → w.pool.max_size ≤ out)
    → (0 < w.asleep → w.pool.max_size ≤ suc out + w.tokens + w.woken + w.owing)
    → IsAwake (taken r + out) (settled w p r)
settled-IsAwake out w p (reused c) i same full a = record {
  counted = i;
  awake = λ h. omega (arith, a h, same);
}
settled-IsAwake out w p reserved i same full a = record {
  counted = i;
  awake = λ h. omega (arith, a h, same);
}
settled-IsAwake out w p waiting i same full a = record {
  counted = i;
  awake = λ h. omega (arith, full refl, same);
}

get_first-IsAwake :
    (now out : ℕ) (w : Waiters)
    → IsCounted out w.pool
    → (0 < w.asleep → w.pool.max_size ≤ suc out + w.tokens + w.woken + w.owing)
    → IsAwake (taken (get_round now w.pool).1 + out) (get_first now w)
unfolding get_first
get_first-IsAwake now out w i a =
    settled-IsAwake out w (get_round now w.pool).0 (get_round now w.pool).1
      (get_round-IsCounted now out w.pool i) (get_round-max_size now w.pool)
      (λ e. get_round-waiting now out w.pool i e) a

WaitRun-IsAwake : {out : ℕ} {w : Waiters} → WaitRun out w → IsAwake out w
unfolding get_again give_back fail_dial notify
WaitRun-IsAwake (made size timeout h) = record {
  counted = new_pool-IsCounted size timeout h;
  awake = λ k. absurd (omega arith);
}
WaitRun-IsAwake (asked {out} {w} now run) =
    let s = WaitRun-IsAwake run in
    get_first-IsAwake now out w s.counted (λ h. omega (arith, s.awake h))
WaitRun-IsAwake (woke {out} {w} t a run) =
    let s = WaitRun-IsAwake run in
    record { counted = s.counted; awake = λ h. omega (arith, s.awake a) }
WaitRun-IsAwake (asked_again {out} {w} now k run) =
    let s = WaitRun-IsAwake run in
    get_first-IsAwake now out (record w { woken = w.woken - 1 }) s.counted
      (λ h. omega (arith, s.awake h))
WaitRun-IsAwake (gave_up {out} {w} a run) =
    let s = WaitRun-IsAwake run in
    record { counted = s.counted; awake = λ h. omega (arith, s.awake a) }
WaitRun-IsAwake (returned {out} {w} now c run) =
    let s = WaitRun-IsAwake run in
    record {
      counted = (put-IsCounted now c out w.pool s.counted).0;
      awake = λ h. omega (arith, s.awake h, put-max_size now c w.pool);
    }
WaitRun-IsAwake (failed {out} {w} run) =
    let s = WaitRun-IsAwake run in
    record {
      counted = dial_failed-IsCounted out w.pool s.counted;
      awake = λ h. omega (arith, s.awake h);
    }
WaitRun-IsAwake (notified {out} {w} o run) =
    let s = WaitRun-IsAwake run in
    elim (Bool-cases (ltb w.tokens w.pool.max_size)) [
      | inl y ↦ rw y (record { counted = s.counted; awake = λ h. omega (arith, s.awake h) })
      | inr n ↦ rw n (record { counted = s.counted; awake = λ h. ground arith })
    ]

-- While a goroutine sleeps in `Get` and the pool, which is not closed, has a place for it, an element
-- is in the channel, or another goroutine has just taken one, or is about to call `notify`; and
-- whoever makes a round of `Get` then need not wait. So no wake-up is lost.
pub WaitRun-keeps_awake :
    {out : ℕ} {w : Waiters} (now : ℕ)
    → WaitRun out w
    → 0 < w.asleep
    → out < w.pool.max_size
    → (0 < w.tokens + w.woken + w.owing) × ((get_round now w.pool).1 ≢ waiting)
WaitRun-keeps_awake {out} {w} now run a free =
    let s = WaitRun-IsAwake run in
    (
      omega (arith, s.awake a),
      λ e. absurd (omega (arith, get_round-waiting now out w.pool s.counted e)),
    )
