-- ===== src/Engine/Blocking/Idle.antt =====
-- The pool keeps no more than its cap, and hands out each connection that it keeps once.
use pluster.Prelude.{
  ℕ, suc, ◌≤◌, ◌≡◌, refl, sym, ◌∙◌, ap, true, some, List, [], ◌∷◌, ◌==◌, leb, if◌then◌else◌, Bytes,
  bytes_eq, bytes_eq_iff, length, Bool-cases, inl, inr, arith,
}
use pluster.Engine.Blocking.{
  BlockingConnPool, blocking_pool_cap, new_blocking_conn_pool, reuse_idle, reuse_from, put_idle,
}

-- How often a connection stands in a list.
abbrev pub occurrences : ℕ → List ℕ → ℕ
occurrences c [] = 0
occurrences c (d ∷ ds) = if d == c then suc (occurrences c ds) else occurrences c ds

-- For an address: no more connections than the cap, and each connection `c` as often as it has been
-- kept and not handed out since, `kept addr c` times.
pub record IsIdle (kept : Bytes → ℕ → ℕ) (p : BlockingConnPool) : Type 0 where
  pub capped : (addr : Bytes) → length (p.idle addr) ≤ blocking_pool_cap
  pub accounted : (addr : Bytes) (c : ℕ) → occurrences c (p.idle addr) ≡ kept addr c

abbrev pub one_more : (Bytes → ℕ → ℕ) → Bytes → ℕ → Bytes → ℕ → ℕ
one_more kept addr c a d =
    if bytes_eq a addr then (if c == d then suc (kept a d) else kept a d) else kept a d

-- The connections that `put` has kept and `get` has not handed out since, by address.
pub data IdleRun : (Bytes → ℕ → ℕ) → BlockingConnPool → Type 0 where
  none_yet : IdleRun (λ a c. 0) new_blocking_conn_pool
  was_kept :
      {kept : Bytes → ℕ → ℕ} {p : BlockingConnPool} (addr : Bytes) (c : ℕ)
      → (put_idle p addr c).1 ≡ true
      → IdleRun kept p
      → IdleRun (one_more kept addr c) (put_idle p addr c).0
  was_reused :
      {kept : Bytes → ℕ → ℕ} {p : BlockingConnPool} (addr : Bytes) (c : ℕ)
      → (reuse_idle p addr).1 ≡ some c
      → IdleRun (one_more kept addr c) p
      → IdleRun kept (reuse_idle p addr).0

put_idle-IsIdle :
    (kept : Bytes → ℕ → ℕ) (p : BlockingConnPool) (addr : Bytes) (c : ℕ)
    → (put_idle p addr c).1 ≡ true
    → IsIdle kept p
    → IsIdle (one_more kept addr c) (put_idle p addr c).0
unfolding put_idle
put_idle-IsIdle kept p addr c h i =
    elim (Bool-cases (leb blocking_pool_cap (length (p.idle addr)))) [
      | inl full ↦ cc (rw full at h)
      | inr room ↦ rw room (record {
        capped = λ a. elim (Bool-cases (bytes_eq a addr)) [
          | inl y ↦ rw y (ground arith)
          | inr n ↦ rw n (i.capped a)
        ];
        accounted = λ a d. elim (Bool-cases (bytes_eq a addr)) [
          | inl y ↦ rw y (ap (λ n. if c == d then suc n else n) (listed a d y))
          | inr n ↦ rw n (i.accounted a d)
        ];
      })
    ]
  where
    listed : (a : Bytes) (d : ℕ) → bytes_eq a addr ≡ true → occurrences d (p.idle addr) ≡ kept a d
    listed a d y =
        ap (λ x. occurrences d (p.idle x)) (sym ((bytes_eq_iff a addr).0 y)) ∙ i.accounted a d

reuse_from-IsIdle :
    (kept : Bytes → ℕ → ℕ) (p : BlockingConnPool) (addr : Bytes) (c : ℕ) (conns : List ℕ)
    → p.idle addr ≡ conns
    → (reuse_from p addr conns).1 ≡ some c
    → IsIdle (one_more kept addr c) p
    → IsIdle kept (reuse_from p addr conns).0
reuse_from-IsIdle kept p addr c [] e h i = cc
reuse_from-IsIdle kept p addr c (x ∷ conns) e h i = record {
  capped = λ a. elim (Bool-cases (bytes_eq a addr)) [
    | inl y ↦ rw y (omega (arith, ap length e, i.capped addr))
    | inr n ↦ rw n (i.capped a)
  ];
  accounted = λ a d. elim (Bool-cases (bytes_eq a addr)) [
    | inl y ↦ rw y (rest a d y)
    | inr n ↦ rw n (i.accounted a d ∙ rw n refl)
  ];
}
  where
    same : x ≡ c
    same = ground arith

    both :
        (a : Bytes) (d : ℕ)
        → bytes_eq a addr ≡ true
        → occurrences d (x ∷ conns) ≡ one_more kept addr c a d
    both a d y =
        ap (occurrences d) (sym e)
        ∙ ap (λ b. occurrences d (p.idle b)) (sym ((bytes_eq_iff a addr).0 y))
        ∙ i.accounted a d

    rest : (a : Bytes) (d : ℕ) → bytes_eq a addr ≡ true → occurrences d conns ≡ kept a d
    rest a d y = ground (arith, both a d y, same)

-- However connections are put back and taken, for each address the pool holds ten at most, and each
-- connection as often as `put` has kept it and `get` has not handed it out since.
pub IdleRun-IsIdle : {kept : Bytes → ℕ → ℕ} {p : BlockingConnPool} → IdleRun kept p → IsIdle kept p
unfolding reuse_idle
IdleRun-IsIdle none_yet = record { capped = λ a. ground arith; accounted = λ a c. refl }
IdleRun-IsIdle (was_kept {kept} {p} addr c h run) =
    put_idle-IsIdle kept p addr c h (IdleRun-IsIdle run)
IdleRun-IsIdle (was_reused {kept} {p} addr c h run) =
    reuse_from-IsIdle kept p addr c (p.idle addr) refl h (IdleRun-IsIdle run)
