-- ===== src/Cluster/Balance.antt =====
-- Where `nodeAddrForSlot` sends a request, and that its choices are balanced.
use native.Mathlib.Nat.{mod-lt, mod-add-mod, add-mod_left, mod-eq_of_lt}
use pluster.Prelude.{
  ℕ, zero, suc, ◌+◌, ◌-◌, ◌%◌, ◌<◌, ◌≤◌, ◌≡◌, inl, inr, refl, sym, ap, ◌∙◌, Bool, true, false,
  Option, some, List, [], ◌∷◌, arith, Bytes, length, get_elem?, leb, Bool-cases,
}
use pluster.Prelude.Index.{get_elem?-below}
use pluster.Proto.Int64.{word, add64}
use pluster.Cluster.{
  Topology, slot_of, slot_replicas, round_robin, replica_from, get_replica_for_slot,
  get_node_for_slot_prefer_replica, get_node_for_slot_balanced, get_node_for_slot, or_master,
  ReadMode, read_mode_master_only, read_mode_master_slave, read_mode_slave_only, node_addr_for_slot,
}

-- Calls one after another, for the same slot.
abbrev pub balanced_calls : ℕ → Topology → ℕ → Topology × Option Bytes
balanced_calls zero t slot = get_node_for_slot_balanced t slot
balanced_calls (suc n) t slot = balanced_calls n (get_node_for_slot_balanced t slot).0 slot

balanced_call :
    (t : Topology) (slot : ℕ) (master : Bytes)
    → slot_of t.snap slot ≡ some master
    → t.msrr_counter + 1 < word
    → get_node_for_slot_balanced t slot ≡ (
      record t { msrr_counter = t.msrr_counter + 1 },
      round_robin (t.msrr_counter + 1) (master ∷ slot_replicas t.snap master),
    )
unfolding get_node_for_slot_balanced
balanced_call t slot master h w =
    let e : add64 t.msrr_counter 1 ≡ t.msrr_counter + 1 = omega arith in
    rw (get_node_for_slot_balanced, h, e) refl

-- The call after `n` others.
balanced_calls-eq :
    (n : ℕ) (t : Topology) (slot : ℕ) (master : Bytes)
    → slot_of t.snap slot ≡ some master
    → t.msrr_counter + suc n < word
    → (balanced_calls n t slot).1
      ≡ round_robin (t.msrr_counter + suc n) (master ∷ slot_replicas t.snap master)
balanced_calls-eq zero t slot master h w = ap (λ r. r.1) (balanced_call t slot master h w)
balanced_calls-eq (suc n) t slot master h w =
    let f : t.msrr_counter + 1 + suc n ≡ t.msrr_counter + suc (suc n) = omega arith in
    ap (λ r. (balanced_calls n r.0 slot).1) (balanced_call t slot master h (omega arith))
    ∙ balanced_calls-eq n (record t { msrr_counter = t.msrr_counter + 1 }) slot master h
        (omega arith)
    ∙ ap (λ c. round_robin c (master ∷ slot_replicas t.snap master)) f

-- Every number below `n` comes up among the `n` counters behind any counter.
turn-comes : (counter n j : ℕ) → j < n → (i : ℕ) × (i < n) × ((counter + suc i) % n ≡ j)
turn-comes counter n j h =
    let r = (counter + 1) % n in
    let below : r < n = mod-lt (counter + 1) (omega arith) in
    elim (Bool-cases (leb r j)) [
      | inl e ↦
          let le : r ≤ j = ground arith in
          (j - r, omega arith, turn (j - r) ∙ ap (λ m. m % n) (omega (arith, le)) ∙ mod-eq_of_lt h)
      | inr e ↦
          let lt : j < r = ground arith in
          (
            n + j - r,
            omega arith,
            turn (n + j - r)
                ∙ ap (λ m. m % n) (omega (arith, lt))
                ∙ add-mod_left n j
                ∙ mod-eq_of_lt h,
          )
    ]
  where
    turn : (i : ℕ) → (counter + suc i) % n ≡ ((counter + 1) % n + i) % n
    turn i =
        let e : counter + suc i ≡ counter + 1 + i = omega arith in
        ap (λ m. m % n) e ∙ sym (mod-add-mod (counter + 1) n i)

round_robin-eq :
    (counter j : ℕ) (a : Bytes) (addrs : List Bytes)
    → counter % length (a ∷ addrs) ≡ j
    → round_robin counter (a ∷ addrs) ≡ get_elem? (a ∷ addrs) j
round_robin-eq counter j a addrs h = ap (get_elem? (a ∷ addrs)) h

-- Calls of `GetNodeForSlotBalanced` for a slot that has a master reach every node of the slot: among
-- as many calls in a row as the master and its replicas are nodes, there is one that returns the
-- node at any place of that list, if the counter does not wrap around.
pub get_node_for_slot_balanced-fair :
    (t : Topology) (slot : ℕ) (master : Bytes) (j : ℕ)
    → slot_of t.snap slot ≡ some master
    → j < length (master ∷ slot_replicas t.snap master)
    → t.msrr_counter + length (master ∷ slot_replicas t.snap master) < word
    → (i : ℕ) × (i < length (master ∷ slot_replicas t.snap master))
      × ((balanced_calls i t slot).1 ≡ get_elem? (master ∷ slot_replicas t.snap master) j)
get_node_for_slot_balanced-fair t slot master j h b w =
    let addrs = master ∷ slot_replicas t.snap master in
    let (i, l, e) = turn-comes t.msrr_counter (length addrs) j b in
    (
      i,
      l,
      balanced_calls-eq i t slot master h (omega (arith, l, w))
          ∙ round_robin-eq (t.msrr_counter + suc i) j master (slot_replicas t.snap master) e,
    )

-- The choice of an address among those of a slot.
abbrev pub Among : List Bytes → Topology × Option Bytes → Type 0
Among addrs r = (i : ℕ) × (addr : Bytes) × (r.1 ≡ some addr) × (get_elem? addrs i ≡ some addr)

round_robin-Among :
    (t : Topology) (counter : ℕ) (a : Bytes) (addrs : List Bytes)
    → Among (a ∷ addrs) (t, round_robin counter (a ∷ addrs))
round_robin-Among t counter a addrs =
    let n = counter % length (a ∷ addrs) in
    let (addr, e) = get_elem?-below (a ∷ addrs) n (mod-lt counter (omega arith)) in (n, addr, e, e)

balanced-Among :
    (t : Topology) (slot : ℕ) (master : Bytes)
    → slot_of t.snap slot ≡ some master
    → Among (master ∷ slot_replicas t.snap master) (get_node_for_slot_balanced t slot)
unfolding get_node_for_slot_balanced
balanced-Among t slot master h =
    rw (get_node_for_slot_balanced, h)
      (round_robin-Among t (add64 t.msrr_counter 1) master (slot_replicas t.snap master))

replica_from-Among :
    (t : Topology) (slot : ℕ) (master : Bytes) (addrs : List Bytes)
    → slot_of t.snap slot ≡ some master
    → Among (master ∷ addrs) (or_master (replica_from t addrs) slot)
replica_from-Among t slot master [] h = (0, master, h, refl)
replica_from-Among t slot master (a ∷ addrs) h =
    let (i, addr, e, f) = round_robin-Among t (add64 t.rr_counter 1) a addrs in
    rw (or_master, e) (suc i, addr, refl, f)

replica-Among :
    (t : Topology) (slot : ℕ) (master : Bytes)
    → slot_of t.snap slot ≡ some master
    → Among (master ∷ slot_replicas t.snap master) (get_node_for_slot_prefer_replica t slot)
unfolding get_node_for_slot_prefer_replica get_replica_for_slot
replica-Among t slot master h =
    rw (get_node_for_slot_prefer_replica, get_replica_for_slot, h)
      (replica_from-Among t slot master (slot_replicas t.snap master) h)

-- Where a slot has a master, `nodeAddrForSlot` finds an address in every read mode: that of the
-- master or of one of its replicas, and that of the master for a request that does not only read.
pub node_addr_for_slot-Among :
    (mode : ReadMode) (t : Topology) (slot : ℕ) (is_read : Bool) (master : Bytes)
    → slot_of t.snap slot ≡ some master
    → Among (master ∷ slot_replicas t.snap master) (node_addr_for_slot mode t slot is_read)
      × ((node_addr_for_slot mode t slot false).1 ≡ some master)
unfolding node_addr_for_slot get_node_for_slot
node_addr_for_slot-Among read_mode_master_slave t slot true master h =
    (balanced-Among t slot master h, h)
node_addr_for_slot-Among read_mode_slave_only t slot true master h =
    (replica-Among t slot master h, h)
node_addr_for_slot-Among read_mode_master_only t slot true master h = ((0, master, h, refl), h)
node_addr_for_slot-Among read_mode_master_only t slot false master h = ((0, master, h, refl), h)
node_addr_for_slot-Among read_mode_master_slave t slot false master h = ((0, master, h, refl), h)
node_addr_for_slot-Among read_mode_slave_only t slot false master h = ((0, master, h, refl), h)
