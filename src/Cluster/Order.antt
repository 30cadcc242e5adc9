-- ===== src/Cluster/Order.antt =====
-- The order of addresses, by which pkg/cluster/topology.go sorts.
use pluster.Prelude.{
  ◌≡◌, refl, sym, ◌∙◌, ap, subst, true, false, List, [], ◌∷◌, if◌then◌else◌, Bytes, arith,
  Bool-cases, inl, inr,
}
use pluster.Cluster.Parse.{addr_lt, insert_addr}

pub addr_lt_trans : (a b c : Bytes) → addr_lt a b ≡ true → addr_lt b c ≡ true → addr_lt a c ≡ true
unfolding addr_lt
addr_lt_trans [] [] c h k = cc
addr_lt_trans [] (y ∷ b) [] h k = cc
addr_lt_trans [] (y ∷ b) (z ∷ c) h k = refl
addr_lt_trans (x ∷ a) [] c h k = cc
addr_lt_trans (x ∷ a) (y ∷ b) [] h k = cc
addr_lt_trans (x ∷ a) (y ∷ b) (z ∷ c) h k = ground (arith, addr_lt_trans a b c)

addr_lt-asym : (a b : Bytes) → addr_lt a b ≡ true → addr_lt b a ≡ false
unfolding addr_lt
addr_lt-asym [] [] h = refl
addr_lt-asym [] (y ∷ b) h = refl
addr_lt-asym (x ∷ a) [] h = cc
addr_lt-asym (x ∷ a) (y ∷ b) h = ground (arith, addr_lt-asym a b)

addr_lt-connex : (a b : Bytes) → addr_lt a b ≡ false → addr_lt b a ≡ false → a ≡ b
unfolding addr_lt
addr_lt-connex [] [] h k = refl
addr_lt-connex [] (y ∷ b) h k = cc
addr_lt-connex (x ∷ a) [] h k = cc
addr_lt-connex (x ∷ a) (y ∷ b) h k = ground (arith, addr_lt-connex a b)

addr_lt-behind : (b x a : Bytes) → addr_lt x b ≡ false → addr_lt x a ≡ true → addr_lt b a ≡ true
addr_lt-behind b x a h k = elim (Bool-cases (addr_lt b x)) [
  | inl l ↦ addr_lt_trans b x a l k
  | inr n ↦ subst (λ y. addr_lt y a ≡ true) (addr_lt-connex x b h n) k
]

-- Two at the front of what is not below them.
front_two :
    (a b : Bytes) (xs : List Bytes)
    → (if addr_lt b a then b ∷ a ∷ xs else a ∷ b ∷ xs)
      ≡ (if addr_lt a b then a ∷ b ∷ xs else b ∷ a ∷ xs)
front_two a b xs = elim (Bool-cases (addr_lt b a)) [
  | inl l ↦ rw (l, addr_lt-asym b a l) refl
  | inr n ↦ elim (Bool-cases (addr_lt a b)) [
    | inl k ↦ rw (n, k) refl
    | inr m ↦
        rw (n, m)
          (ap (λ y. a ∷ y ∷ xs) (sym (addr_lt-connex a b m n))
            ∙ ap (λ y. y ∷ a ∷ xs) (addr_lt-connex a b m n))
  ]
]

-- The order in which two addresses are inserted does not matter.
pub insert_addr_comm :
    (a b : Bytes) (xs : List Bytes)
    → insert_addr a (insert_addr b xs) ≡ insert_addr b (insert_addr a xs)
unfolding insert_addr
insert_addr_comm a b [] = front_two a b []
insert_addr_comm a b (x ∷ xs) = elim (Bool-cases (addr_lt x a)) [
  | inl l ↦ elim (Bool-cases (addr_lt x b)) [
    | inl k ↦ rw (l, k) (rw l (ap (◌∷◌ x) (insert_addr_comm a b xs)))
    | inr m ↦ rw (l, m, addr_lt-behind b x a m l) (rw l refl)
  ]
  | inr n ↦ elim (Bool-cases (addr_lt x b)) [
    | inl k ↦ rw (n, k, addr_lt-behind a x b n k) (rw n refl)
    | inr m ↦ rw (n, m) (rw n (front_two a b (x ∷ xs)))
  ]
]
