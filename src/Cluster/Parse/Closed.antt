-- ===== src/Cluster/Parse/Closed.antt =====
-- Every slot of a parsed topology leads to a node of its map.
use pluster.Prelude.{
  ℕ, ◌≡◌, ◌⊎◌, inl, inr, refl, sym, subst, ◌∙◌, Bool, true, false, ◌&&◌, Option, none, some, List,
  [], ◌∷◌, Bytes, bytes_eq, bytes_eq_iff, ltb, Bool-cases, if◌then◌else◌, codes, length, drop, ◌||◌,
}
use pluster.Prelude.Index.{some_inj, none-some}
use pluster.Proto.Slot.{cluster_slots}
use pluster.Proto.Parse.{fields, trim_space}
use pluster.Cluster.{Node, find_node}
use pluster.Cluster.Parse.{
  Parsed, put_node, in_range, set_range, slot_range, add_range, add_ranges, node_for, with_role,
  has_word, add_node, add_fields, add_lines, add_replica, is_replica_node, add_replicas,
  nothing_parsed, parse_cluster_nodes, split_on, skipped_addr, skipped_flags, before_first,
}

-- An address in the map.
abbrev pub Has : Bytes → List Node → Type 0
Has a [] = ⊥
Has a (n ∷ ns) = (n.addr ≡ a) ⊎ Has a ns

put_node-Has : (n : Node) (ns : List Node) → Has n.addr (put_node n ns)
unfolding put_node
put_node-Has n [] = inl refl
put_node-Has n (m ∷ ms) = elim (Bool-cases (bytes_eq m.addr n.addr)) [
  | inl e ↦ rw e (inl refl)
  | inr e ↦ rw e (inr (put_node-Has n ms))
]

put_node_keeps : (a : Bytes) (n : Node) (ns : List Node) → Has a ns → Has a (put_node n ns)
unfolding put_node
put_node_keeps a n [] h = absurd h
put_node_keeps a n (m ∷ ms) (inl p) = elim (Bool-cases (bytes_eq m.addr n.addr)) [
  | inl e ↦ rw e (inl (sym ((bytes_eq_iff m.addr n.addr).0 e) ∙ p))
  | inr e ↦ rw e (inl p)
]
put_node_keeps a n (m ∷ ms) (inr h) = elim (Bool-cases (bytes_eq m.addr n.addr)) [
  | inl e ↦ rw e (inr h)
  | inr e ↦ rw e (inr (put_node_keeps a n ms h))
]

-- A slot that has an address after the ranges of a line had it before, or has that of the node.
From : Node → (ℕ → Option Bytes) → Node × (ℕ → Option Bytes) → Type 0
From n slots r =
    (r.0.addr ≡ n.addr) × ((x : ℕ) (a : Bytes) → r.1 x ≡ some a → (n.addr ≡ a) ⊎ (slots x ≡ some a))

set_range-from :
    (addr : Bytes) (start last : ℕ) (slots : ℕ → Option Bytes) (x : ℕ) (a : Bytes)
    → set_range addr start last slots x ≡ some a
    → (addr ≡ a) ⊎ (slots x ≡ some a)
unfolding set_range
set_range-from addr start last slots x a h =
    elim (Bool-cases (in_range start last x && ltb x cluster_slots)) [
      | inl e ↦ inl (some_inj (rw e at h))
      | inr e ↦ inr (rw e at h)
    ]

add_range-From :
    (n : Node) (slots : ℕ → Option Bytes) (r : Option (ℕ × ℕ)) → From n slots (add_range n slots r)
unfolding From
add_range-From n slots none = (refl, λ x a h. inr h)
add_range-From n slots (some (start, last)) =
    (refl, λ x a h. set_range-from n.addr start last slots x a h)

add_ranges-From :
    (n : Node) (slots : ℕ → Option Bytes) (fs : List Bytes) → From n slots (add_ranges n slots fs)
unfolding From add_ranges
add_ranges-From n slots [] = (refl, λ x a h. inr h)
add_ranges-From n slots (f ∷ fs) =
    let (n', slots') = add_range n slots (slot_range f) in
    let (p, q) = add_range-From n slots (slot_range f) in
    let (p', q') = add_ranges-From n' slots' fs in
    (p' ∙ p, λ x a h. elim (q' x a h) [ inl e ↦ inl (sym p ∙ e) | inr e ↦ q x a e ])

-- Every slot leads to a node of the map.
abbrev pub IsClosed : Parsed → Type 0
IsClosed p = (x : ℕ) (a : Bytes) → p.slots x ≡ some a → Has a p.nodes

if-IsClosed : (b : Bool) (p q : Parsed) → IsClosed p → IsClosed q → IsClosed (if b then p else q)
if-IsClosed true p q h k = h
if-IsClosed false p q h k = k

add_node-IsClosed :
    (id addr : Bytes) (flags : List Bytes) (master_id : Bytes) (ranges : List Bytes) (p : Parsed)
    → IsClosed p
    → IsClosed (add_node id addr flags master_id ranges p)
unfolding add_node From
add_node-IsClosed id addr flags master_id ranges p c =
    let n = with_role flags master_id (node_for id addr (find_node addr p.nodes)) in
    let r = add_ranges n p.slots ranges in
    let (same, from) = add_ranges-From n p.slots ranges in
    if-IsClosed (has_word (codes "master") flags) _ _
      (λ x a h. elim (from x a h) [
        | inl q ↦ subst (λ b. Has b (put_node r.0 p.nodes)) (same ∙ q) (put_node-Has r.0 p.nodes)
        | inr q ↦ put_node_keeps a r.0 p.nodes (c x a q)
      ])
      (λ x a h. put_node_keeps a n p.nodes (c x a h))

add_fields-IsClosed : (p : Parsed) (fs : List Bytes) → IsClosed p → IsClosed (add_fields p fs)
add_fields-IsClosed p [] c = c
add_fields-IsClosed p (id ∷ []) c = c
add_fields-IsClosed p (id ∷ addr ∷ []) c = c
add_fields-IsClosed p (id ∷ addr ∷ flags ∷ []) c = c
add_fields-IsClosed p (id ∷ addr_field ∷ flags_field ∷ master_id ∷ more) c =
    let addr = before_first b'@' addr_field in
    let flags = split_on b',' flags_field in
    if-IsClosed (ltb (length more) 4) p _ c (
      if-IsClosed (skipped_addr addr || skipped_flags flags) p _ c
        (add_node-IsClosed id addr flags master_id (drop 4 more) p c))

add_lines-IsClosed : (p : Parsed) (lines : List Bytes) → IsClosed p → IsClosed (add_lines p lines)
unfolding add_lines
add_lines-IsClosed p [] c = c
add_lines-IsClosed p (line ∷ lines) c =
    add_lines-IsClosed (add_fields p (fields (trim_space line))) lines
      (add_fields-IsClosed p (fields (trim_space line)) c)

add_replica_keeps : (a addr id : Bytes) (ns : List Node) → Has a ns → Has a (add_replica addr id ns)
unfolding add_replica
add_replica_keeps a addr id [] h = absurd h
add_replica_keeps a addr id (n ∷ ns) h = elim (Bool-cases (bytes_eq n.id id)) [
  | inl e ↦ rw e h
  | inr e ↦ rw e (elim h [ inl p ↦ inl p | inr k ↦ inr (add_replica_keeps a addr id ns k) ])
]

add_replicas_keeps : (a : Bytes) (rs ns : List Node) → Has a ns → Has a (add_replicas rs ns)
unfolding add_replicas
add_replicas_keeps a [] ns h = h
add_replicas_keeps a (r ∷ rs) ns h = elim (Bool-cases (is_replica_node r)) [
  | inl e ↦ rw e (
      add_replicas_keeps a rs (add_replica r.addr r.master_id ns)
        (add_replica_keeps a r.addr r.master_id ns h))
  | inr e ↦ rw e (add_replicas_keeps a rs ns h)
]

Has-find_node : (a : Bytes) (ns : List Node) → Has a ns → (n : Node) × (find_node a ns ≡ some n)
unfolding find_node
Has-find_node a [] h = absurd h
Has-find_node a (n ∷ ns) h = elim (Bool-cases (bytes_eq n.addr a)) [
  | inl e ↦ (n, rw e refl)
  | inr e ↦ elim h [
    | inl p ↦ let no : bytes_eq n.addr a ≡ true = (bytes_eq_iff n.addr a).1 p in cc
    | inr k ↦ let (m, f) = Has-find_node a ns k in (m, rw e f)
  ]
]

-- Whatever text a node answers to CLUSTER NODES with, an address that a slot of the topology read
-- from it leads to is that of a node of this topology.
pub parse_cluster_nodes-IsClosed :
    (raw : Bytes) (slot : ℕ) (a : Bytes)
    → (parse_cluster_nodes raw).slots slot ≡ some a
    → (n : Node) × (find_node a (parse_cluster_nodes raw).nodes ≡ some n)
unfolding parse_cluster_nodes
parse_cluster_nodes-IsClosed raw slot a h =
    let lines = split_on b'\n' (trim_space raw) in
    let p = add_lines nothing_parsed lines in
    Has-find_node a (add_replicas p.nodes p.nodes) (
      add_replicas_keeps a p.nodes p.nodes
        (add_lines-IsClosed nothing_parsed lines (λ x b e. absurd (none-some e)) slot a h))
