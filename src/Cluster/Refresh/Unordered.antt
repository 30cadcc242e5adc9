-- ===== src/Cluster/Refresh/Unordered.antt =====
-- The map of nodes as Go has it, without an order: what a refresh makes of it.
use mathlib.Core.Logic.{∥∥₁_elim}
use mathlib.Core.List.{Perm, Permᴰ}
use mathlib.Core.List as List
use mathlib.Core.List.Permᴰ
use native.Mathlib.Nat.{ℕ_set}
use pluster.Prelude.{
  ◌≡◌, refl, sym, ◌∙◌, ap, List, [], ◌∷◌, map, if◌then◌else◌, Bytes, bytes_eq, Bool-cases, inl, inr,
}
use pluster.Cluster.{Node}
use pluster.Cluster.Parse.{Parsed, insert_addr, sorted_masters, is_master, update}
use pluster.Cluster.Order.{insert_addr_comm}
use pluster.Cluster.Refresh.{
  Manager, sort_strings, join_bar, node_text, topo_fingerprint, on_topology_changed, call_hook,
  removed_addrs, store,
}

-- What others see of a refresh: the masters, the fingerprint, and the entry points.
pub record View : Type 0 where
  pub masters : List Bytes
  pub fingerprint : Bytes
  pub entry_points : List Bytes

abbrev pub seen : Manager → View
seen m = record {
  masters = m.topo.snap.masters;
  fingerprint = m.fingerprint;
  entry_points = m.entry_points;
}

sort_strings-permᴰ :
    {A : Type 0} (text : A → Bytes) {xs ys : List A}
    → Permᴰ xs ys
    → sort_strings (map text xs) ≡ sort_strings (map text ys)
unfolding sort_strings
sort_strings-permᴰ text Permᴰ.nil = refl
sort_strings-permᴰ text (Permᴰ.cons {a = a} {l₂ = l} e d) =
    ap (insert_addr (text a)) (sort_strings-permᴰ text d)
    ∙ ap (λ x. insert_addr (text x) (sort_strings (map text l))) e
sort_strings-permᴰ text (Permᴰ.swap {a = a} {b = b} {a' = a'} {l = l} e f) =
    insert_addr_comm (text a) (text b) (sort_strings (map text l))
    ∙ ap (λ x. insert_addr (text x) (insert_addr (text a) (sort_strings (map text l)))) f
    ∙ ap (λ x. insert_addr (text a') (insert_addr (text x) (sort_strings (map text l)))) e
sort_strings-permᴰ text (Permᴰ.trans d d') = sort_strings-permᴰ text d ∙ sort_strings-permᴰ text d'

abbrev insert_master : Node → List Bytes → List Bytes
insert_master n rest = if is_master n then insert_addr n.addr rest else rest

insert_master_comm :
    (a b : Node) (rest : List Bytes)
    → insert_master a (insert_master b rest) ≡ insert_master b (insert_master a rest)
insert_master_comm a b rest = elim (Bool-cases (is_master a)) [
  | inl y ↦ elim (Bool-cases (is_master b)) [
    | inl z ↦ rw (y, z) (insert_addr_comm a.addr b.addr rest)
    | inr n ↦ rw (y, n) refl
  ]
  | inr m ↦ rw m refl
]

sorted_masters-permᴰ : {xs ys : List Node} → Permᴰ xs ys → sorted_masters xs ≡ sorted_masters ys
unfolding sorted_masters
sorted_masters-permᴰ Permᴰ.nil = refl
sorted_masters-permᴰ (Permᴰ.cons {a = a} {l₂ = l} e d) =
    ap (insert_master a) (sorted_masters-permᴰ d) ∙ ap (λ n. insert_master n (sorted_masters l)) e
sorted_masters-permᴰ (Permᴰ.swap {a = a} {b = b} {a' = a'} {l = l} e f) =
    insert_master_comm a b (sorted_masters l)
    ∙ ap (λ n. insert_master n (insert_master a (sorted_masters l))) f
    ∙ ap (λ n. insert_master a' (insert_master n (sorted_masters l))) e
sorted_masters-permᴰ (Permᴰ.trans d d') = sorted_masters-permᴰ d ∙ sorted_masters-permᴰ d'

texts_set : IsSet (List Bytes)
texts_set = List.is_set (List.is_set ℕ_set)

sort_strings-perm :
    {A : Type 0} (text : A → Bytes) (xs ys : List A)
    → Perm xs ys
    → sort_strings (map text xs) ≡ sort_strings (map text ys)
sort_strings-perm text xs ys p = ∥∥₁_elim p (texts_set _ _) (sort_strings-permᴰ text)

sorted_masters-perm : (xs ys : List Node) → Perm xs ys → sorted_masters xs ≡ sorted_masters ys
sorted_masters-perm xs ys p = ∥∥₁_elim p (texts_set _ _) sorted_masters-permᴰ

-- The three parts by themselves.
abbrev view : List Bytes → Bytes → List Bytes → View
view masters fingerprint entry_points = record {
  masters = masters;
  fingerprint = fingerprint;
  entry_points = entry_points;
}

abbrev node_addr : Node → Bytes
node_addr n = n.addr

-- The entry points stay where the fingerprint has not changed.
abbrev view_after : Manager → List Bytes → Bytes → List Bytes → View
view_after m masters fingerprint addrs =
    view masters fingerprint (if bytes_eq fingerprint m.fingerprint then m.entry_points else addrs)

call_hook-seen :
    (addrs entry_points : List Bytes) (m : Manager)
    → seen (record (call_hook addrs m) { entry_points = entry_points })
      ≡ view m.topo.snap.masters m.fingerprint entry_points
call_hook-seen [] entry_points m = refl
call_hook-seen (a ∷ addrs) entry_points m = elim (Bool-cases m.has_hook) [
  | inl y ↦ rw y refl
  | inr n ↦ rw n refl
]

store-seen :
    (m : Manager) (p : Parsed)
    → seen (store m p)
      ≡ view_after m
          (sorted_masters p.nodes)
          (topo_fingerprint p.nodes)
          (sort_strings (map node_addr p.nodes))
unfolding store update on_topology_changed
store-seen m p = elim (Bool-cases (bytes_eq (topo_fingerprint p.nodes) m.fingerprint)) [
  | inl y ↦ rw y refl
  | inr n ↦ rw n (
      call_hook-seen (removed_addrs m.topo.snap.nodes p.nodes)
        (sort_strings (map node_addr p.nodes))
        (record m { topo = update p m.topo; fingerprint = topo_fingerprint p.nodes }))
]

-- Go's order of the map of nodes is arbitrary. Whatever it is, a refresh that has parsed the same
-- nodes gives the same list of masters, the same fingerprint, and the same entry points.
pub store-perm :
    (m : Manager) (p q : Parsed) → Perm p.nodes q.nodes → seen (store m p) ≡ seen (store m q)
unfolding topo_fingerprint
store-perm m p q h =
    let masters = sorted_masters-perm p.nodes q.nodes h in
    let fingerprint = ap join_bar (sort_strings-perm node_text p.nodes q.nodes h) in
    let addrs = sort_strings-perm node_addr p.nodes q.nodes h in
    store-seen m p
    ∙ ap (λ ms. view_after m ms (topo_fingerprint p.nodes) (sort_strings (map node_addr p.nodes)))
        masters
    ∙ ap (λ f. view_after m (sorted_masters q.nodes) f (sort_strings (map node_addr p.nodes)))
        fingerprint
    ∙ ap (λ es. view_after m (sorted_masters q.nodes) (topo_fingerprint q.nodes) es) addrs
    ∙ sym (store-seen m q)
