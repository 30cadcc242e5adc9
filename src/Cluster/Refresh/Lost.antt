-- ===== src/Cluster/Refresh/Lost.antt =====
-- A refresh from an entry point that knows no node.
use pluster.Prelude.{
  ◌≡◌, ◌≢◌, refl, sym, ◌∙◌, ap, false, Option, none, some, List, [], ◌∷◌, map, Bytes, bytes_eq,
  bytes_eq_iff, Bool-cases, Option-cases, inl, inr, ℕ, leb,
}
use pluster.Proto.Slot.{cluster_slots}
use pluster.Cluster.{Node, find_node, all_masters, get_node_for_slot}
use pluster.Cluster.Parse.{parse_cluster_nodes, sorted_masters, update}
use pluster.Cluster.Parse.Closed.{parse_cluster_nodes-IsClosed}
use pluster.Cluster.Refresh.{
  Manager, Dial, fetch_from, stored, store, refresh_from, refresh_any, refresh, on_tick, or_next,
  or_same, sort_strings, topo_fingerprint, on_topology_changed, call_hook, removed_addrs,
}

-- The manager has lost the cluster: no entry point is left, no master and no node for any slot is
-- known, and no refresh changes this any more, whatever the nodes would answer.
pub record IsLost (m : Manager) : Type 0 where
  pub entry_points : m.entry_points ≡ []
  pub masters : all_masters m.topo ≡ []
  pub slots : (slot : ℕ) → get_node_for_slot m.topo slot ≡ none
  pub fails : (dial : Dial) → refresh dial m ≡ none
  pub stays : (dial : Dial) → on_tick dial m ≡ m

no_slots :
    (raw : Bytes) (slot : ℕ)
    → (parse_cluster_nodes raw).nodes ≡ []
    → (parse_cluster_nodes raw).slots slot ≡ none
unfolding find_node
no_slots raw slot e = elim (Option-cases ((parse_cluster_nodes raw).slots slot)) [
  | inl n ↦ n
  | inr (addr, s) ↦
      let (n, f) = parse_cluster_nodes-IsClosed raw slot addr s in
      let nothing : find_node addr [] ≡ some n = ap (find_node addr) (sym e) ∙ f in cc
]

call_hook-topo :
    (addrs es : List Bytes) (m : Manager)
    → (record (call_hook addrs m) { entry_points = es }).topo ≡ m.topo
call_hook-topo [] es m = refl
call_hook-topo (a ∷ addrs) es m = elim (Bool-cases m.has_hook) [
  | inl y ↦ rw y refl
  | inr n ↦ rw n refl
]

no_entry_points-fails : (m : Manager) (dial : Dial) → m.entry_points ≡ [] → refresh dial m ≡ none
unfolding refresh refresh_any
no_entry_points-fails m dial e = ap (λ eps. refresh_any dial eps m) e

store-IsLost :
    (m : Manager) (raw : Bytes)
    → (parse_cluster_nodes raw).nodes ≡ []
    → m.fingerprint ≢ []
    → IsLost (store m (parse_cluster_nodes raw))
unfolding store topo_fingerprint sort_strings on_topology_changed update sorted_masters all_masters
    get_node_for_slot on_tick
store-IsLost m raw e f =
    let p = parse_cluster_nodes raw in
    let fp : topo_fingerprint p.nodes ≡ [] = ap topo_fingerprint e in
    let changed : bytes_eq (topo_fingerprint p.nodes) m.fingerprint ≡ false =
      elim (Bool-cases (bytes_eq (topo_fingerprint p.nodes) m.fingerprint)) [
        | inl y ↦
            absurd (f (sym ((bytes_eq_iff (topo_fingerprint p.nodes) m.fingerprint).0 y) ∙ fp))
        | inr n ↦ n
      ] in
    let m' = record m { topo = update p m.topo; fingerprint = topo_fingerprint p.nodes } in
    let eps = sort_strings (map (λ (n : Node). n.addr) p.nodes) in
    let same : store m p
        ≡ record (call_hook (removed_addrs m.topo.snap.nodes p.nodes) m') { entry_points = eps } =
      rw changed refl in
    let none_left : (store m p).entry_points ≡ [] =
      ap (λ (x : Manager). x.entry_points) same
      ∙ ap (λ ns. sort_strings (map (λ (n : Node). n.addr) ns)) e in
    let topo : (store m p).topo ≡ update p m.topo =
      ap (λ (x : Manager). x.topo) same
      ∙ call_hook-topo (removed_addrs m.topo.snap.nodes p.nodes) eps m' in
    record {
      entry_points = none_left;
      masters = ap all_masters topo ∙ ap sorted_masters e;
      slots = λ slot.
          ap (λ t. get_node_for_slot t slot) topo ∙ elim (Bool-cases (leb cluster_slots slot)) [
            | inl y ↦ rw y refl
            | inr n ↦ rw n (no_slots raw slot e)
          ];
      fails = λ dial. no_entry_points-fails (store m p) dial none_left;
      stays = λ dial. ap (or_same (store m p)) (no_entry_points-fails (store m p) dial none_left);
    }

-- Where the first entry point answers CLUSTER NODES with a text that has no node for
-- `parseClusterNodes`, and the fingerprint so far is not empty, the refresh succeeds, and the manager
-- has lost the cluster for good: no entry point, no master and no node of a slot is left, every later
-- refresh fails, and a tick changes nothing.
pub refresh-IsLost :
    (dial : Dial) (m : Manager) (ep : Bytes) (eps : List Bytes) (raw : Bytes)
    → m.entry_points ≡ ep ∷ eps
    → fetch_from (dial ep) m.username m.password ≡ some raw
    → (parse_cluster_nodes raw).nodes ≡ []
    → m.fingerprint ≢ []
    → (m' : Manager) × (refresh dial m ≡ some m') × IsLost m'
unfolding refresh refresh_any refresh_from
refresh-IsLost dial m ep eps raw p q e f = (
  store m (parse_cluster_nodes raw),
  ap (λ es. refresh_any dial es m) p
      ∙ ap (λ (o : Option Bytes). or_next (stored m o) (refresh_any dial eps m)) q,
  store-IsLost m raw e f,
)
