-- ===== src/Cluster.antt =====
-- pkg/cluster/topology.go: the nodes of the cluster, the slots that they serve, and the choice of a
-- node for a slot. A `*Node` is the address of the node, under which it stands in the map of its
-- snapshot; a snapshot is never changed once it is built.
pub mod Balance
pub mod Parse
pub mod Order
pub mod Refresh
use pluster.Prelude.{
  ℕ, zero, suc, ◌+◌, ◌%◌, Bool, true, false, Option, none, some, List, [], ◌∷◌, ltb, leb, ◌==◌,
  if◌then◌else◌, Bytes, bytes_eq, length, get_elem?,
}
use pluster.Proto.Int64.{add64}
use pluster.Proto.Slot.{cluster_slots}

-- `NodeRole`.
pub data NodeRole : Type 0 where
  role_master role_replica : NodeRole

-- `Node`; the bounds of a range of slots are ints, as patterns of 64 bits.
pub record Node : Type 0 where
  pub id : Bytes
  pub addr : Bytes
  pub role : NodeRole
  pub slots : List (ℕ × ℕ)
  pub replicas : List Bytes
  pub master_id : Bytes

-- `topoSnapshot`, without `fingerprint`; `nodes` holds one node for each address.
pub record Snapshot : Type 0 where
  pub nodes : List Node
  pub slots : ℕ → Option Bytes
  pub masters : List Bytes
  pub version : ℕ

-- `Topology`; the counters are uint64.
pub record Topology : Type 0 where
  pub snap : Snapshot
  pub rr_counter : ℕ
  pub msrr_counter : ℕ
  pub version : ℕ

-- A lookup in the map of nodes.
unfoldable pub find_node : Bytes → List Node → Option Node
find_node addr [] = none
find_node addr (n ∷ ns) =
    let rest = find_node addr ns in if bytes_eq n.addr addr then some n else rest

-- `slot < 0 || slot >= ClusterSlots`; a negative slot is a pattern from 2^63 on.
abbrev pub slot_of : Snapshot → ℕ → Option Bytes
slot_of snap slot = if leb cluster_slots slot then none else snap.slots slot

-- `GetNodeForSlot`.
unfoldable pub get_node_for_slot : Topology → ℕ → Option Bytes
get_node_for_slot t slot = slot_of t.snap slot

abbrev pub replicas_of : Option Node → List Bytes
replicas_of none = []
replicas_of (some n) = n.replicas

-- The replicas of the master of a slot.
unfoldable pub slot_replicas : Snapshot → Bytes → List Bytes
unfolding find_node
slot_replicas snap master = replicas_of (find_node master snap.nodes)

-- `counter.Add(1) % uint64(len(addrs))`, and the element at it.
abbrev pub round_robin : ℕ → List Bytes → Option Bytes
round_robin counter [] = none
round_robin counter (a ∷ addrs) = get_elem? (a ∷ addrs) (counter % length (a ∷ addrs))

-- `GetReplicaForSlot`: the counter goes up where there are replicas.
abbrev pub replica_from : Topology → List Bytes → Topology × Option Bytes
replica_from t [] = (t, none)
replica_from t (a ∷ addrs) =
    let counter = add64 t.rr_counter 1 in
    (record t { rr_counter = counter }, round_robin counter (a ∷ addrs))

unfoldable pub get_replica_for_slot : Topology → ℕ → Topology × Option Bytes
unfolding slot_replicas
get_replica_for_slot t slot = elim (slot_of t.snap slot) [
  | none ↦ (t, none)
  | some master ↦ replica_from t (slot_replicas t.snap master)
]

-- `GetNodeForSlotPreferReplica`.
abbrev pub or_master : Topology × Option Bytes → ℕ → Topology × Option Bytes
or_master (t, some addr) slot = (t, some addr)
or_master (t, none) slot = (t, slot_of t.snap slot)

unfoldable pub get_node_for_slot_prefer_replica : Topology → ℕ → Topology × Option Bytes
unfolding get_replica_for_slot
get_node_for_slot_prefer_replica t slot = or_master (get_replica_for_slot t slot) slot

-- `GetNodeForSlotBalanced`.
unfoldable pub get_node_for_slot_balanced : Topology → ℕ → Topology × Option Bytes
unfolding slot_replicas
get_node_for_slot_balanced t slot = elim (slot_of t.snap slot) [
  | none ↦ (t, none)
  | some master ↦
      let counter = add64 t.msrr_counter 1 in
      (
        record t { msrr_counter = counter },
        round_robin counter (master ∷ slot_replicas t.snap master),
      )
]

-- `GetNodeByAddr`.
unfoldable pub get_node_by_addr : Topology → Bytes → Option Node
unfolding find_node
get_node_by_addr t addr = find_node addr t.snap.nodes

-- `AllMasters`.
unfoldable pub all_masters : Topology → List Bytes
all_masters t = t.snap.masters

-- `ReadMode` of pkg/config/config.go.
pub data ReadMode : Type 0 where
  read_mode_master_only read_mode_master_slave read_mode_slave_only : ReadMode

-- `nodeAddrForSlot` of pkg/router/router.go; none is its error.
unfoldable pub node_addr_for_slot : ReadMode → Topology → ℕ → Bool → Topology × Option Bytes
unfolding get_node_for_slot get_node_for_slot_balanced get_node_for_slot_prefer_replica
node_addr_for_slot read_mode_master_slave t slot true = get_node_for_slot_balanced t slot
node_addr_for_slot read_mode_slave_only t slot true = get_node_for_slot_prefer_replica t slot
node_addr_for_slot _ t slot _ = (t, get_node_for_slot t slot)
