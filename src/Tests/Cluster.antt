-- ===== src/Tests/Cluster.antt =====
-- pkg/cluster/topology.go and the choice of a node.
use pluster.Prelude.{◌+◌, ◌<◌, ◌≡◌, refl, some, [], ◌∷◌, arith, Bytes, bytes_eq, codes, length}
use pluster.Proto.Parse.{fields, trim_space}
use pluster.Cluster.{Node, role_master, Topology, find_node, slot_replicas}
use pluster.Cluster.Parse.{parse_cluster_nodes}
use pluster.Cluster.Parse.Closed.{parse_cluster_nodes-IsClosed}

abbrev master_node : Node
master_node = record {
  id = codes "m";
  addr = codes "n0";
  role = role_master;
  slots = (0, 9) ∷ [];
  replicas = codes "n1" ∷ codes "n2" ∷ [];
  master_id = [];
}

abbrev topology : Topology
topology = record {
  snap = record {
    nodes = master_node ∷ [];
    slots = λ slot. some (codes "n0");
    masters = codes "n0" ∷ [];
    version = 1;
  };
  rr_counter = 0;
  msrr_counter = 4;
  version = 1;
}

known_replicas : slot_replicas topology.snap (codes "n0") ≡ codes "n1" ∷ codes "n2" ∷ []
unfolding slot_replicas bytes_eq
known_replicas = refl

two_below : 2 < length (codes "n0" ∷ slot_replicas topology.snap (codes "n0"))
two_below = rw known_replicas (omega arith)

no_wrap : 4 + length (codes "n0" ∷ slot_replicas topology.snap (codes "n0")) < 18446744073709551616
no_wrap = rw known_replicas (omega arith)

abbrev nodes_text : Bytes
nodes_text =
    codes
      "m 10.0.0.1:1@2 myself,master - 0 0 1 connected 0-9 12\nr 10.0.0.2:1@2 slave m 0 0 1 connected\n"

slot_12 : (parse_cluster_nodes nodes_text).slots 12 ≡ some (codes "10.0.0.1:1")
unfolding parse_cluster_nodes bytes_eq fields trim_space
slot_12 = refl

parse_cluster_nodes-IsClosed_example :
    (n : Node) × (find_node (codes "10.0.0.1:1") (parse_cluster_nodes nodes_text).nodes ≡ some n)
parse_cluster_nodes-IsClosed_example =
    parse_cluster_nodes-IsClosed nodes_text 12 (codes "10.0.0.1:1") slot_12
