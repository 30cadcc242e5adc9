-- ===== src/Tests/Topology.antt =====
-- Refreshes of pkg/cluster/topology.go, and reading from a stream of pkg/proto/resp.go.
use mathlib.Core.List.{Perm}
use mathlib.Core.List.Permᴰ
use pluster.Prelude.{
  ◌≡◌, ◌≢◌, refl, none, some, List, [], ◌∷◌, Bytes, bytes_eq, codes, if◌then◌else◌,
}
use pluster.Proto.Parse.{fields, trim_space}
use pluster.Proto.Value.{bulk_string}
use pluster.Cluster.{Node, role_master}
use pluster.Cluster.Parse.{Parsed, parse_cluster_nodes}
use pluster.Cluster.Refresh.{Manager, Dial, new_manager, store, fetch_from, refresh}
use pluster.Cluster.Refresh.Unordered.{seen, store-perm}
use pluster.Cluster.Refresh.Lost.{IsLost, refresh-IsLost}
use pluster.Cluster.Refresh.Failover.{refresh-first}

abbrev one_node : Bytes → Node
one_node addr = record {
  id = addr;
  addr = addr;
  role = role_master;
  slots = (0, 9) ∷ [];
  replicas = [];
  master_id = [];
}

abbrev parsed : List Node → Parsed
parsed nodes = record { nodes = nodes; slots = λ slot. none }

-- A manager that has seen a node and has two entry points.
abbrev manager : Manager
manager = record (new_manager (codes "a" ∷ codes "b" ∷ []) [] []) { fingerprint = codes "a:m:" }

swapped :
    Perm
      (one_node (codes "a") ∷ one_node (codes "b") ∷ [])
      (one_node (codes "b") ∷ one_node (codes "a") ∷ [])
swapped = ∣ Permᴰ.swap refl refl ∣₁

store-perm_example :
    seen (store manager (parsed (one_node (codes "a") ∷ one_node (codes "b") ∷ [])))
    ≡ seen (store manager (parsed (one_node (codes "b") ∷ one_node (codes "a") ∷ [])))
store-perm_example =
    store-perm manager (parsed (one_node (codes "a") ∷ one_node (codes "b") ∷ []))
      (parsed (one_node (codes "b") ∷ one_node (codes "a") ∷ [])) swapped

-- The only node of the answer has failed.
abbrev failing : Bytes
failing = codes "m 10.0.0.1:1@2 master,fail - 0 0 1 disconnected 0-9\n"

abbrev all_failing : Dial
all_failing addr = some (λ sent. some (bulk_string failing))

no_node : (parse_cluster_nodes failing).nodes ≡ []
unfolding parse_cluster_nodes bytes_eq fields trim_space
no_node = refl

some_fingerprint : codes "a:m:" ≢ []
some_fingerprint e = cc

refresh-IsLost_example : (m : Manager) × (refresh all_failing manager ≡ some m) × IsLost m
refresh-IsLost_example =
    refresh-IsLost all_failing manager (codes "a") (codes "b" ∷ []) failing refl refl no_node
      some_fingerprint

-- "a" cannot be dialled, "b" answers.
abbrev only_b : Dial
only_b addr = if bytes_eq addr (codes "a") then none else some (λ sent. some (bulk_string failing))

a_fails : fetch_from (only_b (codes "a")) [] [] ≡ none
unfolding bytes_eq
a_fails = refl

b_answers : fetch_from (only_b (codes "b")) [] [] ≡ some failing
unfolding bytes_eq
b_answers = refl

refresh-first_example : refresh only_b manager ≡ some (store manager (parse_cluster_nodes failing))
refresh-first_example =
    refresh-first only_b manager (codes "a" ∷ []) (codes "b") [] failing refl (a_fails, tt)
      b_answers
