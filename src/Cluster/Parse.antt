-- ===== src/Cluster/Parse.antt =====
-- `parseClusterNodes` and `Update` of pkg/cluster/topology.go: a snapshot from the answer to CLUSTER
-- NODES. White space is that of ASCII. Go's order of a map is arbitrary; here a map is gone through
-- in the order in which its keys have come.
pub mod Closed
pub mod Range
use pluster.Prelude.{
  ℕ, zero, suc, ◌+◌, ◌&&◌, ◌||◌, not, Bool, true, false, Option, none, some, List, [], ◌∷◌, ◌++◌,
  map, ltb, leb, ◌==◌, if◌then◌else◌, Bytes, bytes_eq, codes, length, drop,
}
use pluster.Proto.Int64.{lt64, add64}
use pluster.Proto.Value.{has_prefix}
use pluster.Proto.Slot.{cluster_slots}
use pluster.Proto.Parse.{fields, trim_space, is_nil}
use pluster.Router.Redirect.{atoi}
use pluster.Cluster.{NodeRole, role_master, role_replica, Node, Snapshot, Topology, find_node}

-- `strings.Split`, by one byte.
abbrev pub onto_first : ℕ → List Bytes → List Bytes
onto_first c [] = (c ∷ []) ∷ []
onto_first c (w ∷ ws) = (c ∷ w) ∷ ws

unfoldable pub split_on : ℕ → Bytes → List Bytes
split_on sep [] = [] ∷ []
split_on sep (c ∷ cs) =
    let rest = split_on sep cs in if c == sep then [] ∷ rest else onto_first c rest

-- What stands before the first byte of a kind, and behind it.
unfoldable pub cut_at : ℕ → Bytes → Option (Bytes × Bytes)
cut_at sep [] = none
cut_at sep (c ∷ cs) =
    let rest = cut_at sep cs in
    if c == sep
    then some ([], cs)
    else elim rest [ none ↦ none | some (before, after) ↦ some (c ∷ before, after) ]

-- `strings.SplitN(s, sep, 2)[0]`.
abbrev pub before_of : Bytes → Option (Bytes × Bytes) → Bytes
before_of s none = s
before_of s (some (before, after)) = before

unfoldable pub before_first : ℕ → Bytes → Bytes
unfolding cut_at
before_first sep s = before_of s (cut_at sep s)

-- `flagSet`.
unfoldable pub has_word : Bytes → List Bytes → Bool
unfolding bytes_eq
has_word w [] = false
has_word w (x ∷ xs) = bytes_eq x w || has_word w xs

-- `nodes` and `slots`.
pub record Parsed : Type 0 where
  pub nodes : List Node
  pub slots : ℕ → Option Bytes

-- `nodes[addr] = n`, or the change of a node of the map.
unfoldable pub put_node : Node → List Node → List Node
unfolding bytes_eq
put_node n [] = n ∷ []
put_node n (m ∷ ms) =
    let rest = put_node n ms in if bytes_eq m.addr n.addr then n ∷ ms else m ∷ rest

-- `for s := start; s <= end; s++`, over the slots; the loop ends where `end` is below 2^63 - 1.
abbrev pub in_range : ℕ → ℕ → ℕ → Bool
in_range start last slot = not (lt64 slot start) && not (lt64 last slot)

unfoldable pub set_range : Bytes → ℕ → ℕ → (ℕ → Option Bytes) → ℕ → Option Bytes
set_range addr start last slots slot =
    if in_range start last slot && ltb slot cluster_slots then some addr else slots slot

-- The range that a field of slots names, none for a field that is skipped.
abbrev pub range_of : Option ℕ → Option ℕ → Option (ℕ × ℕ)
range_of (some start) (some last) = some (start, last)
range_of _ _ = none

abbrev pub field_range : Bytes → Option (Bytes × Bytes) → Option (ℕ × ℕ)
field_range field (some (start, last)) = range_of (atoi start) (atoi last)
field_range field none = range_of (atoi field) (atoi field)

unfoldable pub slot_range : Bytes → Option (ℕ × ℕ)
unfolding has_prefix cut_at atoi
slot_range field =
    let range = field_range field (cut_at b'-' field) in
    if has_prefix field (codes "[") then none else range

-- The loop over the fields of slots.
abbrev pub add_range : Node → (ℕ → Option Bytes) → Option (ℕ × ℕ) → Node × (ℕ → Option Bytes)
add_range n slots none = (n, slots)
add_range n slots (some (start, last)) =
    (record n { slots = n.slots ++ (start, last) ∷ [] }, set_range n.addr start last slots)

unfoldable pub add_ranges : Node → (ℕ → Option Bytes) → List Bytes → Node × (ℕ → Option Bytes)
unfolding slot_range set_range
add_ranges n slots [] = (n, slots)
add_ranges n slots (f ∷ fs) =
    let (n', slots') = add_range n slots (slot_range f) in add_ranges n' slots' fs

abbrev pub no_master : Bytes → Bool
no_master id = bytes_eq id (codes "-") || is_nil id

-- `n` of a line: the node of the map, or a new one.
abbrev pub node_for : Bytes → Bytes → Option Node → Node
node_for id addr none = record {
  id = id;
  addr = addr;
  role = role_master;
  slots = [];
  replicas = [];
  master_id = [];
}
node_for id addr (some n) = if is_nil n.id then record n { id = id } else n

-- The role of a node, by its flags and the field of its master.
abbrev pub with_role : List Bytes → Bytes → Node → Node
with_role flags master_id n =
    if has_word (codes "master") flags
    then record n { role = role_master; master_id = [] }
    else if has_word (codes "slave") flags
        || has_word (codes "replica") flags
        || not (no_master master_id)
    then record n {
      role = role_replica;
      master_id = if no_master master_id then n.master_id else master_id;
    }
    else n

abbrev pub skipped_addr : Bytes → Bool
skipped_addr addr = is_nil addr || bytes_eq addr (codes ":0")

abbrev pub skipped_flags : List Bytes → Bool
skipped_flags flags =
    has_word (codes "noaddr") flags
    || has_word (codes "handshake") flags
    || has_word (codes "fail") flags
    || has_word (codes "pfail") flags

-- A line that is not skipped.
unfoldable pub add_node : Bytes → Bytes → List Bytes → Bytes → List Bytes → Parsed → Parsed
unfolding has_word put_node add_ranges find_node bytes_eq
add_node id addr flags master_id ranges p =
    let n = with_role flags master_id (node_for id addr (find_node addr p.nodes)) in
    let (n', slots') = add_ranges n p.slots ranges in
    if has_word (codes "master") flags
    then record { nodes = put_node n' p.nodes; slots = slots' }
    else record { nodes = put_node n p.nodes; slots = p.slots }

-- A line with its first four fields, and those behind them.
abbrev pub add_fields : Parsed → List Bytes → Parsed
add_fields p (id ∷ addr_field ∷ flags_field ∷ master_id ∷ more) =
    let addr = before_first b'@' addr_field in
    let flags = split_on b',' flags_field in
    let added = add_node id addr flags master_id (drop 4 more) p in
    if ltb (length more) 4 then p else if skipped_addr addr || skipped_flags flags then p else added
add_fields p _ = p

-- The loop over the lines.
unfoldable pub add_lines : Parsed → List Bytes → Parsed
unfolding add_node before_first split_on fields trim_space
add_lines p [] = p
add_lines p (line ∷ lines) = add_lines (add_fields p (fields (trim_space line))) lines

-- The last loop: a replica goes to the first node that has the id of its master.
unfoldable pub add_replica : Bytes → Bytes → List Node → List Node
unfolding bytes_eq
add_replica addr master_id [] = []
add_replica addr master_id (n ∷ ns) =
    let rest = add_replica addr master_id ns in
    if bytes_eq n.id master_id
    then record n { replicas = n.replicas ++ addr ∷ [] } ∷ ns
    else n ∷ rest

abbrev pub is_replica_node : Node → Bool
is_replica_node n = elim n.role [ role_master ↦ false | role_replica ↦ not (is_nil n.master_id) ]

unfoldable pub add_replicas : List Node → List Node → List Node
unfolding add_replica
add_replicas [] nodes = nodes
add_replicas (n ∷ ns) nodes =
    add_replicas ns (if is_replica_node n then add_replica n.addr n.master_id nodes else nodes)

abbrev pub nothing_parsed : Parsed
nothing_parsed = record { nodes = []; slots = λ slot. none }

-- `parseClusterNodes`.
unfoldable pub parse_cluster_nodes : Bytes → Parsed
unfolding add_lines add_replicas split_on trim_space
parse_cluster_nodes raw =
    let p = add_lines nothing_parsed (split_on b'\n' (trim_space raw)) in
    record p { nodes = add_replicas p.nodes p.nodes }

-- `masters[i].Addr < masters[j].Addr`.
unfoldable pub addr_lt : Bytes → Bytes → Bool
addr_lt [] [] = false
addr_lt [] (y ∷ ys) = true
addr_lt (x ∷ xs) [] = false
addr_lt (x ∷ xs) (y ∷ ys) = let rest = addr_lt xs ys in ltb x y || (x == y && rest)

-- `sort.Slice`.
unfoldable pub insert_addr : Bytes → List Bytes → List Bytes
unfolding addr_lt
insert_addr a [] = a ∷ []
insert_addr a (x ∷ xs) = let rest = insert_addr a xs in if addr_lt x a then x ∷ rest else a ∷ x ∷ xs

abbrev pub is_master : Node → Bool
is_master n = elim n.role [ role_master ↦ true | role_replica ↦ false ]

unfoldable pub sorted_masters : List Node → List Bytes
unfolding insert_addr
sorted_masters [] = []
sorted_masters (n ∷ ns) =
    let rest = sorted_masters ns in if is_master n then insert_addr n.addr rest else rest

-- `Update`; the versions are int64.
unfoldable pub update : Parsed → Topology → Topology
unfolding sorted_masters
update p t =
    let version = add64 t.version 1 in
    record t {
      version = version;
      snap = record {
        nodes = p.nodes;
        slots = p.slots;
        masters = sorted_masters p.nodes;
        version = version;
      };
    }
