-- ===== src/Cluster/Refresh.antt =====
-- The `Manager` of pkg/cluster/topology.go: from where the topology comes, and what follows when it
-- has changed. What an entry point answers is a parameter, a `Conn` for each address.
pub mod Unordered
pub mod Lost
pub mod Failover
use pluster.Prelude.{
  ℕ, not, ◌&&◌, Bool, true, false, Option, none, some, List, [], ◌∷◌, ◌++◌, map, if◌then◌else◌,
  Bytes, bytes_eq, codes,
}
use pluster.Proto.Int64.{format_int}
use pluster.Proto.Outcome.{Outcome, ok, panicked}
use pluster.Proto.Value.{
  Value, simple_string, error, bulk_string, integer, array, nil_bulk_string, nil_array, nil_pointer,
}
use pluster.Cluster.{NodeRole, role_master, role_replica, Node, Snapshot, Topology, find_node}
use pluster.Cluster.Parse.{Parsed, parse_cluster_nodes, insert_addr, update}

-- `sort.Strings`.
unfoldable pub sort_strings : List Bytes → List Bytes
unfolding insert_addr
sort_strings [] = []
sort_strings (s ∷ ss) = insert_addr s (sort_strings ss)

-- `strings.Join`, with "|".
unfoldable pub join_bar : List Bytes → Bytes
join_bar [] = []
join_bar (s ∷ []) = s
join_bar (s ∷ t ∷ ss) = s ++ b'|' ∷ join_bar (t ∷ ss)

abbrev pub role_letter : NodeRole → Bytes
role_letter role_master = codes "m"
role_letter role_replica = codes "r"

-- A node as a part of the fingerprint.
abbrev pub slots_text : List (ℕ × ℕ) → Bytes
slots_text [] = []
slots_text ((start, last) ∷ ranges) =
    format_int start ++ b'-' ∷ (format_int last ++ b',' ∷ slots_text ranges)

abbrev pub node_text : Node → Bytes
node_text n = n.addr ++ b':' ∷ (role_letter n.role ++ b':' ∷ slots_text n.slots)

-- `topoFingerprint`.
unfoldable pub topo_fingerprint : List Node → Bytes
unfolding sort_strings join_bar format_int
topo_fingerprint nodes = join_bar (sort_strings (map node_text nodes))

-- `Manager`: `fingerprint` is that of the snapshot, `removed` what the hook has been called with, if
-- there is one, and `refreshPending` whether `refreshCh` holds an element.
pub record Manager : Type 0 where
  pub entry_points : List Bytes
  pub username : Bytes
  pub password : Bytes
  pub topo : Topology
  pub fingerprint : Bytes
  pub has_hook : Bool
  pub removed : List (List Bytes)
  pub started : Bool
  pub stopped : Bool
  pub refresh_pending : Bool

-- A connection: the reply to the last of the commands that have been sent, none where writing or
-- reading fails. A dial is none where it fails.
abbrev pub Conn : Type 0
Conn = List (List Bytes) → Option Value

abbrev pub Dial : Type 0
Dial = Bytes → Option Conn

-- `authenticate`: the commands that have been sent, none for an error.
abbrev pub auth_command : Bytes → Bytes → List Bytes
auth_command [] password = codes "AUTH" ∷ password ∷ []
auth_command (u ∷ username) password = codes "AUTH" ∷ (u ∷ username) ∷ password ∷ []

abbrev pub unless_error : Option Value → Option Value
unless_error none = none
unless_error (some (error msg)) = none
unless_error (some v) = some v

abbrev pub sent_if : List (List Bytes) → Option Value → Option (List (List Bytes))
sent_if sent none = none
sent_if sent (some v) = some sent

abbrev pub authenticate : Conn → Bytes → Bytes → Option (List (List Bytes))
authenticate conn username password =
    let sent = auth_command username password ∷ [] in sent_if sent (unless_error (conn sent))

-- `refreshFrom`, up to the commands of `fetchClusterNodes`.
abbrev pub authenticate_if : Conn → Bytes → Bytes → Option (List (List Bytes))
authenticate_if conn username [] = some []
authenticate_if conn username (p ∷ password) = authenticate conn username (p ∷ password)

-- `v.Str`.
abbrev pub reply_str : Value → Bytes
reply_str (simple_string str) = str
reply_str (error str) = str
reply_str (bulk_string str) = str
reply_str (integer n) = []
reply_str (array vs) = []
reply_str nil_bulk_string = []
reply_str nil_array = []
reply_str nil_pointer = []

-- `fetchClusterNodes`.
abbrev pub text_of : Option Value → Option Bytes
text_of none = none
text_of (some v) = some (reply_str v)

abbrev pub fetch_cluster_nodes : Conn → Option (List (List Bytes)) → Option Bytes
fetch_cluster_nodes conn none = none
fetch_cluster_nodes conn (some sent) =
    text_of (unless_error (conn (sent ++ (codes "CLUSTER" ∷ codes "NODES" ∷ []) ∷ [])))

abbrev pub fetch_from : Option Conn → Bytes → Bytes → Option Bytes
fetch_from none username password = none
fetch_from (some conn) username password =
    fetch_cluster_nodes conn (authenticate_if conn username password)

-- The addresses that are gone.
abbrev pub still_known : Option Node → Bool
still_known none = false
still_known (some n) = true

unfoldable pub removed_addrs : List Node → List Node → List Bytes
unfolding find_node
removed_addrs [] next = []
removed_addrs (n ∷ prev) next =
    let rest = removed_addrs prev next in
    if still_known (find_node n.addr next) then rest else n.addr ∷ rest

abbrev pub call_hook : List Bytes → Manager → Manager
call_hook [] m = m
call_hook (a ∷ addrs) m =
    if m.has_hook then record m { removed = m.removed ++ (a ∷ addrs) ∷ [] } else m

-- `onTopologyChanged`.
unfoldable pub on_topology_changed : List Node → List Node → Manager → Manager
unfolding removed_addrs sort_strings
on_topology_changed prev next m = record (call_hook (removed_addrs prev next) m) {
  entry_points = sort_strings (map (λ (n : Node). n.addr) next);
}

-- `refreshFrom`, behind `fetchClusterNodes`.
unfoldable pub store : Manager → Parsed → Manager
unfolding topo_fingerprint on_topology_changed update bytes_eq
store m p =
    let fingerprint = topo_fingerprint p.nodes in
    let m' = record m { topo = update p m.topo; fingerprint = fingerprint } in
    if bytes_eq fingerprint m.fingerprint
    then m'
    else on_topology_changed m.topo.snap.nodes p.nodes m'

abbrev pub stored : Manager → Option Bytes → Option Manager
stored m none = none
stored m (some raw) = some (store m (parse_cluster_nodes raw))

unfoldable pub refresh_from : Dial → Bytes → Manager → Option Manager
unfolding store parse_cluster_nodes
refresh_from dial addr m = stored m (fetch_from (dial addr) m.username m.password)

-- `refresh`: none where all entry points have failed.
abbrev pub or_next : Option Manager → Option Manager → Option Manager
or_next (some m) rest = some m
or_next none rest = rest

unfoldable pub refresh_any : Dial → List Bytes → Manager → Option Manager
unfolding refresh_from
refresh_any dial [] m = none
refresh_any dial (ep ∷ eps) m = or_next (refresh_from dial ep m) (refresh_any dial eps m)

unfoldable pub refresh : Dial → Manager → Option Manager
unfolding refresh_any
refresh dial m = refresh_any dial m.entry_points m

-- `NewManager`.
abbrev pub new_manager : List Bytes → Bytes → Bytes → Manager
new_manager entry_points username password = record {
  entry_points = entry_points;
  username = username;
  password = password;
  topo = record {
    snap = record { nodes = []; slots = λ slot. none; masters = []; version = 0 };
    rr_counter = 0;
    msrr_counter = 0;
    version = 0;
  };
  fingerprint = [];
  has_hook = false;
  removed = [];
  started = false;
  stopped = false;
  refresh_pending = false;
}

-- `SetNodeRemovedHook`, with a hook that is not nil, and `Stop`, which panics the second time.
unfoldable pub set_node_removed_hook : Manager → Manager
set_node_removed_hook m = record m { has_hook = true }

unfoldable pub stop : Manager → Outcome Manager
stop m = if m.stopped then panicked else ok (record m { stopped = true })

-- `Start`: whether it has returned an error, and whether the loop runs now.
pub record Startup : Type 0 where
  pub manager : Manager
  pub is_error : Bool
  pub loops : Bool

abbrev pub after_first : Manager → Option Manager → Startup
after_first m none = record { manager = m; is_error = true; loops = false }
after_first m (some m') = record { manager = m'; is_error = false; loops = true }

unfoldable pub start : Dial → Manager → Startup
unfolding refresh
start dial m =
    let m' = record m { started = true } in
    if m.started
    then record { manager = m; is_error = false; loops = false }
    else after_first m' (refresh dial m')

-- `TriggerRefresh`, and what `refreshLoop` does at a tick of its timer and at an element of the
-- channel; where a refresh fails, only a line is logged.
unfoldable pub trigger_refresh : Manager → Manager
trigger_refresh m = record m { refresh_pending = true }

abbrev pub or_same : Manager → Option Manager → Manager
or_same m none = m
or_same m (some m') = m'

unfoldable pub on_tick : Dial → Manager → Manager
unfolding refresh
on_tick dial m = or_same m (refresh dial m)

unfoldable pub on_trigger : Dial → Manager → Manager
unfolding on_tick
on_trigger dial m =
    let taken = record m { refresh_pending = false } in
    if m.refresh_pending then on_tick dial taken else m
