-- ===== src/Router/Node.antt =====
-- `execOnNodeOnce` and `execOnNode` of pkg/router/router.go: a command on one node, with retries.
use pluster.Prelude.{
  ℕ, zero, suc, ◌-◌, ◌||◌, Bool, true, false, Option, none, some, List, [], ◌++◌, ltb,
  if◌then◌else◌, Bytes, codes,
}
use pluster.Proto.Value.{Value, error, has_prefix, is_error}
use pluster.Proto.Encode.{encode_command_bytes, write_command_bytes}
use pluster.Cluster.{Node, role_master, role_replica, Topology, get_node_by_addr}
use pluster.Router.{Result, done, failed, State, Action, ◌>>=◌, Backend}

abbrev pub cluster_down_max_retry : ℕ
cluster_down_max_retry = 3

abbrev pub pipe_retry_max : ℕ
pipe_retry_max = 2

abbrev pub asking_cmd_bytes : Bytes
asking_cmd_bytes = codes "*1\r\n$6\r\nASKING\r\n"

-- `IsClusterDownError` and `IsLoadingError`.
unfoldable pub is_cluster_down_error : Value → Bool
unfolding has_prefix
is_cluster_down_error (error str) = has_prefix str (codes "CLUSTERDOWN")
is_cluster_down_error _ = false

unfoldable pub is_loading_error : Value → Bool
unfolding has_prefix
is_loading_error (error str) = has_prefix str (codes "LOADING")
is_loading_error _ = false

-- `isReplicaAddr`.
abbrev pub is_replica : Option Node → Bool
is_replica none = false
is_replica (some n) = elim n.role [ role_master ↦ false | role_replica ↦ true ]

unfoldable pub is_replica_addr : Topology → Bytes → Bool
unfolding get_node_by_addr
is_replica_addr t addr = is_replica (get_node_by_addr t addr)

module _ {W : Type 0} (b : Backend W) where
  -- A step on a connection; where it fails, the connection is marked broken and closed.
  abbrev pub on_conn : {A : Type 0} → ℕ → State W × Result A → State W × Result A
  on_conn conn (s, done a) = (s, done a)
  on_conn conn (s, failed e) = (b.close_conn conn true s, failed e)

  abbrev pub write_asked : ℕ → Bytes → Action W Unit
  write_asked conn bytes = λ s. on_conn conn (b.write_conn conn bytes s)

  abbrev pub read_asked : ℕ → Action W Value
  read_asked conn = λ s. on_conn conn (b.read_conn conn s)

  -- The deferred `conn.Close()`.
  abbrev pub closing : ℕ → Value → Action W Value
  closing conn v = λ s. (b.close_conn conn false s, done v)

  -- The error of `Get`, with the address.
  abbrev pub no_conn : Bytes → State W × Result ℕ → State W × Result ℕ
  no_conn addr (s, done conn) = (s, done conn)
  no_conn addr (s, failed e) = (s, failed (((codes "get conn from " ++ addr) ++ codes ": ") ++ e))

  -- `execOnNodeOnce` with `asking`; the writer's two calls are one write.
  unfoldable pub exec_asking : Bytes → List Bytes → Action W Value
  unfolding write_command_bytes
  exec_asking addr args = do
    conn ← (λ s. no_conn addr (b.get_conn false addr s))
    _ ← write_asked conn asking_cmd_bytes
    _ ← write_asked conn (write_command_bytes [] args)
    ask_reply ← read_asked conn
    if is_error ask_reply then closing conn ask_reply else (do v ← read_asked conn; closing conn v)

  -- `execOnNodeOnce`.
  unfoldable pub exec_on_node_once : Bytes → List Bytes → Bool → Action W Value
  unfolding is_replica_addr encode_command_bytes exec_asking
  exec_on_node_once addr args true = exec_asking addr args
  exec_on_node_once addr args false =
      λ s. b.pipe_do (is_replica_addr s.topo addr) addr (encode_command_bytes args) s

  -- What a round of the loop of `execOnNode` does with a result, `left` rounds before the last one:
  -- it waits and goes on with `next`, or returns.
  abbrev pub wait_then :
      {A : Type 0} → (State W → State W × Result A) → State W × Result Unit → State W × Result A
  wait_then next (s, done u) = next s
  wait_then next (s, failed e) = (s, failed e)

  abbrev pub after_attempt :
      (State W → State W × Result Value) → ℕ → State W × Result Value → State W × Result Value
  after_attempt next left (s, failed e) =
      if ltb (cluster_down_max_retry - left) pipe_retry_max
      then wait_then next (b.wait s)
      else (s, failed e)
  after_attempt next left (s, done v) =
      if is_cluster_down_error v || is_loading_error v
      then wait_then next (b.wait s)
      else (s, done v)

  -- The loop of `execOnNode`, `left` rounds before the last one.
  unfoldable pub exec_attempts : ℕ → Bytes → List Bytes → Bool → Action W Value
  unfolding exec_on_node_once is_cluster_down_error is_loading_error
  exec_attempts zero addr args asking = exec_on_node_once addr args asking
  exec_attempts (suc left) addr args asking = λ s.
      after_attempt (exec_attempts left addr args asking) (suc left)
        (exec_on_node_once addr args asking s)

  -- `execOnNode`.
  unfoldable pub exec_on_node : Bytes → List Bytes → Bool → Action W Value
  unfolding exec_attempts
  exec_on_node addr args asking = exec_attempts cluster_down_max_retry addr args asking
