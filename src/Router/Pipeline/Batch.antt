-- ===== src/Router/Pipeline/Batch.antt =====
-- `execBatchOnNode` of pkg/router/router.go: the requests for one node, written in one go on a
-- connection of the pool, and their replies. `Flush` is a write of no bytes.
use pluster.Prelude.{
  ℕ, suc, ◌||◌, Bool, true, false, List, [], ◌∷◌, ◌++◌, map, if◌then◌else◌, Bytes, codes,
}
use pluster.Proto.Value.{Value, is_moved_error, is_ask_error}
use pluster.Proto.Encode.{write_command_bytes}
use pluster.Proto.Request.{Request}
use pluster.Router.{Result, done, failed, State, Backend, err_value}
use pluster.Router.Node.{
  is_cluster_down_error, is_loading_error, is_replica_addr, on_conn, exec_on_node,
}
use pluster.Router.Redirect.{Next, moved, asked, answered, next_of, execute_redirect}

-- `batchItem`.
pub record BatchItem : Type 0 where
  pub idx : ℕ
  pub req : Request
  pub addr : Bytes
  pub slot : ℕ

-- An element of `byAddr`.
abbrev pub NodeBatch : Type 0
NodeBatch = Bytes × List BatchItem

abbrev pub IndexWrites : Type 0
IndexWrites = List (ℕ × Value)

-- The result of a call, an error of Go as its text.
abbrev pub value_of : Result Value → Value
value_of (done v) = v
value_of (failed e) = err_value e

-- The same error for all.
abbrev pub all_failed : Bytes → List BatchItem → List Value
all_failed msg = map (λ item. err_value msg)

abbrev pub needs_retry : Value → Bool
needs_retry v = is_cluster_down_error v || is_loading_error v

abbrev pub needs_redirect : Value → Bool
needs_redirect v = is_moved_error v || is_ask_error v

abbrev pub any_value : (Value → Bool) → List Value → Bool
any_value test [] = false
any_value test (v ∷ vs) = test v || any_value test vs

-- `results[item.idx] = vals[j]`.
abbrev pub writes_of : List BatchItem → List Value → IndexWrites
writes_of [] vs = []
writes_of (item ∷ items) [] = []
writes_of (item ∷ items) (v ∷ vs) = (item.idx, v) ∷ writes_of items vs

module _ {W : Type 0} (b : Backend W) where
  -- The loop of `WriteCommandBytes`, none where all are written.
  abbrev pub then_write :
      (State W → State W × List Bytes) → State W × Result Unit → State W × List Bytes
  then_write next (s, done u) = next s
  then_write next (s, failed e) = (s, e ∷ [])

  unfoldable pub write_items : ℕ → List BatchItem → State W → State W × List Bytes
  unfolding write_command_bytes
  write_items conn [] s = (s, [])
  write_items conn (item ∷ items) s =
      then_write (write_items conn items)
        (on_conn b conn (b.write_conn conn (write_command_bytes [] item.req.args) s))

  -- The loop of `ReadValue`, and whether it has come to its end.
  abbrev pub then_read :
      (State W → State W × List Value × Bool)
      → List BatchItem
      → State W × Result Value
      → State W × List Value × Bool
  then_read next items (s, done v) = let (s', vs, all) = next s in (s', v ∷ vs, all)
  then_read next items (s, failed e) = (s, all_failed (codes "ERR read: " ++ e) items, false)

  unfoldable pub read_items : ℕ → List BatchItem → State W → State W × List Value × Bool
  read_items conn [] s = (s, [], true)
  read_items conn (item ∷ items) s =
      then_read (read_items conn items) (item ∷ items) (on_conn b conn (b.read_conn conn s))

  abbrev pub valued : State W × Result Value → State W × Value
  valued (s, r) = (s, value_of r)

  -- What the second loop makes of a reply, and the third; `TriggerRefresh` is called for MOVED.
  unfoldable pub retry_one : BatchItem → Value → State W → State W × Value
  unfolding exec_on_node is_cluster_down_error is_loading_error
  retry_one item v s =
      let again = valued (exec_on_node b item.addr item.req.args false s) in
      if needs_retry v then again else (s, v)

  abbrev pub redirect_to : BatchItem → Value → Next → State W → State W × Value
  redirect_to item v answered s = (s, v)
  redirect_to item v (moved to) s = valued (
      execute_redirect b item.req.cmd item.req.args to 1 (record s { refreshes = suc s.refreshes }))
  redirect_to item v (asked to) s = valued (execute_redirect b item.req.cmd item.req.args to 1 s)

  unfoldable pub redirect_one : BatchItem → Value → State W → State W × Value
  unfolding execute_redirect next_of
  redirect_one item v s = redirect_to item v (next_of v) s

  unfoldable pub each_reply :
      (BatchItem → Value → State W → State W × Value)
      → List BatchItem
      → List Value
      → State W
      → State W × List Value
  each_reply change (item ∷ items) (v ∷ vs) s =
      let (s', v') = change item v s in
      let (s'', vs') = each_reply change items vs s' in (s'', v' ∷ vs')
  each_reply change [] vs s = (s, vs)
  each_reply change (item ∷ items) [] s = (s, [])

  abbrev pub each_if :
      Bool
      → (BatchItem → Value → State W → State W × Value)
      → List BatchItem
      → State W × List Value
      → State W × List Value
  each_if true change items (s, vs) = each_reply change items vs s
  each_if false change items (s, vs) = (s, vs)

  -- Behind the loop of reads.
  abbrev pub settle_batch : ℕ → List BatchItem → State W × List Value × Bool → State W × List Value
  settle_batch conn items (s, vs, false) = (s, vs)
  settle_batch conn items (s, vs, true) =
      each_if (any_value needs_redirect vs) redirect_one items
        (each_if (any_value needs_retry vs) retry_one items (b.close_conn conn false s, vs))

  -- Behind the loop of writes: `Flush`, and the reads.
  abbrev pub after_flush : ℕ → List BatchItem → State W × Result Unit → State W × List Value
  after_flush conn items (s, done u) = settle_batch conn items (read_items conn items s)
  after_flush conn items (s, failed e) = (s, all_failed (codes "ERR flush: " ++ e) items)

  abbrev pub after_writes : ℕ → List BatchItem → State W × List Bytes → State W × List Value
  after_writes conn items (s, e ∷ es) = (s, all_failed (codes "ERR write: " ++ e) items)
  after_writes conn items (s, []) = after_flush conn items (on_conn b conn (b.write_conn conn [] s))

  abbrev pub on_batch_conn : Bytes → List BatchItem → State W × Result ℕ → State W × List Value
  on_batch_conn addr items (s, failed e) =
      (s, all_failed (((codes "ERR get conn from " ++ addr) ++ codes ": ") ++ e) items)
  on_batch_conn addr items (s, done conn) = after_writes conn items (write_items conn items s)

  -- `execBatchOnNode`.
  unfoldable pub exec_batch_on_node : Bytes → List BatchItem → State W → State W × List Value
  unfolding is_replica_addr write_items read_items each_reply retry_one redirect_one
  exec_batch_on_node addr items s =
      on_batch_conn addr items (b.get_conn (is_replica_addr s.topo addr) addr s)

  -- The goroutines of `dispatchSimpleRequests`.
  unfoldable pub run_batches : List NodeBatch → State W → State W × IndexWrites
  unfolding exec_batch_on_node
  run_batches [] s = (s, [])
  run_batches ((addr, items) ∷ bs) s =
      let (s', vs) = exec_batch_on_node addr items s in
      let (s'', ws) = run_batches bs s' in (s'', writes_of items vs ++ ws)
