-- ===== src/Router/Pipeline/Lengths.antt =====
-- What runs for a batch gives as many values as the batch has items.
use pluster.Prelude.{ℕ, suc, ◌≡◌, refl, ap, Bool, true, false, List, [], ◌∷◌, Bytes, length, arith}
use pluster.Proto.Value.{Value}
use pluster.Router.{Result, done, failed, State, Backend}
use pluster.Router.Node.{is_replica_addr, on_conn}
use pluster.Router.Pipeline.Batch.{
  BatchItem, all_failed, any_value, needs_redirect, needs_retry, then_read, read_items, each_reply,
  each_if, settle_batch, after_flush, after_writes, on_batch_conn, exec_batch_on_node, retry_one,
  redirect_one, write_items,
}

module _ {W : Type 0} (b : Backend W) where
  -- As many values as items.
  abbrev pub Matches : List BatchItem → State W × List Value → Type 0
  Matches items r = length r.1 ≡ length items

  all_failed-Matches :
      (e : Bytes) (items : List BatchItem) → length (all_failed e items) ≡ length items
  all_failed-Matches e [] = refl
  all_failed-Matches e (item ∷ items) = ap suc (all_failed-Matches e items)

  each_reply-length :
      (change : BatchItem → Value → State W → State W × Value) (items : List BatchItem)
      (vs : List Value) (s : State W)
      → length vs ≡ length items
      → Matches items (each_reply b change items vs s)
  unfolding each_reply
  each_reply-length change [] vs s h = h
  each_reply-length change (item ∷ items) [] s h = h
  each_reply-length change (item ∷ items) (v ∷ vs) s h =
      ap suc (each_reply-length change items vs (change item v s).0 (omega arith))

  each_if-length :
      (test : Bool) (change : BatchItem → Value → State W → State W × Value)
      (items : List BatchItem) (r : State W × List Value)
      → Matches items r
      → Matches items (each_if b test change items r)
  each_if-length true change items (s, vs) h = each_reply-length change items vs s h
  each_if-length false change items (s, vs) h = h

  then_read-length :
      (next : State W → State W × List Value × Bool) (item : BatchItem) (items : List BatchItem)
      (r : State W × Result Value)
      → ((s : State W) → length (next s).1 ≡ length items)
      → length (then_read b next (item ∷ items) r).1 ≡ length (item ∷ items)
  then_read-length next item items (s, done v) h = ap suc (h s)
  then_read-length next item items (s, failed e) h = all_failed-Matches _ (item ∷ items)

  read_items-length :
      (conn : ℕ) (items : List BatchItem) (s : State W)
      → length (read_items b conn items s).1 ≡ length items
  unfolding read_items
  read_items-length conn [] s = refl
  read_items-length conn (item ∷ items) s =
      then_read-length (read_items b conn items) item items (on_conn b conn (b.read_conn conn s))
        (read_items-length conn items)

  settle_batch-length :
      (conn : ℕ) (items : List BatchItem) (r : State W × List Value × Bool)
      → length r.1 ≡ length items
      → Matches items (settle_batch b conn items r)
  settle_batch-length conn items (s, vs, false) h = h
  settle_batch-length conn items (s, vs, true) h =
      each_if-length (any_value needs_redirect vs) (redirect_one b) items
        (each_if b (any_value needs_retry vs) (retry_one b) items (b.close_conn conn false s, vs))
        (each_if-length (any_value needs_retry vs) (retry_one b) items
          (b.close_conn conn false s, vs) h)

  after_flush-length :
      (conn : ℕ) (items : List BatchItem) (r : State W × Result Unit)
      → Matches items (after_flush b conn items r)
  after_flush-length conn items (s, done u) =
      settle_batch-length conn items (read_items b conn items s) (read_items-length conn items s)
  after_flush-length conn items (s, failed e) = all_failed-Matches _ items

  after_writes-length :
      (conn : ℕ) (items : List BatchItem) (r : State W × List Bytes)
      → Matches items (after_writes b conn items r)
  after_writes-length conn items (s, e ∷ es) = all_failed-Matches _ items
  after_writes-length conn items (s, []) =
      after_flush-length conn items (on_conn b conn (b.write_conn conn [] s))

  on_batch_conn-length :
      (addr : Bytes) (items : List BatchItem) (r : State W × Result ℕ)
      → Matches items (on_batch_conn b addr items r)
  on_batch_conn-length addr items (s, failed e) = all_failed-Matches _ items
  on_batch_conn-length addr items (s, done conn) =
      after_writes-length conn items (write_items b conn items s)

  pub exec_batch_on_node-length :
      (addr : Bytes) (items : List BatchItem) (s : State W)
      → Matches items (exec_batch_on_node b addr items s)
  unfolding exec_batch_on_node
  exec_batch_on_node-length addr items s =
      on_batch_conn-length addr items (b.get_conn (is_replica_addr s.topo addr) addr s)
