-- ===== src/Router/Pipeline/Values.antt =====
-- Where the values come from that `execBatchOnNode` of pkg/router/router.go returns for a batch.
use pluster.Prelude.{
  ℕ, zero, suc, ◌+◌, some, get_elem?, arith, sym, ◌≡◌, refl, ◌∙◌, ap, Bool, true, false, List, [],
  ◌∷◌, ◌++◌, Bytes, codes, Bool-cases, inl, inr,
}
use pluster.Proto.Value.{Value}
use pluster.Proto.Encode.{write_command_bytes}
use pluster.Router.{Result, done, failed, State, Backend, err_value}
use pluster.Router.Node.{is_replica_addr, on_conn, exec_on_node}
use pluster.Router.Redirect.{Target, Next, moved, asked, answered, next_of, execute_redirect}
use pluster.Router.Pipeline.Batch.{
  BatchItem, value_of, all_failed, needs_retry, needs_redirect, any_value, then_write, write_items,
  then_read, read_items, retry_one, redirect_to, redirect_one, each_reply, each_if, settle_batch,
  after_flush, after_writes, on_batch_conn, exec_batch_on_node,
}

-- What a call has come to: its value, or its error.
abbrev pub Came : Result Value → Value → Type 0
Came (done u) v = v ≡ u
Came (failed e) v = v ≡ err_value e

pub value_of-Came : (r : Result Value) → Came r (value_of r)
value_of-Came (done v) = refl
value_of-Came (failed e) = refl

module _ {W : Type 0} (b : Backend W) where
  -- All requests of a batch have been written and flushed on a connection.
  pub record IsSent (batch : List BatchItem) (conn : ℕ) (sent : State W) : Type 0 where
    addr : Bytes
    before : State W
    opened : State W
    written : State W
    gets : b.get_conn (is_replica_addr before.topo addr) addr before ≡ (opened, done conn)
    writes : write_items b conn batch opened ≡ (written, [])
    flushes : on_conn b conn (b.write_conn conn [] written) ≡ (sent, done tt)

  -- The state behind `n` reads.
  unfoldable pub after_reads : ℕ → ℕ → State W → State W
  after_reads conn zero s = s
  after_reads conn (suc n) s =
      let before = after_reads conn n s in (on_conn b conn (b.read_conn conn before)).0

  -- A value for a request of a batch: the reply that was read when those to all requests before it in
  -- the batch had been read, what a retry or a redirection has come to, or the error of the
  -- connection.
  pub data ItemValue (batch : List BatchItem) (item : BatchItem) (v : Value) : Type 0 where
    was_read :
        (conn k : ℕ) (sent : State W)
        → IsSent batch conn sent
        → get_elem? batch k ≡ some item
        → (on_conn b conn (b.read_conn conn (after_reads conn k sent))).1 ≡ done v
        → ItemValue batch item v
    was_retried :
        (s : State W)
        → Came (exec_on_node b item.addr item.req.args false s).1 v
        → ItemValue batch item v
    was_redirected :
        (to : Target) (s : State W)
        → Came (execute_redirect b item.req.cmd item.req.args to 1 s).1 v
        → ItemValue batch item v
    no_conn :
        (addr e : Bytes) (s : State W)
        → (b.get_conn (is_replica_addr s.topo addr) addr s).1 ≡ failed e
        → v ≡ err_value (((codes "ERR get conn from " ++ addr) ++ codes ": ") ++ e)
        → ItemValue batch item v
    not_written :
        (conn : ℕ) (bytes e : Bytes) (s : State W)
        → (on_conn b conn (b.write_conn conn bytes s)).1 ≡ failed e
        → v ≡ err_value (codes "ERR write: " ++ e)
        → ItemValue batch item v
    not_flushed :
        (conn : ℕ) (e : Bytes) (s : State W)
        → (on_conn b conn (b.write_conn conn [] s)).1 ≡ failed e
        → v ≡ err_value (codes "ERR flush: " ++ e)
        → ItemValue batch item v
    not_read :
        (conn : ℕ) (e : Bytes) (s : State W)
        → (on_conn b conn (b.read_conn conn s)).1 ≡ failed e
        → v ≡ err_value (codes "ERR read: " ++ e)
        → ItemValue batch item v

  -- Each value beside its item.
  abbrev pub Values : List BatchItem → List BatchItem → List Value → Type 0
  Values batch [] vs = Unit
  Values batch (item ∷ items) [] = Unit
  Values batch (item ∷ items) (v ∷ vs) = ItemValue batch item v × Values batch items vs

-- The values of one batch.
module _ {W : Type 0} (b : Backend W) (batch : List BatchItem) where
  all_failed-Values :
      (msg : Bytes) (items : List BatchItem)
      → ((item : BatchItem) → ItemValue b batch item (err_value msg))
      → Values b batch items (all_failed msg items)
  all_failed-Values msg [] h = tt
  all_failed-Values msg (item ∷ items) h = (h item, all_failed-Values msg items h)

  -- From the `k`-th item on.
  abbrev IsRest : ℕ → List BatchItem → Type 0
  IsRest k items = (n : ℕ) → get_elem? batch (k + n) ≡ get_elem? items n

  then_read-Values :
      (next : State W → State W × List Value × Bool) (item : BatchItem) (items : List BatchItem)
      (conn k : ℕ) (sent : State W) (r : State W × Result Value)
      → IsSent b batch conn sent
      → get_elem? batch k ≡ some item
      → on_conn b conn (b.read_conn conn (after_reads b conn k sent)) ≡ r
      → ((s : State W) → s ≡ after_reads b conn (suc k) sent → Values b batch items (next s).1)
      → Values b batch (item ∷ items) (then_read b next (item ∷ items) r).1
  unfolding after_reads
  then_read-Values next item items conn k sent (s', done v) d at e h =
      (was_read conn k sent d at (ap (λ x. x.1) e), h s' (sym (ap (λ x. x.0) e)))
  then_read-Values next item items conn k sent (s', failed m) d at e h =
      all_failed-Values (codes "ERR read: " ++ m) (item ∷ items)
        (λ i. not_read conn m (after_reads b conn k sent) (ap (λ x. x.1) e) refl)

  read_items-Values :
      (conn k : ℕ) (sent : State W) (items : List BatchItem) (s : State W)
      → IsSent b batch conn sent
      → IsRest k items
      → s ≡ after_reads b conn k sent
      → Values b batch items (read_items b conn items s).1
  unfolding read_items
  read_items-Values conn k sent [] s d f e = tt
  read_items-Values conn k sent (item ∷ items) s d f e =
      let here : k ≡ k + 0 = omega arith in
      then_read-Values (read_items b conn items) item items conn k sent
        (on_conn b conn (b.read_conn conn s)) d (ap (get_elem? batch) here ∙ f 0)
        (ap (λ x. on_conn b conn (b.read_conn conn x)) (sym e))
        (λ s'. read_items-Values conn (suc k) sent items s' d (λ n.
          let there : suc k + n ≡ k + suc n = omega arith in
          ap (get_elem? batch) there ∙ f (suc n)))

  -- A change of a value for a value of the same item.
  abbrev Keeps : (BatchItem → Value → State W → State W × Value) → Type 0
  Keeps change =
      (item : BatchItem) (v : Value) (s : State W)
      → ItemValue b batch item v
      → ItemValue b batch item (change item v s).1

  retry_one-Keeps : Keeps (retry_one b)
  unfolding retry_one
  retry_one-Keeps item v s h = elim (Bool-cases (needs_retry v)) [
    | inl y ↦
        rw y (was_retried s (value_of-Came (exec_on_node b item.addr item.req.args false s).1))
    | inr n ↦ rw n h
  ]

  redirect_to-Keeps :
      (item : BatchItem) (v : Value) (next : Next) (s : State W)
      → ItemValue b batch item v
      → ItemValue b batch item (redirect_to b item v next s).1
  redirect_to-Keeps item v answered s h = h
  redirect_to-Keeps item v (moved to) s h =
      let s' = record s { refreshes = suc s.refreshes } in
      was_redirected to s' (value_of-Came (execute_redirect b item.req.cmd item.req.args to 1 s').1)
  redirect_to-Keeps item v (asked to) s h =
      was_redirected to s (value_of-Came (execute_redirect b item.req.cmd item.req.args to 1 s).1)

  redirect_one-Keeps : Keeps (redirect_one b)
  unfolding redirect_one
  redirect_one-Keeps item v s h = redirect_to-Keeps item v (next_of v) s h

  each_reply-Values :
      (change : BatchItem → Value → State W → State W × Value) (items : List BatchItem)
      (vs : List Value) (s : State W)
      → Keeps change
      → Values b batch items vs
      → Values b batch items (each_reply b change items vs s).1
  unfolding each_reply
  each_reply-Values change [] vs s k h = tt
  each_reply-Values change (item ∷ items) [] s k h = tt
  each_reply-Values change (item ∷ items) (v ∷ vs) s k (h, hs) =
      (k item v s h, each_reply-Values change items vs (change item v s).0 k hs)

  each_if-Values :
      (test : Bool) (change : BatchItem → Value → State W → State W × Value)
      (items : List BatchItem) (r : State W × List Value)
      → Keeps change
      → Values b batch items r.1
      → Values b batch items (each_if b test change items r).1
  each_if-Values true change items (s, vs) k h = each_reply-Values change items vs s k h
  each_if-Values false change items (s, vs) k h = h

  -- A write of the loop that has failed.
  record HasFailed (conn : ℕ) (e : Bytes) : Type 0 where
    bytes : Bytes
    before : State W
    fails : (on_conn b conn (b.write_conn conn bytes before)).1 ≡ failed e

  then_write-HasFailed :
      (next : State W → State W × List Bytes) (conn : ℕ) (bytes : Bytes) (s : State W)
      (r : State W × Result Unit) (e : Bytes) (es : List Bytes)
      → on_conn b conn (b.write_conn conn bytes s) ≡ r
      → ((s : State W) → (next s).1 ≡ e ∷ es → HasFailed conn e)
      → (then_write b next r).1 ≡ e ∷ es
      → HasFailed conn e
  then_write-HasFailed next conn bytes s (s', done u) e es q h p = h s' p
  then_write-HasFailed next conn bytes s (s', failed m) e es q h p =
      let same : m ≡ e = cc in
      record { bytes = bytes; before = s; fails = ap (λ x. x.1) q ∙ ap failed same }

  write_items-HasFailed :
      (conn : ℕ) (items : List BatchItem) (s : State W) (e : Bytes) (es : List Bytes)
      → (write_items b conn items s).1 ≡ e ∷ es
      → HasFailed conn e
  unfolding write_items
  write_items-HasFailed conn [] s e es p = cc
  write_items-HasFailed conn (item ∷ items) s e es p =
      let bytes = write_command_bytes [] item.req.args in
      then_write-HasFailed (write_items b conn items) conn bytes s
        (on_conn b conn (b.write_conn conn bytes s)) e es refl
        (λ s'. write_items-HasFailed conn items s' e es) p

  settle_batch-Values :
      (conn : ℕ) (r : State W × List Value × Bool)
      → Values b batch batch r.1
      → Values b batch batch (settle_batch b conn batch r).1
  settle_batch-Values conn (s, vs, false) h = h
  settle_batch-Values conn (s, vs, true) h =
      each_if-Values (any_value needs_redirect vs) (redirect_one b) batch
        (each_if b (any_value needs_retry vs) (retry_one b) batch (b.close_conn conn false s, vs))
        redirect_one-Keeps
        (each_if-Values (any_value needs_retry vs) (retry_one b) batch
          (b.close_conn conn false s, vs) retry_one-Keeps h)

  module _ (addr : Bytes) (before : State W) where
    after_flush-Values :
        (conn : ℕ) (opened written : State W) (r : State W × Result Unit)
        → b.get_conn (is_replica_addr before.topo addr) addr before ≡ (opened, done conn)
        → write_items b conn batch opened ≡ (written, [])
        → on_conn b conn (b.write_conn conn [] written) ≡ r
        → Values b batch batch (after_flush b conn batch r).1
    unfolding after_reads
    after_flush-Values conn opened written (sent, done u) g w e =
        settle_batch-Values conn (read_items b conn batch sent) (
          read_items-Values conn 0 sent batch sent
            (record {
              addr = addr;
              before = before;
              opened = opened;
              written = written;
              gets = g;
              writes = w;
              flushes = e;
            })
            (λ n. let same : 0 + n ≡ n = omega arith in ap (get_elem? batch) same) refl)
    after_flush-Values conn opened written (s, failed m) g w e =
        all_failed-Values (codes "ERR flush: " ++ m) batch
          (λ i. not_flushed conn m written (ap (λ x. x.1) e) refl)

    after_writes-Values :
        (conn : ℕ) (opened : State W) (r : State W × List Bytes)
        → b.get_conn (is_replica_addr before.topo addr) addr before ≡ (opened, done conn)
        → write_items b conn batch opened ≡ r
        → Values b batch batch (after_writes b conn batch r).1
    after_writes-Values conn opened (s, e ∷ es) g w =
        let f = write_items-HasFailed conn batch opened e es (ap (λ x. x.1) w) in
        all_failed-Values (codes "ERR write: " ++ e) batch
          (λ i. not_written conn f.bytes e f.before f.fails refl)
    after_writes-Values conn opened (s, []) g w =
        after_flush-Values conn opened s (on_conn b conn (b.write_conn conn [] s)) g w refl

    on_batch_conn-Values :
        (r : State W × Result ℕ)
        → b.get_conn (is_replica_addr before.topo addr) addr before ≡ r
        → Values b batch batch (on_batch_conn b addr batch r).1
    on_batch_conn-Values (s, failed e) g =
        all_failed-Values (((codes "ERR get conn from " ++ addr) ++ codes ": ") ++ e) batch
          (λ i. no_conn addr e before (ap (λ x. x.1) g) refl)
    on_batch_conn-Values (opened, done conn) g =
        after_writes-Values conn opened (write_items b conn batch opened) g refl

  pub exec_batch_on_node-Values :
      (addr : Bytes) (s : State W) → Values b batch batch (exec_batch_on_node b addr batch s).1
  unfolding exec_batch_on_node
  exec_batch_on_node-Values addr s =
      on_batch_conn-Values addr s (b.get_conn (is_replica_addr s.topo addr) addr s) refl
