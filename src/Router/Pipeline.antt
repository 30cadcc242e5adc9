-- ===== src/Router/Pipeline.antt =====
-- `ExecPipeline` of pkg/router/router.go: many requests at once, those for one node in one batch. A
-- write `results[i] = v` is a pair; the loops give the writes in the order in which they make them.
pub mod Batch
pub mod Lengths
pub mod Once
pub mod Values
pub mod Origin
use pluster.Prelude.{
  ℕ, zero, suc, ◌+◌, ◌%◌, ◌&&◌, ◌||◌, not, Bool, true, false, Option, none, some, List, [], ◌∷◌,
  ◌++◌, map, ◌==◌, if◌then◌else◌, Bytes, bytes_eq, codes, length, set, get_or,
}
use pluster.Proto.Int64.{add64, neg64, format_int}
use pluster.Proto.Value.{Value}
use pluster.Proto.Slot.{hash_slot}
use pluster.Proto.Request.{Request, upper}
use pluster.Proto.Command.Info.{CmdInfo, has_flag, flag_not_allowed, flag_all_nodes, flag_multi_key}
use pluster.Proto.Command.{get_cmd_info, first_key_of}
use pluster.Cluster.{Topology, all_masters, node_addr_for_slot}
use pluster.Engine.Split.Route.{lower}
use pluster.Router.{Result, done, failed, State, Backend, err_value}
use pluster.Router.Redirect.{reads}
use pluster.Router.Keys.{Part, nil_pointers}
use pluster.Router.Execute.{execute, unknown_command, not_in_proxy}
use pluster.Router.Pipeline.Batch.{BatchItem, NodeBatch, IndexWrites, value_of, run_batches}

-- What `classifyPipelineRequests` makes of a request: a result at once, one of `complexIdxs`, or a
-- `batchItem` with its address and its slot.
pub data Class : Type 0 where
  refuse : Value → Class
  complex : Class
  simple : Bytes → ℕ → Class

module _ {W : Type 0} where
  abbrev pub on_master : List Bytes → State W → State W × Class
  on_master [] s = (s, refuse (err_value (codes "ERR no cluster nodes available")))
  on_master (m ∷ ms) s =
      let counter = add64 s.rr_counter 1 in
      (
        record s { rr_counter = counter },
        simple (get_or (m ∷ ms) (counter % length (m ∷ ms)) []) (neg64 1),
      )

  abbrev pub on_serving : ℕ → State W → Topology × Option Bytes → State W × Class
  on_serving slot s (t, none) =
      (record s { topo = t }, refuse (err_value (codes "ERR no node for slot " ++ format_int slot)))
  on_serving slot s (t, some addr) = (record s { topo = t }, simple addr slot)

  abbrev pub classify_key : CmdInfo → Option Bytes → State W → State W × Class
  classify_key info none s = on_master (all_masters s.topo) s
  classify_key info (some key) s =
      on_serving (hash_slot key) s
        (node_addr_for_slot s.read_mode s.topo (hash_slot key) (reads (some info)))

  unfoldable pub classify_known : Request → Bytes → CmdInfo → State W → State W × Class
  unfolding all_masters hash_slot node_addr_for_slot has_flag lower bytes_eq
  classify_known req name info s =
      if has_flag info flag_not_allowed
      then (s, refuse (err_value (not_in_proxy (lower name))))
      else if bytes_eq name (codes "SCAN")
          || bytes_eq name (codes "SCRIPT")
          || bytes_eq name (codes "CONFIG")
          || has_flag info flag_all_nodes
          || has_flag info flag_multi_key
      then (s, complex)
      else classify_key info (first_key_of info req.args) s

  abbrev pub classify_named : Request → Bytes → Option CmdInfo → State W → State W × Class
  classify_named req name none s = (s, refuse (err_value (unknown_command (lower name))))
  classify_named req name (some info) s = classify_known req name info s

  abbrev pub classify_args : Request → List Bytes → State W → State W × Class
  classify_args req [] s = (s, refuse (err_value (codes "ERR empty command")))
  classify_args req (a ∷ args) s = classify_named req (upper a) (get_cmd_info (upper a)) s

  -- The loop of `classifyPipelineRequests`, and what it does for each class.
  unfoldable pub classify_requests : List Request → State W → State W × List Class
  unfolding classify_known upper get_cmd_info
  classify_requests [] s = (s, [])
  classify_requests (req ∷ reqs) s =
      let (s', k) = classify_args req req.args s in
      let (s'', ks) = classify_requests reqs s' in (s'', k ∷ ks)

unfoldable pub refusals : ℕ → List Class → IndexWrites
refusals i [] = []
refusals i (refuse v ∷ ks) = (i, v) ∷ refusals (suc i) ks
refusals i (complex ∷ ks) = refusals (suc i) ks
refusals i (simple addr slot ∷ ks) = refusals (suc i) ks

unfoldable pub complex_idxs : ℕ → List Class → List ℕ
complex_idxs i [] = []
complex_idxs i (refuse v ∷ ks) = complex_idxs (suc i) ks
complex_idxs i (complex ∷ ks) = i ∷ complex_idxs (suc i) ks
complex_idxs i (simple addr slot ∷ ks) = complex_idxs (suc i) ks

unfoldable pub simple_items : ℕ → List Request → List Class → List BatchItem
simple_items i [] ks = []
simple_items i (req ∷ reqs) [] = []
simple_items i (req ∷ reqs) (refuse v ∷ ks) = simple_items (suc i) reqs ks
simple_items i (req ∷ reqs) (complex ∷ ks) = simple_items (suc i) reqs ks
simple_items i (req ∷ reqs) (simple addr slot ∷ ks) =
    record { idx = i; req = req; addr = addr; slot = slot } ∷ simple_items (suc i) reqs ks

-- `byAddr[item.addr] = append(byAddr[item.addr], item)`.
unfoldable pub add_item : BatchItem → List NodeBatch → List NodeBatch
unfolding bytes_eq
add_item item [] = (item.addr, item ∷ []) ∷ []
add_item item ((addr, items) ∷ bs) =
    let rest = add_item item bs in
    if bytes_eq addr item.addr then (addr, items ++ item ∷ []) ∷ bs else (addr, items) ∷ rest

unfoldable pub by_addr : List BatchItem → List NodeBatch → List NodeBatch
unfolding add_item
by_addr [] bs = bs
by_addr (item ∷ items) bs = by_addr items (add_item item bs)

-- `results[i] = v`, for each write.
unfoldable pub write_all : IndexWrites → List Value → List Value
write_all [] results = results
write_all ((i, v) ∷ ws) results = write_all ws (set results i v)

abbrev pub empty_request : Request
empty_request = record { args = []; raw = []; cmd = [] }

module _ {W : Type 0} (b : Backend W) (order : List Part → List Part)
    (batch_order : List NodeBatch → List NodeBatch) where
  -- The loop of `dispatchComplexRequests`.
  unfoldable pub run_complex : List Request → List ℕ → State W → State W × IndexWrites
  unfolding execute
  run_complex reqs [] s = (s, [])
  run_complex reqs (i ∷ is) s =
      let (s', r) = execute b order (get_or reqs i empty_request) s in
      let (s'', ws) = run_complex reqs is s' in (s'', (i, value_of r) ∷ ws)

  -- All writes of `ExecPipeline`; `batch_order` is the order of the goroutines of the batches, which
  -- run one after another.
  unfoldable pub pipeline_writes : List Request → State W → State W × IndexWrites
  unfolding classify_requests refusals complex_idxs simple_items by_addr run_complex run_batches
  pipeline_writes reqs s =
      let (s1, ks) = classify_requests reqs s in
      let (s2, ws) = run_complex reqs (complex_idxs 0 ks) s1 in
      let (s3, us) = run_batches b (batch_order (by_addr (simple_items 0 reqs ks) [])) s2 in
      (s3, refusals 0 ks ++ (ws ++ us))

  -- `ExecPipeline`.
  unfoldable pub exec_pipeline : List Request → State W → State W × List Value
  unfolding pipeline_writes write_all
  exec_pipeline reqs s =
      let (s', ws) = pipeline_writes reqs s in (s', write_all ws (nil_pointers (length reqs)))
