-- ===== src/Tests/Router.antt =====
-- pkg/router/router.go, with nodes that answer at once.
use pluster.Prelude.{
  ℕ, suc, ◌+◌, ◌<◌, ◌≤◌, ◌≡◌, refl, some, List, [], ◌∷◌, ◌==◌, if◌then◌else◌, arith, Bytes, codes,
  false, get_or, get_elem?, Bool-cases, inl, inr, ap, sym, ◌∙◌,
}
use pluster.Prelude.Index.{some_inj}
use pluster.Proto.Outcome.{ok}
use pluster.Proto.Value.{Value, simple_string, bulk_string, error, array, nil, cons}
use pluster.Proto.Slot.{hash_slot}
use pluster.Cluster.{Topology, read_mode_master_only, all_masters}
use pluster.Router.{done, State, Backend}
use pluster.Router.Node.{exec_on_node}
use pluster.Router.Redirect.{Target, atoi, execute_redirect}
use pluster.Router.Redirect.Bound.{IsCount, execute_redirect-contacts}
use pluster.Router.Scan.{scan_target, format_uint}
use pluster.Router.Scan.Complete.{node_scan, client_scan, client_scan_complete}
use pluster.Router.Script.{on_slot, plan_script}
use pluster.Proto.Request.{Request}
use pluster.Router.Pipeline.Origin.{Origin}

abbrev masters : List Bytes
masters = codes "n0" ∷ codes "n1" ∷ []

abbrev topology : Topology
topology = record {
  snap = record { nodes = []; slots = λ slot. some (codes "n0"); masters = masters; version = 1 };
  rr_counter = 0;
  msrr_counter = 0;
  version = 1;
}

-- The world is how often a node has been contacted; every node answers with the same value.
abbrev answering : Value → Backend ℕ
answering v = record {
  pipe_do = λ ro addr bytes s. (record s { world = suc s.world }, done v);
  get_conn = λ ro addr s. (record s { world = suc s.world }, done 0);
  write_conn = λ conn bytes s. (s, done tt);
  read_conn = λ conn s. (s, done v);
  close_conn = λ conn broken s. s;
  wait = λ s. (s, done tt);
}

answering-IsCount : (v : Value) → IsCount (answering v) (λ n. n)
answering-IsCount v = record {
  pipe_do = λ ro addr bytes s. omega arith;
  get_conn = λ ro addr s. omega arith;
  write_conn = λ conn bytes s. omega arith;
  read_conn = λ conn s. omega arith;
  close_conn = λ conn broken s. omega arith;
  wait = λ s. omega arith;
}

abbrev fresh : State ℕ
fresh = record {
  topo = topology;
  rr_counter = 0;
  read_mode = read_mode_master_only;
  refreshes = 0;
  world = 0;
}

abbrev to_7 : Target
to_7 = record { addr = []; slot = 7; asking = false }

abbrev get_args : List Bytes
get_args = codes "GET" ∷ codes "k" ∷ []

abbrev moved_value : Value
moved_value = error (codes "MOVED 7 n1")

-- A node that always redirects is contacted seventeen times.
moves_forever :
    (execute_redirect (answering moved_value) (codes "GET") get_args to_7 0 fresh).0.world ≡ 17
unfolding execute_redirect
moves_forever = refl

execute_redirect-contacts_example :
    (execute_redirect (answering moved_value) (codes "GET") get_args to_7 0 fresh).0.world ≤ 68
execute_redirect-contacts_example =
    execute_redirect-contacts (answering moved_value) (λ n. n) (answering-IsCount moved_value)
      (codes "GET") get_args to_7 fresh

abbrev pong : Value
pong = simple_string (codes "PONG")

ponged :
    execute_redirect (answering pong) (codes "GET") get_args to_7 0 fresh
    ≡ (record fresh { world = 1 }, done pong)
unfolding execute_redirect
ponged = refl

-- Two nodes, the first with a scan of two calls.
abbrev two_nodes : ℕ → ℕ → ℕ × List Bytes
two_nodes node_idx cursor =
    if node_idx == 0
    then (if cursor == 0 then (5, codes "a" ∷ []) else (0, codes "b" ∷ []))
    else (0, codes "c" ∷ [])

two_nodes-small : (i c : ℕ) → (two_nodes i c).0 < 281474976710656
two_nodes-small i c = ground arith

abbrev two_keys : ℕ → List Bytes
two_keys i = if i == 0 then codes "a" ∷ codes "b" ∷ [] else codes "c" ∷ []

two_nodes-end : (i : ℕ) → i < 2 → (f : ℕ) × (node_scan two_nodes f i 0 ≡ some (two_keys i))
two_nodes-end i h = elim (Bool-cases (i == 0)) [ inl e ↦ (2, rw e refl) | inr e ↦ (1, rw e refl) ]

client_scan_complete_example :
    (g : ℕ) × (client_scan two_nodes 2 g 0 ≡ some (codes "a" ∷ codes "b" ∷ codes "c" ∷ []))
client_scan_complete_example =
    client_scan_complete two_nodes 2 (omega arith) two_nodes-small two_keys (omega arith)
      two_nodes-end

abbrev scanned : Value
scanned = array (cons (bulk_string (codes "5")) (cons (array nil) nil))

scan_asked :
    exec_on_node
      (answering scanned)
      (get_or masters (scan_target 2 196609).0 [])
      (codes "SCAN" ∷ format_uint (scan_target 2 196609).1 ∷ [])
      false
      fresh
    ≡ (
      record fresh { world = 1 },
      done (array (cons (bulk_string (format_uint 5)) (cons (array nil) nil))),
    )
unfolding exec_on_node format_uint
scan_asked = refl

masters_known : all_masters topology ≡ masters
unfolding all_masters
masters_known = refl

abbrev eval_args : List Bytes
eval_args = codes "EVAL" ∷ codes "return 1" ∷ codes "2" ∷ codes "{t}a" ∷ codes "{t}b" ∷ []

eval_planned : plan_script eval_args ≡ ok (on_slot (hash_slot (codes "t")))
unfolding plan_script hash_slot atoi
eval_planned = refl

two_read : atoi (codes "2") ≡ some 2
unfolding atoi
two_read = refl

eval_args-small :
    (num : Bytes) (n : ℕ)
    → get_elem? eval_args 2 ≡ some num
    → atoi num ≡ some n
    → n + 3 < 9223372036854775808
eval_args-small num n e a =
    let same : 2 ≡ n = some_inj (sym two_read ∙ ap atoi (some_inj e) ∙ a) in omega arith

-- A request that is empty, one that goes to all nodes, and two for one node.
abbrev pipelined : List Request
pipelined =
    record { args = []; raw = []; cmd = [] }
    ∷ record { args = codes "DBSIZE" ∷ []; raw = []; cmd = codes "DBSIZE" }
    ∷ record { args = get_args; raw = []; cmd = codes "GET" }
    ∷ record { args = get_args; raw = []; cmd = codes "GET" }
    ∷ []
