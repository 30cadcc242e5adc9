-- ===== src/Tests/Multi.antt =====
-- Transactions, of pkg/engine/handler_tx.go, the count of clients, and pipelined connections.
use pluster.Prelude.{
  ℕ, zero, suc, ◌≡◌, ◌⊎◌, inl, refl, true, false, none, some, List, [], ◌∷◌, bytes_eq, codes,
  length, All,
}
use pluster.Proto.Encode.{encode_value}
use pluster.Proto.Value.{Value, simple_string, array, nil, is_error}
use pluster.Proto.Request.{Request}
use pluster.Proto.Slot.{hash_slot}
use pluster.Proto.Command.{get_cmd_info, get_first_key_from_request}
use pluster.Cluster.{Topology, get_node_for_slot}
use pluster.Engine.Responses.{empty_slot, alloc_response_slot, fill_response_slot_in_loop}
use pluster.Engine.Responses.Steps.{new_client}
use pluster.Engine.Multi.{
  state_normal, state_multi, Dedicated, Session, resolved, resolve_multi_slot,
}
use pluster.Engine.Multi.Exec.{exec_on_dedicated, replies_from}
use pluster.Engine.Multi.OneSlot.{InSlotOf, resolve_multi_slot-OneSlot}
use pluster.Engine.Multi.Exec.Laws.{started, exec_on_dedicated-runs}
use pluster.Engine.Clients.{Clients}
use pluster.Pool.Pipeline.{PipeConn, val, err, Round, round}
use pluster.Pool.Pipeline.Rounds.{InBounds, round-Answered}

abbrev set_a : Request
set_a = record { args = codes "SET" ∷ codes "a" ∷ codes "1" ∷ []; raw = []; cmd = codes "SET" }

abbrev pub topology : Topology
topology = record {
  snap = record {
    nodes = [];
    slots = λ slot. some (codes "n0");
    masters = codes "n0" ∷ [];
    version = 1;
  };
  rr_counter = 0;
  msrr_counter = 0;
  version = 1;
}

-- In a transaction with one command.
abbrev pub in_multi : Session
in_multi = record {
  id = 7;
  client = new_client;
  mux = record { conns = λ a. none; dialing = λ a. [] };
  state = state_multi;
  authenticated = true;
  tx_queue = set_a ∷ [];
  tx_err = false;
  watch_addr = [];
  watch_backend = none;
  multi_backend = none;
  pending_watch_req = none;
  pending_watch_slot = 0;
  pending_cmds = [];
  outside = [];
}

queue_resolved : resolve_multi_slot topology (set_a ∷ []) ≡ resolved (codes "n0")
unfolding resolve_multi_slot get_first_key_from_request get_cmd_info bytes_eq hash_slot
queue_resolved = refl

resolve_multi_slot-OneSlot_example :
    All (λ req. get_first_key_from_request req ≡ none) (set_a ∷ [])
    ⊎ ((slot : ℕ) × All (InSlotOf slot) (set_a ∷ [])
        × (get_node_for_slot topology slot ≡ some (codes "n0")))
resolve_multi_slot-OneSlot_example =
    resolve_multi_slot-OneSlot topology (set_a ∷ []) (codes "n0") queue_resolved

abbrev idle : Dedicated
idle = record { addr = codes "n0"; pending = []; sent = [] }

abbrev ok_reply : Value
ok_reply = simple_string (codes "OK")

exec_on_dedicated-runs_example :
    (replies_from (ok_reply ∷ []) (new_client, some (exec_on_dedicated in_multi idle false).1)
      ≡ (new_client, some (started idle (alloc_response_slot new_client).1 (set_a ∷ []))))
    × (replies_from (ok_reply ∷ simple_string (codes "QUEUED") ∷ array nil ∷ []) (
      (exec_on_dedicated in_multi idle false).0.client,
      some (exec_on_dedicated in_multi idle false).1,
    )
        ≡ (
          fill_response_slot_in_loop
              (exec_on_dedicated in_multi idle false).0.client
              (alloc_response_slot new_client).1
              (encode_value (array nil)),
          none,
        ))
unfolding is_error
exec_on_dedicated-runs_example =
    exec_on_dedicated-runs in_multi idle false ok_reply (simple_string (codes "QUEUED") ∷ [])
      (array nil) refl refl refl

-- The dial for WATCH goes on.
abbrev dialling : Session
dialling = record in_multi {
  client = record new_client { queue = empty_slot ∷ [] };
  state = state_normal;
  tx_queue = [];
  pending_watch_req = some set_a;
}

abbrev full : Clients
full = record { max_clients = 2; num_clients = 2; client_id_seq = 9 }

-- The second read fails.
abbrev broken_round : Round
broken_round = record {
  now = 5;
  later = 6;
  connect_error = none;
  written = true;
  reads = λ i. elim i [ zero ↦ val ok_reply | suc j ↦ err (codes "EOF") ];
}

abbrev three : List ℕ
three = 1 ∷ 2 ∷ 3 ∷ []

abbrev connected : PipeConn
connected = record { addr = codes "n0"; connected = true; backoff_until = 0; backoff_delay = 0 }

broken_answers :
    (round broken_round connected three).1
    ≡ val ok_reply ∷ err (codes "EOF") ∷ err (codes "connection reset") ∷ []
unfolding round
broken_answers = refl

round-Answered_example :
    (length (round broken_round connected three).1 ≡ 3)
    × InBounds (round broken_round connected three).0
round-Answered_example = round-Answered broken_round three connected (inl refl)
