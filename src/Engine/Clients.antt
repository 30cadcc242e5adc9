-- ===== src/Engine/Clients.antt =====
-- The number of clients in pkg/engine/handler.go: `onClientOpen` and what `onClientClose` does first.
pub mod Limit
use pluster.Prelude.{ℕ, ◌&&◌, not, Bool, true, false, if◌then◌else◌}
use pluster.Proto.Int64.{add64, neg64, lt64}

-- `maxClients`, `numClients` and `clientIDSeq`, as patterns of 64 bits.
pub record Clients : Type 0 where
  pub max_clients : ℕ
  pub num_clients : ℕ
  pub client_id_seq : ℕ

-- Whether `onClientOpen` takes the connection; where it does not, it answers with an error and has
-- the connection closed.
abbrev pub takes_client : Clients → Bool
takes_client c = not (lt64 0 c.max_clients && not (lt64 c.num_clients c.max_clients))

-- `onClientOpen`: the counters.
unfoldable pub on_client_open : Clients → Clients
on_client_open c =
    if takes_client c
    then record c { client_id_seq = add64 c.client_id_seq 1; num_clients = add64 c.num_clients 1 }
    else c

-- `onClientClose`, which comes for every connection that is closed, also for one that was refused.
unfoldable pub on_client_close : Clients → Clients
on_client_close c = record c { num_clients = add64 c.num_clients (neg64 1) }
