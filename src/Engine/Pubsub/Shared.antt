-- ===== src/Engine/Pubsub/Shared.antt =====
-- The connection that the hub of pkg/engine/pubsub_hub.go shares among its clients: dialling, what
-- is forwarded, its opening and its loss. A failed dial is a call of `dial_failed`.
pub mod Greeting
use pluster.Prelude.{
  ℕ, not, ◌&&◌, ◌||◌, Bool, true, false, Option, none, some, List, [], ◌∷◌, ◌++◌, map, length, ◌==◌,
  if◌then◌else◌, Bytes, bytes_eq, codes,
}
use pluster.Proto.Request.{Request}
use pluster.Proto.Value.{bulk_string, integer, array, nil, cons}
use pluster.Proto.Encode.{encode_value, encode_error, encode_command_bytes}
use pluster.Cluster.{Topology, all_masters}
use pluster.Engine.Split.Route.{args_behind}
use pluster.Engine.Pubsub.{SubEntry, Hub, subscribe, unsubscribe, remove_client}
use pluster.Engine.Pubsub.Messages.{Writes}

-- `backendConn`, as what has been written to it, `dialing`, the requests in `pendingClients`, and
-- the maps.
pub record Shared : Type 0 where
  pub hub : Hub
  pub backend : Option (List Bytes)
  pub dialing : Bool
  pub pending_clients : List Request

abbrev pub no_hub : Hub
no_hub = record { subs = λ p. []; client_subs = λ c. []; in_subscribe = λ c. false }

-- `newPubsubHub`.
abbrev pub new_pubsub_hub : Shared
new_pubsub_hub = record { hub = no_hub; backend = none; dialing = false; pending_clients = [] }

abbrev pub is_open : Option (List Bytes) → Bool
is_open none = false
is_open (some sent) = true

abbrev pub write_backend : Bytes → Option (List Bytes) → Option (List Bytes)
write_backend b none = none
write_backend b (some sent) = some (sent ++ b ∷ [])

-- `forwardToBackend`.
unfoldable pub forward_to_backend : Shared → Request → Shared
unfolding encode_command_bytes
forward_to_backend s req = record s {
  backend = write_backend (encode_command_bytes req.args) s.backend;
}

-- Whether the dial to the first master begins: its address resolves, and `Register` takes it.
abbrev pub begins_at : (Bytes → Bool) → List Bytes → Bool
begins_at begins [] = false
begins_at begins (addr ∷ addrs) = begins addr

-- `dialSharedBackend`.
unfoldable pub dial_shared_backend : (Bytes → Bool) → Topology → Shared → Shared
unfolding all_masters
dial_shared_backend begins t s = record s { dialing = begins_at begins (all_masters t) }

-- The dial has failed.
unfoldable pub dial_failed : Shared → Shared
dial_failed s = record s { dialing = false }

-- The first step of `subscribe`.
abbrev pub ensure_dialing : (Bytes → Bool) → Topology → Shared → Shared
ensure_dialing begins t s =
    if not (is_open s.backend) && not s.dialing then dial_shared_backend begins t s else s

-- Its last step.
abbrev pub forward_or_keep : Request → Shared → Shared
forward_or_keep req s =
    if is_open s.backend
    then forward_to_backend s req
    else record s { pending_clients = s.pending_clients ++ req ∷ [] }

-- `subscribe`.
unfoldable pub subscribe_request : (Bytes → Bool) → Topology → ℕ → Request → Shared → Shared
unfolding dial_shared_backend forward_to_backend subscribe bytes_eq
subscribe_request begins t c req s =
    let s' = ensure_dialing begins t s in
    forward_or_keep req (record s' {
      hub = subscribe c (bytes_eq req.cmd (codes "PSUBSCRIBE")) (args_behind req.args) s'.hub;
    })

-- The replies to UNSUBSCRIBE where no connection is open.
unfoldable pub unsubscribe_replies : ℕ → Bytes → ℕ → List Bytes → Writes
unfolding encode_value
unsubscribe_replies c sub_type count [] = []
unsubscribe_replies c sub_type count (channel ∷ channels) =
    (
      c,
      encode_value (
          array
            (cons (bulk_string sub_type) (cons (bulk_string channel) (cons (integer count) nil)))),
    )
    ∷ unsubscribe_replies c sub_type count channels

-- `unsubscribe`: the state, and what is written to the client.
unfoldable pub unsubscribe_request : ℕ → Request → Shared → Shared × Writes
unfolding forward_to_backend unsubscribe unsubscribe_replies bytes_eq
unsubscribe_request c req s =
    let hub' = unsubscribe c (args_behind req.args) s.hub in
    if is_open s.backend then (forward_to_backend (record s { hub = hub' }) req, []) else (
      record s { hub = hub' },
      unsubscribe_replies c
          (if bytes_eq req.cmd (codes "PUNSUBSCRIBE")
            then codes "punsubscribe"
            else codes "unsubscribe")
          (length (hub'.client_subs c)) (args_behind req.args),
    )

-- `removeClient`.
unfoldable pub remove_from_hub : ℕ → Shared → Shared
unfolding remove_client
remove_from_hub c s = record s { hub = remove_client c s.hub }

-- AUTH, at the user and the password of the configuration.
abbrev pub auth_args : Bytes → Bytes → List Bytes
auth_args [] password = codes "AUTH" ∷ password ∷ []
auth_args (u ∷ us) password = codes "AUTH" ∷ (u ∷ us) ∷ password ∷ []

abbrev pub auth_commands : Bytes → Bytes → List Bytes
auth_commands user [] = []
auth_commands user (p ∷ ps) = encode_command_bytes (auth_args user (p ∷ ps)) ∷ []

-- What is written first to a connection.
unfoldable pub greeting : Bytes → Bytes → List Bytes
unfolding encode_command_bytes
greeting user password =
    auth_commands user password ++ encode_command_bytes (codes "PSUBSCRIBE" ∷ codes "*" ∷ []) ∷ []

unfoldable pub forward_all : List Request → Shared → Shared
unfolding forward_to_backend
forward_all [] s = s
forward_all (req ∷ reqs) s = forward_all reqs (forward_to_backend s req)

-- `onSharedBackendOpen`.
unfoldable pub on_shared_backend_open : Bytes → Bytes → Shared → Shared
unfolding greeting forward_all
on_shared_backend_open user password s =
    let s' = record s { dialing = false; backend = some (greeting user password) } in
    record (forward_all s.pending_clients s') { pending_clients = [] }

-- `notified`, in the order in which clients are added.
unfoldable pub has_number : ℕ → List ℕ → Bool
has_number c [] = false
has_number c (d ∷ ds) = d == c || has_number c ds

unfoldable pub notify_entries : List ℕ → List SubEntry → List ℕ
unfolding has_number
notify_entries notified [] = notified
notify_entries notified (e ∷ es) =
    notify_entries (if has_number e.client notified then notified else notified ++ e.client ∷ []) es

unfoldable pub notify_all : List ℕ → Hub → List Bytes → List ℕ
unfolding notify_entries
notify_all notified hub [] = notified
notify_all notified hub (p ∷ ps) = notify_all (notify_entries notified (hub.subs p)) hub ps

abbrev pub connection_lost : Bytes
connection_lost = encode_error (codes "ERR pubsub backend connection lost; please re-subscribe")

-- `onSharedBackendClose`, at the keys of `subs` in the order in which Go ranges over them.
unfoldable pub on_shared_backend_close : List Bytes → Shared → Shared × Writes
unfolding notify_all has_number
on_shared_backend_close patterns s =
    let notified = notify_all [] s.hub patterns in
    (
      record s {
        backend = none;
        dialing = false;
        hub = record {
          subs = λ p. [];
          client_subs = λ c. [];
          in_subscribe = λ (c : ℕ). if has_number c notified then false else s.hub.in_subscribe c;
        };
      },
      map (λ c. (c, connection_lost)) notified,
    )
