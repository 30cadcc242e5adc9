-- ===== src/Engine/Multi.antt =====
-- Transactions, of pkg/engine/handler_tx.go: MULTI, EXEC, DISCARD, WATCH and UNWATCH of one client.
-- The dedicated connection of a transaction is in Multi/Exec.antt.
pub mod Exec
pub mod Dispatch
pub mod OneSlot
use pluster.Prelude.{
  ℕ, zero, suc, ◌+◌, ◌&&◌, ◌||◌, not, Bool, true, false, Option, none, some, List, [], ◌∷◌, ◌++◌,
  map, ltb, ◌==◌, if◌then◌else◌, Bytes, bytes_eq, codes, length,
}
use pluster.Proto.Int64.{format_int}
use pluster.Proto.Encode.{encode_error, encode_simple_string, encode_value, encode_command_bytes}
use pluster.Proto.Value.{Value, array, nil}
use pluster.Proto.Slot.{hash_slot}
use pluster.Proto.Request.{Request}
use pluster.Proto.Command.Info.{CmdInfo, has_flag, flag_not_allowed}
use pluster.Proto.Command.{get_cmd_info, get_first_key_from_request}
use pluster.Cluster.{Topology, get_node_for_slot, all_masters}
use pluster.Engine.Responses.{Client, alloc_response_slot}
use pluster.Engine.Mux.{Mux, Effect}
use pluster.Engine.Split.Route.{Routed, write_immediate, lower}

-- `clientState`.
pub data ClientState : Type 0 where
  state_normal state_subscribe state_multi state_watch state_watch_multi state_blocking :
      ClientState

-- A `respond` function of `backendPending`: that of AUTH, of WATCH, of MULTI with the commands that are
-- to follow, of a queued command or UNWATCH, and of EXEC.
pub data Respond : Type 0 where
  auth_done : Respond
  watch_done : ℕ → Request → Respond
  multi_done : ℕ → List Request → Respond
  nothing : Respond
  exec_done : ℕ → Respond

-- A dedicated connection: `addr` and `pending` of its `backendCtx`, and what has been written to it.
pub record Dedicated : Type 0 where
  pub addr : Bytes
  pub pending : List Respond
  pub sent : Bytes

-- What a handler does outside of the client's state: an effect on the event loop, closing the
-- connection of WATCH or that of a transaction, and a dial for either.
pub data Outside : Type 0 where
  on_loop : Effect → Outside
  closed : Dedicated → Outside
  dial_watch : Bytes → Request → Outside
  dial_multi : Bytes → List Request → ℕ → Outside

-- The fields of `clientCtx` that transactions use.
pub record Session : Type 0 where
  pub id : ℕ
  pub client : Client
  pub mux : Mux
  pub state : ClientState
  pub authenticated : Bool
  pub tx_queue : List Request
  pub tx_err : Bool
  pub watch_addr : Bytes
  pub watch_backend : Option Dedicated
  pub multi_backend : Option Dedicated
  pub pending_watch_req : Option Request
  pub pending_watch_slot : ℕ
  pub pending_cmds : List Request
  pub outside : List Outside

-- `writeImmediate`, for the client of a session.
unfoldable pub say : Bytes → Session → Session
unfolding write_immediate
say b s =
    let r = write_immediate s.id s.client s.mux b in
    record s { client = r.client; outside = s.outside ++ map on_loop r.effects }

-- `c.Write`, which goes past the queue of responses.
unfoldable pub write_past : Bytes → Session → Session
write_past b s = record s { client = record s.client { written = s.client.written ++ b ∷ [] } }

-- `if cctx.watchBackend != nil { … = nil; watchAddr = "" }` and the same for `multiBackend`.
abbrev pub close_watch_of : Option Dedicated → Session → Session
close_watch_of none s = s
close_watch_of (some d) s = record s {
  watch_backend = none;
  watch_addr = [];
  outside = s.outside ++ closed d ∷ [];
}

abbrev pub close_multi_of : Option Dedicated → Session → Session
close_multi_of none s = s
close_multi_of (some d) s = record s { multi_backend = none; outside = s.outside ++ closed d ∷ [] }

unfoldable pub close_watch : Session → Session
close_watch s = close_watch_of s.watch_backend s

unfoldable pub close_multi : Session → Session
close_multi s = close_multi_of s.multi_backend s

-- `state = stateNormal; txQueue = nil; txErr = false`.
abbrev pub end_multi : Session → Session
end_multi s = record s { state = state_normal; tx_queue = []; tx_err = false }

-- `discardMulti`.
unfoldable pub discard_multi : Session → Session
unfolding say close_watch close_multi
discard_multi s = say (encode_simple_string (codes "OK")) (end_multi (close_multi (close_watch s)))

-- `resetClientState`, of what transactions use.
unfoldable pub reset_client_state : Session → Session
unfolding close_watch close_multi
reset_client_state s = record (close_multi (close_watch (end_multi s))) { pending_cmds = [] }

-- What `resolveMultiSlot` returns: an address, or the text of an error.
pub data Resolved : Type 0 where
  resolved : Bytes → Resolved
  unresolved : Bytes → Resolved

abbrev pub crossslot_multi : Bytes
crossslot_multi = codes "CROSSSLOT Keys in MULTI transaction don't hash to the same slot"

-- The loop over the queue: `targetSlot`, none while it is -1; false for keys of two slots.
abbrev pub target_with : Option ℕ → Option Bytes → Option ℕ
target_with target none = target
target_with none (some key) = some (hash_slot key)
target_with (some slot) (some key) = some slot

abbrev pub same_slot : Option ℕ → Option Bytes → Bool
same_slot (some slot) (some key) = hash_slot key == slot
same_slot _ _ = true

unfoldable pub target_slot : Option ℕ → List Request → Option (Option ℕ)
unfolding hash_slot get_first_key_from_request
target_slot target [] = some target
target_slot target (req ∷ reqs) =
    let key = get_first_key_from_request req in
    let rest = target_slot (target_with target key) reqs in
    if same_slot target key then rest else none

abbrev pub first_master : List Bytes → Resolved
first_master [] = unresolved (codes "ERR no cluster nodes available")
first_master (m ∷ ms) = resolved m

abbrev pub serving_node : ℕ → Option Bytes → Resolved
serving_node slot none = unresolved (codes "ERR no node for slot " ++ format_int slot)
serving_node slot (some addr) = resolved addr

abbrev pub resolve_target : Topology → Option (Option ℕ) → Resolved
resolve_target t none = unresolved crossslot_multi
resolve_target t (some none) = first_master t.snap.masters
resolve_target t (some (some slot)) = serving_node slot (get_node_for_slot t slot)

-- `resolveMultiSlot`.
unfoldable pub resolve_multi_slot : Topology → List Request → Resolved
unfolding target_slot get_node_for_slot
resolve_multi_slot t queue = resolve_target t (target_slot none queue)

-- `handleUNWATCH`, at the connection of WATCH.
abbrev pub unwatch_on : Option Dedicated → Session → Session
unwatch_on none s = s
unwatch_on (some d) s =
    close_watch_of
      (some (record d {
        pending = d.pending ++ nothing ∷ [];
        sent = d.sent ++ encode_command_bytes (codes "UNWATCH" ∷ []);
      }))
      s

unfoldable pub handle_unwatch : Session → Session
unfolding say encode_command_bytes
handle_unwatch s =
    say (encode_simple_string (codes "OK"))
      (record (unwatch_on s.watch_backend s) { state = state_normal })
