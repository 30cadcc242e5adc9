-- ===== src/Engine/Multi/Dispatch.antt =====
-- Which handler of pkg/engine/handler_tx.go and handler_routing.go a command of a client reaches:
-- `handleInMulti`, `handleWATCH`, and what `handleNormal` does with the commands of transactions.
pub mod Laws
use pluster.Prelude.{
  ℕ, zero, suc, ◌+◌, ◌&&◌, ◌||◌, not, Bool, true, false, Option, none, some, List, [], ◌∷◌, ◌++◌,
  map, ltb, ◌==◌, if◌then◌else◌, Bytes, bytes_eq, codes, length,
}
use pluster.Proto.Int64.{format_int}
use pluster.Proto.Encode.{encode_error, encode_simple_string, encode_value, encode_command_bytes}
use pluster.Proto.Value.{Value, is_error, is_moved_error}
use pluster.Proto.Slot.{hash_slot}
use pluster.Proto.Request.{Request}
use pluster.Proto.Command.Info.{CmdInfo, has_flag, flag_not_allowed}
use pluster.Proto.Command.{get_cmd_info}
use pluster.Cluster.{Topology, get_node_for_slot}
use pluster.Engine.Responses.{Client, alloc_response_slot, fill_response_slot_in_loop}
use pluster.Engine.Split.Route.{lower, args_behind}
use pluster.Engine.Multi.{
  ClientState, state_normal, state_subscribe, state_multi, state_watch, state_watch_multi,
  state_blocking, Respond, watch_done, nothing, Dedicated, Outside, closed, dial_watch, Session,
  say, write_past, end_multi, discard_multi, reset_client_state, handle_unwatch,
}
use pluster.Engine.Multi.Exec.{exec_multi, push_command}

abbrev pub ok_bytes : Bytes
ok_bytes = encode_simple_string (codes "OK")

-- What a handler returns: the session, the connection on which a transaction has begun, and whether
-- the client's connection is closed.
pub record Handled : Type 0 where
  pub session : Session
  pub begun : Option Dedicated
  pub closes : Bool

abbrev pub stays : Session → Handled
stays s = record { session = s; begun = none; closes = false }

abbrev pub begins : Session × Option Dedicated → Handled
begins (s, d) = record { session = s; begun = d; closes = false }

-- The default of `handleInMulti`: a command is queued, or remembered as an error.
abbrev pub queue_command : Session → Request → Option CmdInfo → Session
queue_command s req none =
    say (encode_error ((codes "ERR unknown command '" ++ lower req.cmd) ++ codes "'"))
      (record s { tx_err = true })
queue_command s req (some info) =
    if has_flag info flag_not_allowed
    then say
        (encode_error
          ((codes "ERR command '" ++ lower req.cmd) ++ codes "' is not supported in cluster proxy"))
        (record s { tx_err = true })
    else say (encode_simple_string (codes "QUEUED"))
        (record s { tx_queue = s.tx_queue ++ req ∷ [] })

-- The names that `handleInMulti` answers itself.
abbrev pub nested : Bytes
nested = encode_error (codes "ERR MULTI calls can not be nested")

abbrev pub watch_inside : Bytes
watch_inside = encode_error (codes "ERR WATCH inside MULTI is not allowed")

abbrev pub unwatch_inside : Bytes
unwatch_inside = encode_error (codes "ERR UNWATCH not allowed inside MULTI")

-- `handleInMulti`; its case of MULTI in `stateWatch` is never met, since it is called in the states
-- of a transaction alone.
unfoldable pub handle_in_multi : Topology → Session → Request → Handled
unfolding exec_multi discard_multi reset_client_state say write_past get_cmd_info bytes_eq has_flag
    lower
handle_in_multi t s req =
    if bytes_eq req.cmd (codes "EXEC")
    then begins (exec_multi t s)
    else if bytes_eq req.cmd (codes "DISCARD")
    then stays (discard_multi s)
    else if bytes_eq req.cmd (codes "MULTI")
    then stays (say nested s)
    else if bytes_eq req.cmd (codes "WATCH")
    then stays (say watch_inside s)
    else if bytes_eq req.cmd (codes "UNWATCH")
    then stays (say unwatch_inside s)
    else if bytes_eq req.cmd (codes "RESET")
    then stays (say (encode_simple_string (codes "RESET")) (reset_client_state s))
    else if bytes_eq req.cmd (codes "QUIT")
    then record { session = write_past ok_bytes s; begun = none; closes = true }
    else stays (queue_command s req (get_cmd_info req.cmd))

-- `MULTI` of `handleNormal`.
abbrev pub multi_from : ClientState → ClientState
multi_from state_watch = state_watch_multi
multi_from _ = state_multi

unfoldable pub handle_multi : Session → Session
unfolding say
handle_multi s =
    say ok_bytes (record s { state = multi_from s.state; tx_queue = []; tx_err = false })

-- `handleWATCH`, outside of a transaction.
unfoldable pub all_in_slot : ℕ → List Bytes → Bool
unfolding hash_slot
all_in_slot slot [] = true
all_in_slot slot (k ∷ ks) = hash_slot k == slot && all_in_slot slot ks

abbrev pub drop_watch : Option Dedicated → Session → Session
drop_watch none s = s
drop_watch (some d) s = record s { watch_backend = none; outside = s.outside ++ closed d ∷ [] }

abbrev pub watch_new : Session → Request → Bytes → Session
watch_new s req addr =
    let (c, i) = alloc_response_slot s.client in
    let s' = drop_watch s.watch_backend s in
    record s' {
      client = c;
      watch_addr = addr;
      pending_watch_req = some req;
      pending_watch_slot = i;
      outside = s'.outside ++ dial_watch addr req ∷ [];
    }

abbrev pub watch_again : Session → Request → Dedicated → Session
watch_again s req d =
    let (c, i) = alloc_response_slot s.client in
    record s { client = c; watch_backend = some (push_command req.args (watch_done i req) d) }

abbrev pub watch_at : Session → Request → Bytes → Option Dedicated → Session
watch_at s req addr none = watch_new s req addr
watch_at s req addr (some d) =
    if bytes_eq s.watch_addr addr then watch_again s req d else watch_new s req addr

abbrev pub watch_served : Session → Request → ℕ → Option Bytes → Session
watch_served s req slot none =
    say (encode_error (codes "ERR no node for slot " ++ format_int slot)) s
watch_served s req slot (some addr) = watch_at s req addr s.watch_backend

abbrev pub watch_keys : Topology → Session → Request → List Bytes → Session
watch_keys t s req [] =
    say (encode_error (codes "ERR wrong number of arguments for 'watch' command")) s
watch_keys t s req (k ∷ ks) =
    if all_in_slot (hash_slot k) ks
    then watch_served s req (hash_slot k) (get_node_for_slot t (hash_slot k))
    else say (encode_error (codes "CROSSSLOT Keys in request don't hash to the same slot")) s

unfoldable pub handle_watch : Topology → Session → Request → Session
unfolding say all_in_slot alloc_response_slot push_command get_node_for_slot hash_slot bytes_eq
handle_watch t s req = watch_keys t s req (args_behind req.args)

-- `sendErr` of `dialDedicatedBackend`, for a connection of WATCH: the dial has failed.
unfoldable pub watch_dial_failed : Bytes → Session → Session
unfolding fill_response_slot_in_loop
watch_dial_failed msg s = record s {
  client = fill_response_slot_in_loop s.client s.pending_watch_slot (encode_error msg);
}

-- The last branch of `onBackendOpen`, where no password is set: the connection of WATCH is open.
abbrev pub open_watch_of : Option Request → Session → Dedicated → Session
open_watch_of none s d = record s { watch_backend = some d }
open_watch_of (some req) s d = record s {
  watch_backend = some (push_command req.args (watch_done s.pending_watch_slot req) d);
  pending_watch_req = none;
}

unfoldable pub open_watch : Session → Session
unfolding push_command
open_watch s =
    open_watch_of s.pending_watch_req s (record { addr = s.watch_addr; pending = []; sent = [] })

-- What `handleNormal` does before its switch: the session where it answers or buffers the command.
unfoldable pub before_switch : Session → Request → Option Session
unfolding say bytes_eq
before_switch s req =
    if not s.authenticated
      && not (bytes_eq req.cmd (codes "AUTH"))
      && not (bytes_eq req.cmd (codes "QUIT"))
      && not (bytes_eq req.cmd (codes "HELLO"))
      && not (bytes_eq req.cmd (codes "PING"))
    then some (say (encode_error (codes "NOAUTH Authentication required.")) s)
    else buffer_watch s.pending_watch_req
  where
    buffer_watch : Option Request → Option Session
    buffer_watch none = none
    buffer_watch (some watch) =
        if not (bytes_eq req.cmd (codes "QUIT")) && not (bytes_eq req.cmd (codes "RESET"))
        then some (record s { pending_cmds = s.pending_cmds ++ req ∷ [] })
        else none
