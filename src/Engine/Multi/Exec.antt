-- ===== src/Engine/Multi/Exec.antt =====
-- `execMulti` of pkg/engine/handler_tx.go, and the transaction on its dedicated connection.
pub mod Laws
use pluster.Prelude.{
  ℕ, zero, suc, ◌+◌, ◌&&◌, Bool, true, false, Option, none, some, List, [], ◌∷◌, ◌++◌, map, ◌==◌,
  if◌then◌else◌, Bytes, bytes_eq, codes,
}
use pluster.Proto.Encode.{encode_error, encode_value, encode_command_bytes}
use pluster.Proto.Value.{Value, array, nil, is_error}
use pluster.Proto.Request.{Request}
use pluster.Cluster.{Topology}
use pluster.Engine.Responses.{Client, alloc_response_slot, fill_response_slot_in_loop}
use pluster.Engine.Multi.{
  ClientState, state_normal, state_subscribe, state_multi, state_watch, state_watch_multi,
  state_blocking, Respond, watch_done, multi_done, nothing, exec_done, Dedicated, Outside, closed,
  dial_multi, Session, say, write_past, close_watch, close_multi, close_multi_of, end_multi,
  Resolved, resolved, unresolved, resolve_multi_slot,
}

-- A command on a dedicated connection, and what is to be done with its reply.
unfoldable pub push_command : List Bytes → Respond → Dedicated → Dedicated
unfolding encode_command_bytes
push_command args respond d = record d {
  pending = d.pending ++ respond ∷ [];
  sent = d.sent ++ encode_command_bytes args;
}

-- `execMultiOnDedicatedConn`: the session, and the connection, which it no longer holds.
unfoldable pub exec_on_dedicated : Session → Dedicated → Bool → Session × Dedicated
unfolding alloc_response_slot push_command
exec_on_dedicated s d close_after =
    let (c, i) = alloc_response_slot s.client in
    let d' = push_command (codes "MULTI" ∷ []) (multi_done i s.tx_queue) d in
    let s' = end_multi s in
    (
      (if close_after
          then record s' { client = c; watch_backend = none; watch_addr = [] }
          else record s' { client = c; multi_backend = none }),
      d',
    )

abbrev pub exec_abort : Bytes
exec_abort = encode_error (codes "EXECABORT Transaction discarded because of previous errors.")

abbrev pub empty_array : Bytes
empty_array = encode_value (array nil)

-- Whether the state is `stateWatchMulti`.
abbrev pub is_watch_multi : ClientState → Bool
is_watch_multi state_watch_multi = true
is_watch_multi _ = false

abbrev pub watching : ClientState → Option Dedicated → Option Dedicated
watching state_watch_multi d = d
watching _ d = none

-- What `execMulti` does with the connection of an earlier transaction: it is used where it leads to
-- the address, and closed otherwise.
abbrev pub dial_new : Session → Bytes → Session
dial_new s addr =
    let (c, i) = alloc_response_slot s.client in
    let s' = end_multi s in
    record s' { client = c; outside = s.outside ++ dial_multi addr s.tx_queue i ∷ [] }

unfoldable pub exec_at : Session → Bytes → Option Dedicated → Session × Option Dedicated
unfolding exec_on_dedicated alloc_response_slot bytes_eq
exec_at s addr none = (dial_new s addr, none)
exec_at s addr (some d) =
    let (s', d') = exec_on_dedicated s d false in
    if bytes_eq d.addr addr
    then (s', some d')
    else (dial_new (close_multi_of (some d) s) addr, none)

abbrev pub exec_resolved : Session → Resolved → Session × Option Dedicated
exec_resolved s (unresolved msg) = (say (encode_error msg) (end_multi s), none)
exec_resolved s (resolved addr) = exec_at s addr s.multi_backend

abbrev pub exec_queue : Topology → Session → List Request → Session × Option Dedicated
exec_queue t s [] = (write_past empty_array (end_multi s), none)
exec_queue t s (req ∷ queue) = exec_resolved s (resolve_multi_slot t (req ∷ queue))

abbrev pub exec_watching : Topology → Session → Option Dedicated → Session × Option Dedicated
exec_watching t s (some d) = let (s', d') = exec_on_dedicated s d true in (s', some d')
exec_watching t s none = exec_queue t s s.tx_queue

-- `execMulti`: the session, and the connection on which the transaction has begun.
unfoldable pub exec_multi : Topology → Session → Session × Option Dedicated
unfolding say write_past close_watch close_multi resolve_multi_slot exec_at exec_on_dedicated
exec_multi t s =
    if s.tx_err
    then (say exec_abort (close_multi (close_watch (end_multi s))), none)
    else exec_watching t s (watching s.state s.watch_backend)

-- The loop over the queue in the `respond` of MULTI.
unfoldable pub push_queue : List Request → Dedicated → Dedicated
unfolding push_command
push_queue [] d = d
push_queue (req ∷ queue) d = push_queue queue (push_command req.args nothing d)

-- What the respond functions of MULTI, EXEC and of the queued commands do with a reply: to the
-- client, and to the connection, which is none where it is closed.
unfoldable pub respond_to : Respond → Value → Client × Dedicated → Client × Option Dedicated
unfolding push_queue push_command fill_response_slot_in_loop is_error
respond_to (multi_done i queue) v (c, d) =
    if is_error v
    then (
      fill_response_slot_in_loop c i (encode_error (codes "ERR failed to start MULTI on backend")),
      none,
    )
    else (c, some (push_command (codes "EXEC" ∷ []) (exec_done i) (push_queue queue d)))
respond_to (exec_done i) v (c, d) = (fill_response_slot_in_loop c i (encode_value v), none)
respond_to _ v (c, d) = (c, some d)

-- Replies from the connection: each goes to the first of `pending`.
abbrev pub next_reply : List Respond → Value → Client × Dedicated → Client × Option Dedicated
next_reply [] v (c, d) = (c, some d)
next_reply (r ∷ rs) v (c, d) = respond_to r v (c, record d { pending = rs })

unfoldable pub replies_from : List Value → Client × Option Dedicated → Client × Option Dedicated
unfolding respond_to
replies_from [] s = s
replies_from (v ∷ vs) (c, none) = (c, none)
replies_from (v ∷ vs) (c, some d) = replies_from vs (next_reply d.pending v (c, d))
