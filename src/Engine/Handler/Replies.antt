-- ===== src/Engine/Handler/Replies.antt =====
-- The connection of a blocking command, of pkg/engine/handler_blocking.go and handler.go: its opening,
-- what its replies do, its loss, and the requests that have waited for it. So for the first WATCH of
-- a client, of `onBackendOpen`.
pub mod Waiting
pub mod Lost
pub mod Watch
use pluster.Prelude.{
  ℕ, Bool, true, false, Option, none, some, List, [], ◌∷◌, ◌++◌, suc, ◌==◌, if◌then◌else◌, Bytes,
  bytes_eq, codes,
}
use pluster.Proto.Outcome.{Outcome, ok, ◌>>=◌}
use pluster.Proto.Value.{Value, error, is_error, is_moved_error}
use pluster.Proto.Encode.{encode_error, encode_value, encode_command_bytes}
use pluster.Proto.Request.{Request}
use pluster.Router.Redirect.{parse_redirection}
use pluster.Engine.Responses.{fill_response_slot_in_loop}
use pluster.Engine.Blocking.{put_idle}
use pluster.Engine.Pubsub.Shared.{auth_args}
use pluster.Engine.Multi.{
  ClientState, state_normal, state_blocking, state_watch, Session, Outside, dial_watch,
}
use pluster.Engine.Handler.{
  Server, Ctx, Action, BlockingRespond, after_auth, after_command, BlockingConn,
}
use pluster.Engine.Handler.Blocking.{end_blocking, send_on, dial_blocking_backend}
use pluster.Engine.Handler.Dispatch.{dispatch_client_request}
use pluster.Engine.Handler.Traffic.{flush}

-- The loop of `drainPendingCmds`.
unfoldable pub drain_each : Server → List Request → Ctx → Outcome Ctx
unfolding dispatch_client_request
drain_each srv [] c = ok c
drain_each srv (req ∷ reqs) c = do
  a ← dispatch_client_request srv req c
  let rest = drain_each srv reqs a.ctx
  if a.closes then ok a.ctx else rest

-- `drainPendingCmds`.
abbrev pub drain_from : Server → List Request → Ctx → Outcome Ctx
drain_from srv [] c = ok c
drain_from srv (req ∷ reqs) c = do
  c' ← drain_each srv (req ∷ reqs) (record c { session = record c.session { pending_cmds = [] } })
  ok (flush c')

unfoldable pub drain_pending_cmds : Server → Ctx → Outcome Ctx
unfolding drain_each
drain_pending_cmds srv c = drain_from srv c.session.pending_cmds c

-- `onBackendOpen`, for a connection that has been dialled for a blocking command.
unfoldable pub on_blocking_open : Server → ℕ → Bytes → Request → Ctx → Ctx
unfolding encode_command_bytes
on_blocking_open srv number addr req c = record c { blocking_backend = some (opened srv.password) }
  where
    opened : Bytes → BlockingConn
    opened [] = send_on number addr req
    opened (p ∷ ps) = record {
      number = number;
      addr = addr;
      pending = after_auth req ∷ [];
      sent = encode_command_bytes (auth_args srv.username (p ∷ ps)) ∷ [];
    }

-- The text of `v.Error()`.
abbrev pub error_text : Value → Bytes
error_text (error msg) = msg
error_text _ = []

-- The reply to AUTH on the connection of a blocking command: an error goes to the slot of WATCH.
unfoldable pub on_auth_reply : BlockingConn → Request → Value → Ctx → Ctx
unfolding fill_response_slot_in_loop is_error encode_command_bytes
on_auth_reply d req v c =
    if is_error v
    then record c {
      session = record c.session {
        client =
            fill_response_slot_in_loop c.session.client c.session.pending_watch_slot
              (encode_error (codes "ERR backend auth failed: " ++ error_text v));
      };
      blocking_backend = some d;
    }
    else record c {
      blocking_backend = some (record d {
        pending = d.pending ++ after_command req ∷ [];
        sent = d.sent ++ encode_command_bytes req.args ∷ [];
      });
    }

-- `returnBlockingConn`.
abbrev pub close_conn : ℕ → Ctx → Ctx
close_conn n c = record c { closed = c.closed ++ n ∷ [] }

abbrev pub put_back : BlockingConn → Ctx → Ctx
put_back d c =
    let (pool', kept) = put_idle c.pool d.addr d.number in
    if kept then record c { pool = pool' } else close_conn d.number c

abbrev pub return_conn : BlockingConn → List BlockingRespond → Ctx → Ctx
return_conn d [] c = put_back d c
return_conn d (r ∷ rs) c = close_conn d.number c

-- `handleBlockingResponse`: where the reply moves the command, and where it is the answer.
abbrev pub blocking_moved : Server → BlockingConn → Request → Bytes → Ctx → Ctx
blocking_moved srv d req addr c =
    dial_blocking_backend srv addr req
      (close_conn d.number (record c { refreshes = suc c.refreshes; blocking_backend = none }))

abbrev pub blocking_answered : Server → BlockingConn → Value → Ctx → Outcome Ctx
blocking_answered srv d v c =
    drain_pending_cmds srv (
      return_conn d d.pending
        (record (end_blocking (encode_value v) c) { blocking_backend = none }))

-- The address that a reply moves to, if it does.
abbrev pub moved_addr : Value → Option Bytes
moved_addr v =
    if is_moved_error v
    then (elim (parse_redirection (error_text v)) [ none ↦ none | some (slot, addr) ↦ some addr ])
    else none

unfoldable pub handle_blocking_response :
    Server → BlockingConn → Request → Value → Ctx → Outcome Ctx
unfolding is_moved_error parse_redirection dial_blocking_backend drain_pending_cmds put_idle
    end_blocking encode_value
handle_blocking_response srv d req v c = elim (moved_addr v) [
  | some addr ↦ ok (blocking_moved srv d req addr c)
  | none ↦ blocking_answered srv d v c
]

-- `onBackendTraffic`, for a reply on the connection of a blocking command.
unfoldable pub on_blocking_reply : Server → BlockingConn → Value → Ctx → Outcome Ctx
unfolding on_auth_reply handle_blocking_response
on_blocking_reply srv d v c = elim d.pending [
  | [] ↦ ok c
  | after_auth req ∷ rs ↦ ok (on_auth_reply (record d { pending = rs }) req v c)
  | after_command req ∷ rs ↦ handle_blocking_response srv (record d { pending = rs }) req v c
]

-- `onBackendClose`, for the connection of a blocking command.
abbrev pub interrupted : Bytes
interrupted = encode_error (codes "ERR blocking command interrupted: backend connection closed")

abbrev pub interrupt : Server → ClientState → Ctx → Outcome Ctx
interrupt srv state_blocking c = drain_pending_cmds srv (end_blocking interrupted c)
interrupt srv _ c = ok c

abbrev pub lose_blocking : Server → ℕ → Option BlockingConn → Ctx → Outcome Ctx
lose_blocking srv n none c = ok c
lose_blocking srv n (some d) c =
    let lost = interrupt srv c.session.state (record c { blocking_backend = none }) in
    if d.number == n then lost else ok c

unfoldable pub on_blocking_close : Server → ℕ → Ctx → Outcome Ctx
unfolding drain_pending_cmds end_blocking
on_blocking_close srv n c = lose_blocking srv n c.blocking_backend c

-- The dial has failed.
unfoldable pub blocking_dial_failed : Server → Bytes → Ctx → Outcome Ctx
unfolding drain_pending_cmds end_blocking
blocking_dial_failed srv e c =
    drain_pending_cmds srv
      (record (end_blocking (encode_error (codes "ERR blocking backend connection failed: " ++ e))
        c) { blocking_backend = none })

-- The reply to the first WATCH on its connection, the slot and the request of which it knows.
abbrev pub watch_state : Value → ClientState → ClientState
watch_state v state = if is_error v then state else state_watch

abbrev pub redirect_watch : ℕ → Request → Bytes → Ctx → Ctx
redirect_watch i req addr c = record c {
  session = record c.session {
    watch_addr = addr;
    watch_backend = none;
    pending_watch_req = some req;
    pending_watch_slot = i;
    outside = c.session.outside ++ dial_watch addr req ∷ [];
  };
}

abbrev pub addr_or_empty : Option (ℕ × Bytes) → Bytes
addr_or_empty none = []
addr_or_empty (some (slot, addr)) = addr

unfoldable pub on_watch_reply : Server → ℕ → Request → Value → Ctx → Outcome Ctx
unfolding is_moved_error is_error parse_redirection fill_response_slot_in_loop encode_value
    drain_pending_cmds
on_watch_reply srv i req v c =
    if is_moved_error v
    then ok (redirect_watch i req (addr_or_empty (parse_redirection (error_text v))) c)
    else drain_pending_cmds srv (record c {
      session = record c.session {
        state = watch_state v c.session.state;
        client = fill_response_slot_in_loop c.session.client i (encode_value v);
      };
    })
