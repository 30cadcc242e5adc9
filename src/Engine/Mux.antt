-- ===== src/Engine/Mux.antt =====
-- `backendMux` of pkg/engine/backend_mux.go: one connection to each node for all clients of an event
-- loop. The requests that wait for a reply stand in `pending` in the order in which they were sent.
pub mod Conn
pub mod Wire
pub mod Order
pub mod Traffic
use pluster.Prelude.{
  ℕ, zero, suc, ◌+◌, ◌*◌, ◌-◌, ◌^◌, Bool, true, false, ◌&&◌, ◌||◌, not, Option, none, some, List,
  [], ◌∷◌, ◌++◌, map, leb, ltb, ◌==◌, if◌then◌else◌, Bytes, bytes_eq, codes, length, take, drop,
}
use pluster.Proto.Outcome.{Outcome, ok, incomplete, invalid, panicked, stuck, ◌>>=◌}
use pluster.Proto.Int64.{half_word}
use pluster.Proto.Encode.{encode_error}
use pluster.Proto.Scan.{ErrorKind, kind_moved, kind_ask, kind_none, kind_other, Scanned, scan_value}
use pluster.Engine.Mux.Conn.{
  PendingReq, MuxConn, new_conn, push_send, push_ask, ask_sentinel, next_pending, queue, flush_conn,
  open_conn,
}

-- `conns` and `dialing`.
pub record Mux : Type 0 where
  pub conns : Bytes → Option MuxConn
  pub dialing : Bytes → List PendingReq

-- What the operations do outside of the mux: `accumulateResponseSlot` and
-- `accumulateFanInSubResponse` for a client, `fillResponseSlot`, a dial that has begun,
-- `TriggerRefresh`, and `flushWriteAccum`.
pub data Effect : Type 0 where
  respond : ℕ → ℕ → Bytes → Effect
  respond_part : ℕ → ℕ → ℕ → Bytes → Effect
  fill_slot : ℕ → ℕ → Bytes → Effect
  dialled : Bytes → Effect
  refresh flushed_clients : Effect

-- What the mux asks of the rest: whether the context of a connection is a `clientCtx`, the error
-- with which resolving or registering an address fails at once, and `isReplicaAddr`.
pub record Env : Type 0 where
  pub is_client : ℕ → Bool
  pub dial_error : Bytes → Option Bytes
  pub is_replica_addr : Bytes → Bool

abbrev pub with_conn : Mux → Bytes → Option MuxConn → Mux
with_conn m addr bc = record m { conns = λ (a : Bytes). if bytes_eq a addr then bc else m.conns a }

abbrev pub with_dialing : Mux → Bytes → List PendingReq → Mux
with_dialing m addr queued = record m {
  dialing = λ (a : Bytes). if bytes_eq a addr then queued else m.dialing a;
}

-- The loop of `failDialing` and `onClose`: an error for each request that a client waits for.
unfoldable pub error_slots : Env → Bytes → List PendingReq → List Effect
error_slots env msg [] = []
error_slots env msg (req ∷ reqs) =
    let rest = error_slots env msg reqs in
    if req.skip_reply
    then rest
    else if env.is_client req.client
    then fill_slot req.client req.slot_idx (encode_error msg) ∷ rest
    else rest

-- `failDialing`.
unfoldable pub fail_dialing : Env → Mux → Bytes → Bytes → Mux × List Effect
fail_dialing env m addr msg = (with_dialing m addr [], error_slots env msg (m.dialing addr))

-- `dialBackend`.
abbrev dial_result : Env → Mux → Bytes → Option Bytes → Mux × List Effect
dial_result env m addr none = (m, dialled addr ∷ [])
dial_result env m addr (some msg) = fail_dialing env m addr msg

unfoldable pub dial_backend : Env → Mux → Bytes → Mux × List Effect
dial_backend env m addr = dial_result env m addr (env.dial_error addr)

-- `send`.
abbrev pub send_to : Env → Mux → Bytes → PendingReq → Option MuxConn → Mux × List Effect
send_to env m addr req (some bc) = (with_conn m addr (some (push_send bc req)), [])
send_to env m addr req none =
    let m' = with_dialing m addr (m.dialing addr ++ req ∷ []) in
    if length (m.dialing addr ++ req ∷ []) == 1 then dial_backend env m' addr else (m', [])

unfoldable pub send : Env → Mux → Bytes → PendingReq → Mux × List Effect
send env m addr req = send_to env m addr req (m.conns addr)

-- `sendAsk`.
abbrev pub send_ask_to : Env → Mux → Bytes → PendingReq → Option MuxConn → Mux × List Effect
send_ask_to env m addr req (some bc) = (with_conn m addr (some (push_ask bc req)), [])
send_ask_to env m addr req none =
    let m' = with_dialing m addr (m.dialing addr ++ ask_sentinel req ∷ req ∷ []) in
    if length (m.dialing addr) == 0 then dial_backend env m' addr else (m', [])

unfoldable pub send_ask : Env → Mux → Bytes → PendingReq → Mux × List Effect
send_ask env m addr req = send_ask_to env m addr req (m.conns addr)

-- `flushBackendWrites`.
abbrev pub flush_option : Option MuxConn → Option MuxConn
flush_option none = none
flush_option (some bc) = some (flush_conn bc)

unfoldable pub flush_backend_writes : Mux → Mux
flush_backend_writes m = record m { conns = λ (a : Bytes). flush_option (m.conns a) }

-- `onOpen`.
unfoldable pub on_open : Env → Mux → Bytes → Mux
on_open env m addr =
    with_dialing (with_conn m addr (some (open_conn (env.is_replica_addr addr) (m.dialing addr))))
      addr []

-- `onClose`.
abbrev pub close_conn : Env → Mux → Bytes → Option MuxConn → Mux × List Effect
close_conn env m addr none = (m, [])
close_conn env m addr (some bc) = (
  with_conn m addr none,
  error_slots env (codes "ERR cluster node disconnected: " ++ addr) (queue bc),
)

unfoldable pub on_close : Env → Mux → Bytes → Mux × List Effect
on_close env m addr = close_conn env m addr (m.conns addr)
