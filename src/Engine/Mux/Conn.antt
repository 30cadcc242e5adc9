-- ===== src/Engine/Mux/Conn.antt =====
-- `backendMuxConn` of pkg/engine/backend_mux.go: what the operations of the mux do to one connection.
use pluster.Prelude.{
  ℕ, ◌+◌, Bool, true, false, Option, none, some, List, [], ◌∷◌, ◌++◌, ◌==◌, if◌then◌else◌, Bytes,
  codes, length, drop, get_elem?,
}
use pluster.Proto.Encode.{encode_command_bytes}
use pluster.Proto.Request.{Request}

-- `pendingClientReq`; the client connection is a number, and of `fanIn` the code only asks whether
-- it is nil.
pub record PendingReq : Type 0 where
  pub client : ℕ
  pub slot_idx : ℕ
  pub depth : ℕ
  pub req : Request
  pub skip_reply : Bool
  pub is_ask_sentinel : Bool
  pub fan_in : Bool
  pub fan_in_idx : ℕ

-- `sent` is what has been written to `conn`.
pub record MuxConn : Type 0 where
  pub pending : List PendingReq
  pub head : ℕ
  pub write_buf : Bytes
  pub sent : Bytes

-- `pending[head:]`.
abbrev pub queue : MuxConn → List PendingReq
queue bc = drop bc.head bc.pending

-- `rawBytes`.
abbrev pub raw_or : Bytes → List Bytes → Bytes
raw_or [] args = encode_command_bytes args
raw_or (b ∷ bs) args = b ∷ bs

unfoldable pub raw_bytes : Request → Bytes
raw_bytes r = raw_or r.raw r.args

abbrev pub asking_bytes : Bytes
asking_bytes = codes "*1\r\n$6\r\nASKING\r\n"

abbrev pub readonly_bytes : Bytes
readonly_bytes = codes "*1\r\n$8\r\nREADONLY\r\n"

abbrev pub new_conn : MuxConn
new_conn = record { pending = []; head = 0; write_buf = []; sent = [] }

-- `send`, on a connection that is open.
unfoldable pub push_send : MuxConn → PendingReq → MuxConn
push_send bc r = record bc {
  pending = bc.pending ++ r ∷ [];
  write_buf = bc.write_buf ++ raw_bytes r.req;
}

-- `skip` of `sendAsk`.
abbrev pub ask_sentinel : PendingReq → PendingReq
ask_sentinel r = record {
  client = r.client;
  slot_idx = r.slot_idx;
  depth = r.depth;
  req = r.req;
  skip_reply = true;
  is_ask_sentinel = true;
  fan_in = false;
  fan_in_idx = 0;
}

-- `sendAsk`, on a connection that is open.
unfoldable pub push_ask : MuxConn → PendingReq → MuxConn
push_ask bc r = record bc {
  pending = bc.pending ++ ask_sentinel r ∷ r ∷ [];
  sent = (bc.sent ++ asking_bytes) ++ raw_bytes r.req;
}

-- The connection's turn in `flushBackendWrites`.
unfoldable pub flush_conn : MuxConn → MuxConn
flush_conn bc = record bc { sent = bc.sent ++ bc.write_buf; write_buf = [] }

-- The entry for READONLY in `onOpen`; its `req` is nil, here an empty request.
abbrev pub readonly_entry : PendingReq → PendingReq
readonly_entry r = record {
  client = r.client;
  slot_idx = r.slot_idx;
  depth = 0;
  req = record { args = []; raw = []; cmd = [] };
  skip_reply = true;
  is_ask_sentinel = false;
  fan_in = false;
  fan_in_idx = 0;
}

-- The loop of `onOpen` over `queued`.
unfoldable pub write_queued : MuxConn → List PendingReq → MuxConn
write_queued bc [] = bc
write_queued bc (r ∷ queued) =
    write_queued
      (record bc {
        pending = bc.pending ++ r ∷ [];
        sent = bc.sent ++ (if r.is_ask_sentinel then asking_bytes else raw_bytes r.req);
      })
      queued

abbrev pub after_readonly : Bool → List PendingReq → MuxConn
after_readonly true (r ∷ queued) = record new_conn {
  pending = readonly_entry r ∷ [];
  sent = readonly_bytes;
}
after_readonly _ _ = new_conn

-- The connection that `onOpen` makes, for a replica or not.
unfoldable pub open_conn : Bool → List PendingReq → MuxConn
open_conn is_replica queued = write_queued (after_readonly is_replica queued) queued

-- `bc.head++`, and the reset when nothing is left.
abbrev pub advance : MuxConn → MuxConn
advance bc =
    if bc.head + 1 == length bc.pending
    then record bc { head = 0; pending = [] }
    else record bc { head = bc.head + 1 }

abbrev pub taken_from : MuxConn → Option PendingReq → MuxConn × Option PendingReq
taken_from bc none = (bc, none)
taken_from bc (some r) = (advance bc, some r)

-- The request that a reply belongs to, in `onTraffic`: none if `bc.head >= len(bc.pending)`.
unfoldable pub next_pending : MuxConn → MuxConn × Option PendingReq
next_pending bc = taken_from bc (get_elem? bc.pending bc.head)
