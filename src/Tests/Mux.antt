-- ===== src/Tests/Mux.antt =====
-- The connections to the nodes of pkg/engine/backend_mux.go.
use pluster.Prelude.{
  ◌≡◌, refl, true, false, none, some, List, [], ◌∷◌, ◌++◌, codes, bytes_eq, if◌then◌else◌, arith,
}
use pluster.Proto.Scan.{Scanned, kind_moved}
use pluster.Engine.Mux.Conn.{
  PendingReq, MuxConn, queue, push_send, push_ask, next_pending, open_conn, new_conn, raw_bytes,
  write_queued,
}
use pluster.Engine.Mux.{Mux, Env, with_conn, with_dialing}
use pluster.Engine.Mux.Wire.{InStep, IsPlain, wire}
use pluster.Engine.Mux.Order.{opened, pushed, asked, replied, ConnRun-wire, push_ask_overtakes}
use pluster.Engine.Mux.Traffic.{deeper, parse_redirection_msg, cut_space, atoi_ok, atoi_digits}

abbrev get_k : PendingReq
get_k = record {
  client = 7;
  slot_idx = 3;
  depth = 0;
  req = record { args = []; raw = codes "*2\r\n$3\r\nGET\r\n$1\r\nk\r\n"; cmd = codes "GET" };
  skip_reply = false;
  is_ask_sentinel = false;
  fan_in = false;
  fan_in_idx = 0;
}

get_k-IsPlain : IsPlain get_k
get_k-IsPlain = record { expects = refl; no_sentinel = refl }

-- Opened to a replica for one request, asked, sent to; one reply, that of READONLY.
abbrev before_reply : MuxConn
before_reply = push_send (push_ask (open_conn true (get_k ∷ [])) get_k) get_k

abbrev behind_reply : MuxConn
behind_reply = (next_pending before_reply).0

first_is_readonly : next_pending before_reply ≡ (
  behind_reply,
  some (record get_k { req = record { args = []; raw = []; cmd = [] }; skip_reply = true }),
)
unfolding next_pending push_send push_ask open_conn write_queued
first_is_readonly = refl

nothing_left : (open_conn true (get_k ∷ [])).write_buf ≡ []
unfolding open_conn write_queued
nothing_left = refl

abbrev readonly_done : List PendingReq
readonly_done =
    record get_k { req = record { args = []; raw = []; cmd = [] }; skip_reply = true } ∷ []

ConnRun-wire_example :
    behind_reply.sent ++ behind_reply.write_buf ≡ wire (readonly_done ++ queue behind_reply)
ConnRun-wire_example = ConnRun-wire (
    replied _ first_is_readonly (
      pushed get_k get_k-IsPlain
        (asked get_k get_k-IsPlain nothing_left (opened true (get_k ∷ []) ((λ h. refl), tt)))))

abbrev one_unsent : MuxConn
one_unsent = push_send new_conn get_k

one_unsent-InStep : InStep [] one_unsent
unfolding push_send raw_bytes
one_unsent-InStep = record { on_wire = refl; head_le = ground arith }

unsent : one_unsent.write_buf ≡ codes "*2\r\n$3\r\nGET\r\n$1\r\nk\r\n"
unfolding push_send raw_bytes
unsent = refl

push_ask_overtakes_example : ¬ InStep [] (push_ask one_unsent get_k)
push_ask_overtakes_example =
    push_ask_overtakes [] one_unsent get_k b'2' (codes "\r\n$3\r\nGET\r\n$1\r\nk\r\n") get_k-IsPlain
      unsent (ground arith) one_unsent-InStep

abbrev env : Env
env = record { is_client = λ c. true; dial_error = λ addr. none; is_replica_addr = λ addr. false }

-- One connection, to "a", with one request on it.
abbrev one_conn : Mux
one_conn = record {
  conns = λ addr.
      if bytes_eq addr (codes "a")
      then some (record { pending = get_k ∷ []; head = 0; write_buf = []; sent = get_k.req.raw })
      else none;
  dialing = λ addr. [];
}

abbrev moved : Scanned
moved = record { end = 14; kind = kind_moved; err_msg = codes "MOVED 1 b:1"; after = [] }

moved_is_parsed : parse_redirection_msg moved.err_msg ≡ some (codes "b:1")
unfolding parse_redirection_msg cut_space atoi_ok atoi_digits
moved_is_parsed = refl

-- The node says that the key has moved.
abbrev after_moved : Mux
after_moved =
    with_dialing
      (with_conn one_conn (codes "a")
        (some (record { pending = []; head = 0; write_buf = []; sent = get_k.req.raw })))
      (codes "b:1") (deeper get_k ∷ [])
