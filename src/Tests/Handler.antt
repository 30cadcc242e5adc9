-- ===== src/Tests/Handler.antt =====
-- The handlers of a client, of pkg/engine/handler.go, handler_routing.go and handler_blocking.go.
use pluster.Prelude.{
  List, map, ◌+◌, ◌≡◌, ◌≢◌, ◌<◌, ◌≤◌, refl, true, false, none, some, [], ◌∷◌, ◌++◌, arith, Bytes,
  bytes_eq, codes, length, All,
}
use pluster.Proto.Outcome.{ok, incomplete, stuck, ◌>>=◌}
use pluster.Proto.Int64.{parse_int_bytes, append_int, format_int, decimal}
use pluster.Proto.Line.{read_line, read_body}
use pluster.Proto.Value.{integer, is_moved_error}
use pluster.Proto.Encode.{
  append_bulk, append_bulks, encode_command_bytes, encode_error, encode_bulk_string,
}
use pluster.Proto.Request.{Request, parse_request}
use pluster.Engine.Responses.{empty_slot}
use pluster.Engine.Responses.Steps.{new_client}
use pluster.Engine.Blocking.{new_blocking_conn_pool}
use pluster.Engine.Pubsub.Shared.{new_pubsub_hub}
use pluster.Engine.Split.Route.{write_immediate}
use pluster.Engine.Pubsub.{Hub, subscribe, add_sub, has_client}
use pluster.Engine.Pubsub.Inverse.{IsInverse}
use pluster.Engine.Pubsub.Runs.{fresh, subscribed, HubRun-IsInverse}
use pluster.Engine.Handler.Release.{release}
use pluster.Engine.Handler.Release.Released.{IsReleased, release-IsReleased, release-reset}
use pluster.Engine.Handler.Dispatch.{reset}
use pluster.Engine.Multi.{state_subscribe, state_normal, state_blocking, say}
use pluster.Engine.Multi.Dispatch.{before_switch}
use pluster.Engine.Handler.{Server, Ctx, go_on, dialling, BlockingConn, reply}
use pluster.Engine.Handler.Local.{with_authenticated, handle_echo}
use pluster.Engine.Handler.Blocking.{send_on}
use pluster.Engine.Handler.Dispatch.{
  dispatch_client_request, dispatch_in, handle_normal, handle_named, reset_and_reply,
}
use pluster.Engine.Handler.Traffic.{flush, count_commands, on_client_traffic}
use pluster.Engine.Handler.Traffic.Pipelined.{
  Command, encoded, pipelined, IsSendable, served, on_client_traffic-pipelined,
}
use pluster.Engine.Handler.Traffic.Total.{on_client_traffic_total}
use pluster.Engine.Handler.Replies.{on_blocking_close}
use pluster.Engine.Handler.Replies.Waiting.{
  IsBuffered, answered, while_blocking, opened_and_answered, then_drained, blocking_round,
}
use pluster.Engine.Handler.Replies.Lost.{reset_and_reply-waits}
use pluster.Engine.Handler.Auth.{Unreached, IsStranger}
use pluster.Engine.Handler.Auth.Stranger.{start, next, Served-Unreached}
use pluster.Proto.Request.Total.{parse_request_bounds}
use pluster.Tests.Split.{routing}
use pluster.Tests.Multi.{topology, in_multi}

abbrev server : Server
server = record {
  routing = routing;
  topo = topology;
  hub_dial = λ a. true;
  dial = λ a. dialling;
  client_password = codes "secret";
  username = [];
  password = [];
  listen_addr = [];
  remote_addr = codes "10.0.0.9:4000";
  client_id = 7;
  total_conn_by_addr = λ a. 0;
  stats = [];
  is_closed = λ n. false;
}

abbrev echo_x : Request
echo_x = record { args = codes "ECHO" ∷ codes "x" ∷ []; raw = []; cmd = codes "ECHO" }

-- A client that has just come.
abbrev stranger : Ctx
stranger = record {
  session = record in_multi { state = state_normal; authenticated = false; tx_queue = [] };
  client_name = [];
  blocking_slot_idx = 0;
  blocking_backend = none;
  hub = new_pubsub_hub;
  pool = new_blocking_conn_pool;
  max_clients = 10;
  local_cmd_count = 0;
  total_commands = 0;
  calls = [];
  writes = [];
  begun = [];
  closed = [];
  dials = [];
  refreshes = 0;
}

abbrev client : Ctx
client = with_authenticated true stranger

abbrev refused : Ctx
refused = record stranger {
  session = record stranger.session {
    client = record new_client { written = codes "-NOAUTH Authentication required.\r\n" ∷ [] };
  };
  local_cmd_count = 0 + 1;
}

echo_x-refused : dispatch_client_request server echo_x stranger ≡ ok (go_on refused)
unfolding dispatch_client_request dispatch_in handle_normal before_switch say write_immediate
    encode_error bytes_eq
echo_x-refused = refl

Served-Unreached_example : Unreached stranger refused × IsStranger refused
unfolding bytes_eq
Served-Unreached_example =
    Served-Unreached {srv = server} {c = stranger} {c' = refused}
      (next echo_x (go_on refused) start (refl, tt) echo_x-refused)
      (record { authenticated = refl; state = refl; pending_watch_req = refl })

abbrev echoed : Ctx
echoed = record client {
  session = record client.session {
    client = record new_client { written = codes "$1\r\nx\r\n" ∷ [] };
  };
  local_cmd_count = 0 + 1;
}

echo_x-echoed : dispatch_client_request server echo_x client ≡ ok (go_on echoed)
unfolding dispatch_client_request dispatch_in handle_normal before_switch handle_named handle_echo
    reply say write_immediate encode_bulk_string bytes_eq
echo_x-echoed = refl

-- A client that waits for BLPOP.
abbrev blpop : Request
blpop = record { args = codes "BLPOP" ∷ codes "a" ∷ codes "0" ∷ []; raw = []; cmd = codes "BLPOP" }

echo_x-IsBuffered : All IsBuffered (echo_x ∷ echo_x ∷ [])
unfolding bytes_eq
echo_x-IsBuffered = (
  (codes "ECHO", codes "x" ∷ [], refl, refl, refl),
  ((codes "ECHO", codes "x" ∷ [], refl, refl, refl), tt),
)

blocking_round_example :
    (while_blocking server (codes "n0") blpop (echo_x ∷ echo_x ∷ []) client
      >>= (λ w. opened_and_answered server (codes "n0") blpop 3 (integer 5) w))
    ≡ then_drained server
        (echo_x ∷ echo_x ∷ [])
        (answered (codes "n0") blpop 3 (length (echo_x ∷ echo_x ∷ [])) (integer 5) client)
unfolding is_moved_error
blocking_round_example =
    blocking_round server (codes "n0") blpop (echo_x ∷ echo_x ∷ []) 3 (integer 5) client refl refl
      refl refl echo_x-IsBuffered refl

abbrev conn : BlockingConn
conn = send_on 3 (codes "n0") blpop

abbrev waiting : Ctx
waiting = record client {
  session = record client.session {
    state = state_blocking;
    client = record new_client { queue = empty_slot ∷ [] };
  };
  blocking_backend = some conn;
}

reset_and_reply-waits_example :
    ((reset_and_reply waiting).session.client.queue ≡ (empty_slot ∷ []) ++ empty_slot ∷ [])
    × ((reset_and_reply waiting).session.client.written ≡ [])
    × ((reset_and_reply waiting).closed ≡ 3 ∷ [])
    × (on_blocking_close server 3 (reset_and_reply waiting) ≡ ok (reset_and_reply waiting))
reset_and_reply-waits_example = reset_and_reply-waits server waiting conn empty_slot [] refl refl

-- A number of keys of 2^63 - 1.
abbrev blmpop : Request
blmpop = record {
  args = codes "BLMPOP" ∷ codes "0" ∷ codes "9223372036854775807" ∷ codes "a" ∷ codes "LEFT" ∷ [];
  raw = [];
  cmd = codes "BLMPOP";
}

abbrev two_requests : Bytes
two_requests = codes "*2\r\n$4\r\nECHO\r\n$1\r\nx\r\n*1\r\n$4\r\nPI"

abbrev echo_then_ping : List Command
echo_then_ping = (codes "echo", codes "x" ∷ []) ∷ (codes "PING", []) ∷ []

abbrev half_a_ping : Bytes
half_a_ping = codes "*1\r\n$4\r\nPI"

echo_then_ping-encoded :
    map encoded echo_then_ping
    ≡ codes "*2\r\n$4\r\necho\r\n$1\r\nx\r\n" ∷ codes "*1\r\n$4\r\nPING\r\n" ∷ []
unfolding encode_command_bytes append_bulks append_bulk append_int format_int decimal
echo_then_ping-encoded = refl

echo_then_ping-IsSendable : All IsSendable echo_then_ping
unfolding encode_command_bytes append_bulks append_bulk append_int format_int decimal
echo_then_ping-IsSendable = (ground arith, (ground arith, tt))

half_a_ping-waits : parse_request half_a_ping ≡ incomplete
unfolding parse_request read_line parse_int_bytes read_body
half_a_ping-waits = refl

on_client_traffic-pipelined_example :
    on_client_traffic server (pipelined echo_then_ping half_a_ping) client ≡ (
      served server echo_then_ping half_a_ping client
      >>= (λ r. ok (record r { ctx = count_commands (flush r.ctx) })))
on_client_traffic-pipelined_example =
    on_client_traffic-pipelined server echo_then_ping half_a_ping client echo_then_ping-IsSendable
      half_a_ping-waits

on_client_traffic_total_example : on_client_traffic server two_requests client ≢ stuck
on_client_traffic_total_example = on_client_traffic_total server two_requests client

abbrev ping : Request
ping = record { args = codes "PING" ∷ []; raw = codes "*1\r\n$4\r\nPING\r\n"; cmd = codes "PING" }

ping-parsed : parse_request (codes "*1\r\n$4\r\nping\r\n*1") ≡ ok (ping, 14)
unfolding parse_request read_line parse_int_bytes read_body
ping-parsed = refl

parse_request_bounds_example : (0 < 14) × (14 ≤ 16)
parse_request_bounds_example =
    parse_request_bounds (codes "*1\r\n$4\r\nping\r\n*1") ping 14 ping-parsed

-- A subscriber that also watches a key.
abbrev subscribed_hub : Hub
subscribed_hub = subscribe client.session.id false (codes "a" ∷ []) new_pubsub_hub.hub

subscribed_hub-IsInverse : IsInverse subscribed_hub
subscribed_hub-IsInverse =
    HubRun-IsInverse (subscribed client.session.id false (codes "a" ∷ []) fresh)

abbrev subscriber : Ctx
subscriber = record waiting {
  session = record client.session {
    state = state_subscribe;
    watch_backend = some (record { addr = codes "n0"; pending = []; sent = [] });
  };
  hub = record new_pubsub_hub { hub = subscribed_hub };
}

release-IsReleased_example : IsReleased subscriber (release subscriber)
release-IsReleased_example =
    release-IsReleased subscriber (record { agrees = refl }) subscribed_hub-IsInverse

still_listed : has_client client.session.id (subscribed_hub.subs (codes "a")) ≡ true
unfolding subscribe add_sub has_client bytes_eq
still_listed = refl

reset_keeps_entries : (release (reset subscriber)).hub ≡ subscriber.hub
reset_keeps_entries = release-reset subscriber
