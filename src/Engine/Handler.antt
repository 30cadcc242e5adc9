-- ===== src/Engine/Handler.antt =====
-- `ProxyHandler` of pkg/engine/handler.go, as one event loop sees it: the state that a request of a
-- client may change, and the answers that the proxy gives itself. The arguments of a handler are
-- those behind the name of the command, for `dispatchClientRequest` refuses an empty request.
pub mod Local
pub mod Proxy
pub mod Blocking
pub mod Dispatch
pub mod Traffic
pub mod Replies
pub mod Release
pub mod Once
pub mod Auth
use pluster.Prelude.{
  ℕ, Bool, true, false, Option, none, some, List, [], ◌∷◌, ◌++◌, map, if◌then◌else◌, Bytes, codes,
}
use pluster.Proto.Outcome.{Outcome, ok, ◌>>=◌}
use pluster.Proto.Encode.{encode_error, encode_simple_string, encode_bulk_string}
use pluster.Proto.Request.{Request}
use pluster.Cluster.{Topology}
use pluster.Engine.Responses.{alloc_response_slot}
use pluster.Engine.Split.Route.{Routed, Routing}
use pluster.Engine.Blocking.{BlockingConnPool}
use pluster.Engine.Pubsub.Messages.{Writes}
use pluster.Engine.Pubsub.Shared.{Shared}
use pluster.Engine.Multi.{Dedicated, Session, on_loop, say}

-- What a goroutine of the pool asks the router for: `Execute`, `ExecScript` or `ExecuteBroadcast`.
pub data RouterCall : Type 0 where
  call_execute call_script call_broadcast : ℕ → Request → RouterCall

-- A `respond` function on a connection for a blocking command: that of AUTH, behind which the command
-- is sent, and that of the command.
pub data BlockingRespond : Type 0 where
  after_auth after_command : Request → BlockingRespond

-- A connection for a blocking command: its number, `addr`, `pending`, and what has been written to it.
pub record BlockingConn : Type 0 where
  pub number : ℕ
  pub addr : Bytes
  pub pending : List BlockingRespond
  pub sent : List Bytes

-- The rest of `clientCtx`; the hub, the pool of blocking connections and `localCmdCount` of
-- the event loop; `stats.totalCommands` and `maxClients`; and what has been done outside: calls of the router, writes past
-- the queues of clients, connections on which transactions have begun, those closed, dials for
-- blocking commands, and calls of `TriggerRefresh`.
pub record Ctx : Type 0 where
  pub session : Session
  pub client_name : Bytes
  pub blocking_slot_idx : ℕ
  pub blocking_backend : Option BlockingConn
  pub hub : Shared
  pub pool : BlockingConnPool
  pub max_clients : ℕ
  pub local_cmd_count : ℕ
  pub total_commands : ℕ
  pub calls : List RouterCall
  pub writes : Writes
  pub begun : List Dedicated
  pub closed : List ℕ
  pub dials : List (Bytes × Request)
  pub refreshes : ℕ

-- How a dial begins: it does, or the address does not resolve, or `Register` refuses, each with an
-- error.
pub data DialStart : Type 0 where
  dialling : DialStart
  unresolved unregistered : Bytes → DialStart

-- What the handlers read: the routing, the topology, how dials begin, `ClientPassword`,
-- `Username` and `Password` of the nodes, `listenAddr`, `RemoteAddr`, `cctx.id`, the connections to an address, `stats`, and which
-- connections have been closed by their nodes.
pub record Server : Type 0 where
  pub routing : Routing
  pub topo : Topology
  pub hub_dial : Bytes → Bool
  pub dial : Bytes → DialStart
  pub client_password : Bytes
  pub username : Bytes
  pub password : Bytes
  pub listen_addr : Bytes
  pub remote_addr : Bytes
  pub client_id : ℕ
  pub total_conn_by_addr : Bytes → ℕ
  pub stats : Bytes
  pub is_closed : ℕ → Bool

-- What a handler returns, with `gnet.Close` for true.
pub record Action : Type 0 where
  pub ctx : Ctx
  pub closes : Bool

abbrev pub go_on : Ctx → Action
go_on c = record { ctx = c; closes = false }

-- `writeImmediate`, of bytes, an error, a simple string or a bulk string.
unfoldable pub reply : Bytes → Ctx → Ctx
unfolding say
reply b c = record c { session = say b c.session }

abbrev pub reply_error : Bytes → Ctx → Ctx
reply_error msg c = reply (encode_error msg) c

abbrev pub reply_simple : Bytes → Ctx → Ctx
reply_simple str c = reply (encode_simple_string str) c

abbrev pub reply_bulk : Bytes → Ctx → Ctx
reply_bulk str c = reply (encode_bulk_string str) c

-- `submitToRouter`.
unfoldable pub submit : (ℕ → Request → RouterCall) → Request → Ctx → Ctx
unfolding alloc_response_slot
submit call req c =
    let (client, i) = alloc_response_slot c.session.client in
    record c { session = record c.session { client = client }; calls = c.calls ++ call i req ∷ [] }

-- What `routeToBackend` has done, as a change of the state.
abbrev pub calls_of : Option (ℕ × Request) → List RouterCall
calls_of none = []
calls_of (some (i, req)) = call_execute i req ∷ []

abbrev pub after_route : Ctx → Routed → Action
after_route c r = go_on (record c {
  session = record c.session {
    client = r.client;
    mux = r.mux;
    outside = c.session.outside ++ map on_loop r.effects;
  };
  calls = c.calls ++ calls_of r.submitted;
})

abbrev pub routed : Ctx → Outcome Routed → Outcome Action
routed c o = o >>= (λ r. ok (after_route c r))
