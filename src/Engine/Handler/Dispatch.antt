-- ===== src/Engine/Handler/Dispatch.antt =====
-- `dispatchClientRequest`, `handleNormal` and `handleInSubscribe` of pkg/engine/handler_routing.go and
-- handler_pubsub.go: the handler that a request reaches.
use pluster.Prelude.{
  ◌+◌, ◌||◌, true, Option, none, some, List, [], ◌∷◌, ◌++◌, if◌then◌else◌, Bytes, bytes_eq, codes,
}
use pluster.Proto.Outcome.{Outcome, ok, ◌>>=◌}
use pluster.Proto.Value.{bulk_string, array, nil, cons}
use pluster.Proto.Encode.{encode_error, encode_value}
use pluster.Proto.Request.{Request}
use pluster.Proto.Command.Info.{flag_blocking}
use pluster.Proto.Command.{get_cmd_info, is_blocking_xread}
use pluster.Engine.Split.Route.{route_to_backend, args_behind, info_has}
use pluster.Engine.Pubsub.Shared.{subscribe_request, unsubscribe_request}
use pluster.Engine.Multi.{
  ClientState, state_normal, state_subscribe, state_multi, state_watch, state_watch_multi,
  state_blocking, Dedicated, Session, write_past, reset_client_state, handle_unwatch,
}
use pluster.Engine.Multi.Dispatch.{
  Handled, handle_in_multi, handle_multi, handle_watch, before_switch, ok_bytes,
}
use pluster.Engine.Handler.{
  Server, Ctx, Action, go_on, BlockingConn, reply_error, reply_simple, submit, call_execute,
  call_script, call_broadcast, routed,
}
use pluster.Engine.Handler.Local.{
  handle_ping, handle_echo, handle_select, handle_no_args, handle_hello, handle_auth,
  handle_cluster, handle_client_cmd, is_any,
}
use pluster.Engine.Handler.Proxy.{handle_proxy_cmd}
use pluster.Engine.Handler.Blocking.{dispatch_blocking_command}

-- `resetClientState`.
abbrev pub close_blocking_of : Option BlockingConn → Ctx → Ctx
close_blocking_of none c = c
close_blocking_of (some d) c = record c {
  blocking_backend = none;
  closed = c.closed ++ d.number ∷ [];
}

unfoldable pub reset : Ctx → Ctx
unfolding reset_client_state
reset c = close_blocking_of c.blocking_backend (record c { session = reset_client_state c.session })

abbrev pub quit : Ctx → Action
quit c = record { ctx = record c { session = write_past ok_bytes c.session }; closes = true }

abbrev pub reset_and_reply : Ctx → Ctx
reset_and_reply c = reply_simple (codes "RESET") (reset c)

-- What `handleInMulti` returns, as a change of the state.
abbrev pub begun_of : Option Dedicated → List Dedicated
begun_of none = []
begun_of (some d) = d ∷ []

abbrev pub after_multi : Ctx → Handled → Action
after_multi c h = record {
  ctx = record c { session = h.session; begun = c.begun ++ begun_of h.begun };
  closes = h.closes;
}

-- `hub.subscribe`.
unfoldable pub start_subscribe : Server → Request → Ctx → Ctx
unfolding subscribe_request
start_subscribe srv req c = record c {
  session = record c.session { state = state_subscribe };
  hub = subscribe_request srv.hub_dial srv.topo c.session.id req c.hub;
}

-- `hub.unsubscribe`.
abbrev pub state_left : List Bytes → ClientState → ClientState
state_left [] state = state_normal
state_left (p ∷ ps) state = state

unfoldable pub stop_subscribe : Request → Ctx → Ctx
unfolding unsubscribe_request
stop_subscribe req c =
    let (hub', out) = unsubscribe_request c.session.id req c.hub in
    record c {
      session = record c.session {
        state = state_left (hub'.hub.client_subs c.session.id) c.session.state;
      };
      hub = hub';
      writes = c.writes ++ out;
    }

abbrev pub pong : Bytes
pong = encode_value (array (cons (bulk_string (codes "pong")) (cons (bulk_string []) nil)))

-- `handleInSubscribe`.
unfoldable pub handle_in_subscribe : Server → Request → Ctx → Action
unfolding reset write_past start_subscribe stop_subscribe bytes_eq encode_value
handle_in_subscribe srv req c =
    if bytes_eq req.cmd (codes "RESET")
    then go_on (reset_and_reply c)
    else if bytes_eq req.cmd (codes "QUIT")
    then quit c
    else if bytes_eq req.cmd (codes "PING")
    then go_on (record c { writes = c.writes ++ (c.session.id, pong) ∷ [] })
    else if bytes_eq req.cmd (codes "UNSUBSCRIBE") || bytes_eq req.cmd (codes "PUNSUBSCRIBE")
    then go_on (stop_subscribe req c)
    else if bytes_eq req.cmd (codes "SUBSCRIBE") || bytes_eq req.cmd (codes "PSUBSCRIBE")
    then go_on (start_subscribe srv req c)
    else go_on (reply_error (codes "ERR Command not allowed inside a subscription context") c)

-- The default of `handleNormal`.
unfoldable pub handle_other : Server → Request → Ctx → Outcome Action
unfolding get_cmd_info dispatch_blocking_command is_blocking_xread route_to_backend
handle_other srv req c =
    if info_has (get_cmd_info req.cmd) flag_blocking || is_blocking_xread req
    then (do c' ← dispatch_blocking_command srv req c; ok (go_on c'))
    else routed c (route_to_backend srv.routing c.session.client c.session.mux req)

abbrev pub script_names : List Bytes
script_names = codes "EVAL" ∷ codes "EVALSHA" ∷ codes "EVAL_RO" ∷ codes "EVALSHA_RO" ∷ []

abbrev pub with_session : Ctx → Session → Action
with_session c s = go_on (record c { session = s })

-- The cases of `handleNormal` that pass a request on.
unfoldable pub handle_passed : Server → Request → Ctx → Outcome Action
unfolding submit start_subscribe handle_proxy_cmd handle_other handle_multi handle_watch
    handle_unwatch bytes_eq
handle_passed srv req c =
    if bytes_eq req.cmd (codes "INFO")
    then ok (go_on (submit call_execute req c))
    else if bytes_eq req.cmd (codes "MULTI")
    then ok (with_session c (handle_multi c.session))
    else if bytes_eq req.cmd (codes "WATCH")
    then ok (with_session c (handle_watch srv.topo c.session req))
    else if bytes_eq req.cmd (codes "UNWATCH")
    then ok (with_session c (handle_unwatch c.session))
    else if bytes_eq req.cmd (codes "DISCARD")
    then ok (go_on (reply_error (codes "ERR DISCARD without MULTI") c))
    else if bytes_eq req.cmd (codes "EXEC")
    then ok (go_on (reply_error (codes "ERR EXEC without MULTI") c))
    else if bytes_eq req.cmd (codes "SUBSCRIBE") || bytes_eq req.cmd (codes "PSUBSCRIBE")
    then ok (go_on (start_subscribe srv req c))
    else if is_any script_names req.cmd
    then ok (go_on (submit call_script req c))
    else if bytes_eq req.cmd (codes "PROXY")
    then ok (go_on (handle_proxy_cmd srv (args_behind req.args) c))
    else if bytes_eq req.cmd (codes "BROADCAST")
    then ok (go_on (submit call_broadcast req c))
    else handle_other srv req c

-- The cases that the proxy answers itself, and the rest.
unfoldable pub handle_named : Server → Request → Ctx → Outcome Action
unfolding reset write_past handle_ping handle_echo handle_select handle_no_args handle_hello
    handle_auth handle_client_cmd handle_cluster handle_passed bytes_eq
handle_named srv req c =
    let args = args_behind req.args in
    if bytes_eq req.cmd (codes "QUIT")
    then ok (quit c)
    else if bytes_eq req.cmd (codes "RESET")
    then ok (go_on (reset_and_reply c))
    else if bytes_eq req.cmd (codes "PING")
    then ok (go_on (handle_ping args c))
    else if bytes_eq req.cmd (codes "HELLO")
    then ok (go_on (handle_hello srv args c))
    else if bytes_eq req.cmd (codes "AUTH")
    then ok (go_on (handle_auth srv args c))
    else if bytes_eq req.cmd (codes "ECHO")
    then ok (go_on (handle_echo args c))
    else if bytes_eq req.cmd (codes "SELECT")
    then ok (go_on (handle_select args c))
    else if bytes_eq req.cmd (codes "READONLY")
    then ok (go_on (handle_no_args (codes "readonly") args c))
    else if bytes_eq req.cmd (codes "READWRITE")
    then ok (go_on (handle_no_args (codes "readwrite") args c))
    else if bytes_eq req.cmd (codes "CLIENT")
    then ok (go_on (handle_client_cmd srv args c))
    else if bytes_eq req.cmd (codes "CLUSTER")
    then ok (go_on (handle_cluster srv req args c))
    else handle_passed srv req c

-- `handleNormal`.
unfoldable pub handle_normal : Server → Request → Ctx → Outcome Action
unfolding before_switch handle_named
handle_normal srv req c = elim (before_switch c.session req) [
  | some s ↦ ok (with_session c s)
  | none ↦ handle_named srv req c
]

-- The handler of a state.
unfoldable pub dispatch_in : Server → Request → Ctx → ClientState → Outcome Action
unfolding handle_in_multi handle_in_subscribe handle_normal bytes_eq
dispatch_in srv req c state_multi = ok (after_multi c (handle_in_multi srv.topo c.session req))
dispatch_in srv req c state_watch_multi =
    ok (after_multi c (handle_in_multi srv.topo c.session req))
dispatch_in srv req c state_subscribe = ok (handle_in_subscribe srv req c)
dispatch_in srv req c state_blocking =
    if bytes_eq req.cmd (codes "QUIT") || bytes_eq req.cmd (codes "RESET")
    then handle_normal srv req c
    else ok
        (with_session c (record c.session { pending_cmds = c.session.pending_cmds ++ req ∷ [] }))
dispatch_in srv req c state_watch = handle_normal srv req c
dispatch_in srv req c state_normal = handle_normal srv req c

-- `dispatchClientRequest`.
abbrev pub dispatch_args : Server → Request → Ctx → List Bytes → Outcome Action
dispatch_args srv req c [] =
    ok (with_session c (write_past (encode_error (codes "ERR empty command")) c.session))
dispatch_args srv req c (a ∷ args) =
    dispatch_in srv req (record c { local_cmd_count = c.local_cmd_count + 1 }) c.session.state

unfoldable pub dispatch_client_request : Server → Request → Ctx → Outcome Action
unfolding dispatch_in write_past
dispatch_client_request srv req c = dispatch_args srv req c req.args
