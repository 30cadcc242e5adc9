-- ===== src/Engine/Handler/Once/Dispatch.antt =====
-- The answers to a request, over `dispatchClientRequest` and all handlers.
use pluster.Prelude.{
  ◌+◌, ◌≡◌, inl, inr, refl, ◌∙◌, subst, Bool, true, false, ◌||◌, Option, none, some, List, [], ◌∷◌,
  Bytes, bytes_eq, codes, if◌then◌else◌, arith,
}
use pluster.Proto.Outcome.{Outcome, ok, ◌>>=◌, >>=-eq-ok}
use pluster.Proto.Request.{Request}
use pluster.Proto.Command.Info.{flag_blocking}
use pluster.Proto.Command.{get_cmd_info, is_blocking_xread}
use pluster.Engine.Responses.{Client}
use pluster.Engine.Split.Route.{route_to_backend, args_behind, info_has}
use pluster.Engine.Split.Safe.{OneAnswer, route_to_backend-Answers}
use pluster.Engine.Multi.{
  ClientState, state_normal, state_subscribe, state_multi, state_watch, state_watch_multi,
  state_blocking, Session, reset_client_state,
}
use pluster.Engine.Multi.Dispatch.{before_switch, handle_in_multi, ok_bytes}
use pluster.Engine.Handler.{
  Server, Ctx, Action, go_on, BlockingConn, submit, call_execute, call_script, call_broadcast,
  routed, after_route,
}
use pluster.Engine.Handler.Local.{is_any}
use pluster.Engine.Handler.Proxy.{handle_proxy_cmd}
use pluster.Engine.Handler.Blocking.{dispatch_blocking_command, extract_blocking_keys, block_on}
use pluster.Engine.Handler.Dispatch.{
  close_blocking_of, reset, reset_and_reply, after_multi, handle_other, script_names, with_session,
  handle_passed, handle_named, handle_normal, dispatch_in, dispatch_args, dispatch_client_request,
}
use pluster.Engine.Handler.Once.{
  Adds, Once, write_past-Adds, reply-Once, reply-after-Once, submit-Once, handle_ping-Once,
  handle_echo-Once, handle_select-Once, handle_no_args-Once, handle_auth-Once, handle_cluster-Once,
  handle_client_cmd-Once,
}
use pluster.Engine.Handler.Once.Proxy.{handle_proxy_cmd-Once, block_on-Once}
use pluster.Engine.Handler.Once.Multi.{
  SaysOne, reset_client_state-client, handle_unwatch-SaysOne, handle_multi-SaysOne,
  handle_in_multi-SaysOne, handle_watch-SaysOne,
}

-- One answer more, where a handler does not panic.
pub record OnceIfOk (c : Ctx) (o : Outcome Action) : Type 0 where
  pub once : (a : Action) → o ≡ ok a → Once c a.ctx

ok-OnceIfOk : (c : Ctx) (x : Action) → Once c x.ctx → OnceIfOk c (ok x)
ok-OnceIfOk c x p = record {
  once = λ a e. let same : x ≡ a = cc in subst (λ (y : Action). Once c y.ctx) same p;
}

if-OnceIfOk :
    (c : Ctx) (b : Bool) (x y : Outcome Action)
    → OnceIfOk c x
    → OnceIfOk c y
    → OnceIfOk c (if b then x else y)
if-OnceIfOk c true x y p q = p
if-OnceIfOk c false x y p q = q

-- A case that is ruled out.
skip-OnceIfOk :
    (c : Ctx) (b : Bool) (x y : Outcome Action)
    → b ≡ false
    → OnceIfOk c y
    → OnceIfOk c (if b then x else y)
skip-OnceIfOk c b x y e q = rw e q

session-Once : (c : Ctx) (s : Session) → SaysOne c.session s → Once c (with_session c s).ctx
session-Once c s p = record { adds = p.adds }

OneAnswer-Adds : (c c' : Client) → OneAnswer c c' → Adds 1 c c'
OneAnswer-Adds c c' (inl (q, b, w)) = rw w (omega arith)
OneAnswer-Adds c c' (inr (e, e', w)) = rw (e, e') (omega arith)

routed-OnceIfOk :
    (srv : Server) (req : Request) (c : Ctx)
    → OnceIfOk c (routed c (route_to_backend srv.routing c.session.client c.session.mux req))
routed-OnceIfOk srv req c = record {
  once = λ a e.
      let (r, p, q) =
        >>=-eq-ok (route_to_backend srv.routing c.session.client c.session.mux req) _ e in
      let same : after_route c r ≡ a = cc in
      subst (λ (y : Action). Once c y.ctx) same
        (record {
          adds =
              OneAnswer-Adds c.session.client r.client
                (route_to_backend-Answers srv.routing c.session.client c.session.mux req r p).0;
        });
}

blocking-OnceIfOk :
    (srv : Server) (req : Request) (c : Ctx)
    → OnceIfOk c (do c' ← dispatch_blocking_command srv req c; ok (go_on c'))
unfolding dispatch_blocking_command
blocking-OnceIfOk srv req c = record {
  once = λ a e.
      let (c', p, q) = >>=-eq-ok (dispatch_blocking_command srv req c) _ e in
      let (keys, k, l) = >>=-eq-ok (extract_blocking_keys req) _ p in
      let same : go_on (block_on srv req keys c) ≡ a = cc in
      subst (λ (y : Action). Once c y.ctx) same
        (record { adds = (block_on-Once srv req keys c).adds });
}

handle_other-OnceIfOk :
    (srv : Server) (req : Request) (c : Ctx) → OnceIfOk c (handle_other srv req c)
unfolding handle_other
handle_other-OnceIfOk srv req c =
    if-OnceIfOk c (info_has (get_cmd_info req.cmd) flag_blocking || is_blocking_xread req) _ _
      (blocking-OnceIfOk srv req c) (routed-OnceIfOk srv req c)

-- A client that does not subscribe.
abbrev pub subscribes : Request → Bool
subscribes req = bytes_eq req.cmd (codes "SUBSCRIBE") || bytes_eq req.cmd (codes "PSUBSCRIBE")

handle_passed-OnceIfOk :
    (srv : Server) (req : Request) (c : Ctx)
    → subscribes req ≡ false
    → OnceIfOk c (handle_passed srv req c)
unfolding handle_passed
handle_passed-OnceIfOk srv req c e =
    if-OnceIfOk c (bytes_eq req.cmd (codes "INFO")) _ _
      (ok-OnceIfOk c _ (submit-Once call_execute req c))
      (if-OnceIfOk c (bytes_eq req.cmd (codes "MULTI")) _ _
        (ok-OnceIfOk c _ (session-Once c _ (handle_multi-SaysOne c.session)))
        (if-OnceIfOk c (bytes_eq req.cmd (codes "WATCH")) _ _
          (ok-OnceIfOk c _ (session-Once c _ (handle_watch-SaysOne srv.topo c.session req)))
          (if-OnceIfOk c (bytes_eq req.cmd (codes "UNWATCH")) _ _
            (ok-OnceIfOk c _ (session-Once c _ (handle_unwatch-SaysOne c.session)))
            (if-OnceIfOk c (bytes_eq req.cmd (codes "DISCARD")) _ _
              (ok-OnceIfOk c _ (reply-Once _ c))
              (if-OnceIfOk c (bytes_eq req.cmd (codes "EXEC")) _ _
                (ok-OnceIfOk c _ (reply-Once _ c))
                (skip-OnceIfOk c (subscribes req) _ _ e sent))))))
  where
    sent : OnceIfOk c (
        if is_any script_names req.cmd
        then ok (go_on (submit call_script req c))
        else if bytes_eq req.cmd (codes "PROXY")
        then ok (go_on (handle_proxy_cmd srv (args_behind req.args) c))
        else if bytes_eq req.cmd (codes "BROADCAST")
        then ok (go_on (submit call_broadcast req c))
        else handle_other srv req c)
    sent =
        if-OnceIfOk c (is_any script_names req.cmd) _ _
          (ok-OnceIfOk c _ (submit-Once call_script req c))
          (if-OnceIfOk c (bytes_eq req.cmd (codes "PROXY")) _ _
            (ok-OnceIfOk c _ (handle_proxy_cmd-Once srv (args_behind req.args) c))
            (if-OnceIfOk c (bytes_eq req.cmd (codes "BROADCAST")) _ _
              (ok-OnceIfOk c _ (submit-Once call_broadcast req c))
              (handle_other-OnceIfOk srv req c)))

reset-client :
    (d : Option BlockingConn) (c : Ctx) → (close_blocking_of d c).session.client ≡ c.session.client
reset-client none c = refl
reset-client (some d) c = refl

reset_and_reply-Once : (c : Ctx) → Once c (reset_and_reply c)
unfolding reset
reset_and_reply-Once c = reply-after-Once _ c (reset c) (
    reset-client c.blocking_backend (record c { session = reset_client_state c.session })
    ∙ reset_client_state-client c.session)

handle_named-OnceIfOk :
    (srv : Server) (req : Request) (c : Ctx)
    → subscribes req ≡ false
    → bytes_eq req.cmd (codes "HELLO") ≡ false
    → OnceIfOk c (handle_named srv req c)
unfolding handle_named
handle_named-OnceIfOk srv req c e h =
    let args = args_behind req.args in
    if-OnceIfOk c (bytes_eq req.cmd (codes "QUIT")) _ _
      (ok-OnceIfOk c _ (record { adds = write_past-Adds ok_bytes c.session }))
      (if-OnceIfOk c (bytes_eq req.cmd (codes "RESET")) _ _
        (ok-OnceIfOk c _ (reset_and_reply-Once c))
        (if-OnceIfOk c (bytes_eq req.cmd (codes "PING")) _ _
          (ok-OnceIfOk c _ (handle_ping-Once args c))
          (skip-OnceIfOk c (bytes_eq req.cmd (codes "HELLO")) _ _ h (
            if-OnceIfOk c (bytes_eq req.cmd (codes "AUTH")) _ _
              (ok-OnceIfOk c _ (handle_auth-Once srv args c))
              (if-OnceIfOk c (bytes_eq req.cmd (codes "ECHO")) _ _
                (ok-OnceIfOk c _ (handle_echo-Once args c))
                (if-OnceIfOk c (bytes_eq req.cmd (codes "SELECT")) _ _
                  (ok-OnceIfOk c _ (handle_select-Once args c))
                  (if-OnceIfOk c (bytes_eq req.cmd (codes "READONLY")) _ _
                    (ok-OnceIfOk c _ (handle_no_args-Once (codes "readonly") args c))
                    (if-OnceIfOk c (bytes_eq req.cmd (codes "READWRITE")) _ _
                      (ok-OnceIfOk c _ (handle_no_args-Once (codes "readwrite") args c))
                      (if-OnceIfOk c (bytes_eq req.cmd (codes "CLIENT")) _ _
                        (ok-OnceIfOk c _ (handle_client_cmd-Once srv args c))
                        (if-OnceIfOk c (bytes_eq req.cmd (codes "CLUSTER")) _ _
                          (ok-OnceIfOk c _ (handle_cluster-Once srv req args c))
                          (handle_passed-OnceIfOk srv req c e)))))))))))

-- Nothing that comes before the switch.
passes :
    (s : Session) (req : Request)
    → s.authenticated ≡ true
    → s.pending_watch_req ≡ none
    → before_switch s req ≡ none
unfolding before_switch
passes s req a w = rw (before_switch, a, w) refl

handle_normal-OnceIfOk :
    (srv : Server) (req : Request) (c : Ctx)
    → c.session.authenticated ≡ true
    → c.session.pending_watch_req ≡ none
    → subscribes req ≡ false
    → bytes_eq req.cmd (codes "HELLO") ≡ false
    → OnceIfOk c (handle_normal srv req c)
unfolding handle_normal
handle_normal-OnceIfOk srv req c a w e h =
    rw (handle_normal, passes c.session req a w) (handle_named-OnceIfOk srv req c e h)

-- The states in which a request is not buffered and not for the hub.
unfoldable pub is_serving : ClientState → Bool
is_serving state_subscribe = false
is_serving state_blocking = false
is_serving _ = true

dispatch_in-OnceIfOk :
    (srv : Server) (req : Request) (c : Ctx) (state : ClientState)
    → is_serving state ≡ true
    → c.session.authenticated ≡ true
    → c.session.pending_watch_req ≡ none
    → subscribes req ≡ false
    → bytes_eq req.cmd (codes "HELLO") ≡ false
    → OnceIfOk c (dispatch_in srv req c state)
unfolding dispatch_in is_serving
dispatch_in-OnceIfOk srv req c state_normal i a w e h = handle_normal-OnceIfOk srv req c a w e h
dispatch_in-OnceIfOk srv req c state_watch i a w e h = handle_normal-OnceIfOk srv req c a w e h
dispatch_in-OnceIfOk srv req c state_multi i a w e h =
    ok-OnceIfOk c (after_multi c (handle_in_multi srv.topo c.session req))
      (record { adds = (handle_in_multi-SaysOne srv.topo c.session req).adds })
dispatch_in-OnceIfOk srv req c state_watch_multi i a w e h =
    ok-OnceIfOk c (after_multi c (handle_in_multi srv.topo c.session req))
      (record { adds = (handle_in_multi-SaysOne srv.topo c.session req).adds })
dispatch_in-OnceIfOk srv req c state_subscribe i a w e h = absurd (ground arith)
dispatch_in-OnceIfOk srv req c state_blocking i a w e h = absurd (ground arith)

dispatch_args-OnceIfOk :
    (srv : Server) (req : Request) (c : Ctx) (args : List Bytes)
    → is_serving c.session.state ≡ true
    → c.session.authenticated ≡ true
    → c.session.pending_watch_req ≡ none
    → subscribes req ≡ false
    → bytes_eq req.cmd (codes "HELLO") ≡ false
    → OnceIfOk c (dispatch_args srv req c args)
dispatch_args-OnceIfOk srv req c [] i a w e h =
    ok-OnceIfOk c _ (record { adds = write_past-Adds _ c.session })
dispatch_args-OnceIfOk srv req c (x ∷ args) i a w e h = record {
  once = λ y k. record {
    adds =
        ((dispatch_in-OnceIfOk srv req (record c { local_cmd_count = c.local_cmd_count + 1 })
            c.session.state i a w e h).once
          y k).adds;
  };
}

-- Whatever request an authenticated client sends, if it is in no subscription, waits for no blocking
-- command and for no connection of WATCH, and the request is not HELLO, SUBSCRIBE or PSUBSCRIBE:
-- unless the process panics, exactly one answer is written or waits to be filled that was not before.
dispatch_client_request-Once :
    (srv : Server) (req : Request) (c : Ctx) (a : Action)
    → is_serving c.session.state ≡ true
    → c.session.authenticated ≡ true
    → c.session.pending_watch_req ≡ none
    → subscribes req ≡ false
    → bytes_eq req.cmd (codes "HELLO") ≡ false
    → dispatch_client_request srv req c ≡ ok a
    → Adds 1 c.session.client a.ctx.session.client
unfolding dispatch_client_request
dispatch_client_request-Once srv req c a i u w e h k =
    ((dispatch_args-OnceIfOk srv req c req.args i u w e h).once a k).adds
