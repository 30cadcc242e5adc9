-- ===== src/Engine/Handler/Traffic/Total.antt =====
-- The fuel of `onClientTraffic`.
use pluster.Prelude.{
  ◌==◌, ltb, ℕ, zero, suc, ◌+◌, ◌*◌, ◌≤◌, ◌<◌, ◌≡◌, ◌≢◌, refl, Bool, true, false, ◌||◌, Option,
  none, some, List, [], ◌∷◌, arith, Bytes, bytes_eq, codes, length, drop, if◌then◌else◌,
}
use pluster.Proto.Outcome.{Outcome, ok, incomplete, invalid, panicked, stuck, ◌>>=◌, >>=-ne-stuck}
use pluster.Proto.Request.{Request, parse_request}
use pluster.Proto.Request.Total.{parse_request_bounds, parse_request_total}
use pluster.Proto.Command.Info.{
  CmdInfo, flag_not_allowed, flag_all_nodes, flag_multi_key, flag_blocking,
}
use pluster.Proto.Command.{get_cmd_info, is_blocking_xread, arg_at}
use pluster.Router.Redirect.{atoi}
use pluster.Engine.Responses.{Client}
use pluster.Engine.Mux.{Mux, send}
use pluster.Engine.Split.{
  SlotGroup, Grouped, grouped, no_node, keys_of_command, pairs_of, is_mset, sub_args,
}
use pluster.Engine.Split.Route.{
  Routed, Routing, pending, sub_request, send_parts, new_fan_in, alloc_fan_in, send_groups,
  send_grouped, route_multi_key_to_mux, info_has, split_here, route_keyed, route_from,
  route_to_backend, get_first_key_and_info, args_behind,
}
use pluster.Engine.Multi.{
  ClientState, state_normal, state_subscribe, state_multi, state_watch, state_watch_multi,
  state_blocking, Session,
}
use pluster.Engine.Multi.Dispatch.{before_switch}
use pluster.Engine.Handler.{Server, Ctx}
use pluster.Engine.Handler.Blocking.{
  counted_keys, second_or_empty, is_last_timeout, extract_blocking_keys, dispatch_blocking_command,
}
use pluster.Engine.Handler.Dispatch.{
  handle_other, handle_passed, handle_named, handle_normal, dispatch_in, dispatch_args,
  dispatch_client_request, with_session,
}
use pluster.Engine.Handler.Traffic.{Read, after_parse, requests, on_client_traffic}

arg_at-ne-stuck : (args : List Bytes) (i : ℕ) → arg_at args i ≢ stuck
arg_at-ne-stuck args i = ground arith

pairs_of-ne-stuck :
    (args : List Bytes) (is : List ℕ) (ks : List Bytes) → pairs_of args is ks ≢ stuck
unfolding pairs_of
pairs_of-ne-stuck args [] ks = λ e. cc
pairs_of-ne-stuck args (i ∷ is) [] = λ e. cc
pairs_of-ne-stuck args (i ∷ is) (k ∷ ks) =
    >>=-ne-stuck (arg_at args (1 + i * 2 + 1)) _ (arg_at-ne-stuck args (1 + i * 2 + 1))
      (λ v p. >>=-ne-stuck (pairs_of args is ks) _ (pairs_of-ne-stuck args is ks) (λ r q e. cc))

-- A result that is an answer.
record IsLive {A : Type 0} (o : Outcome A) : Type 0 where
  live : o ≢ stuck

if-IsLive :
    {A : Type 0} (b : Bool) (x y : Outcome A) → IsLive x → IsLive y → IsLive (if b then x else y)
if-IsLive true x y p q = p
if-IsLive false x y p q = q

ok-IsLive : {A : Type 0} (x : A) → IsLive (ok x)
ok-IsLive x = record { live = λ e. cc }

bind-IsLive :
    {A B : Type 0} (o : Outcome A) (f : A → Outcome B)
    → IsLive o
    → ((x : A) → IsLive (f x))
    → IsLive (o >>= f)
bind-IsLive o f p q = record { live = >>=-ne-stuck o f p.live (λ x e. (q x).live) }

sub_request-IsLive :
    (req : Request) (name : Bytes) (g : SlotGroup) → IsLive (sub_request req name g)
unfolding sub_request sub_args
sub_request-IsLive req name g =
    bind-IsLive (arg_at req.args 0) _ (record { live = arg_at-ne-stuck req.args 0 })
      (λ first.
        bind-IsLive (sub_args name req.args first g) _
          (if-IsLive (is_mset name) _ _
            (bind-IsLive (pairs_of req.args g.indices g.keys) _
              (record { live = pairs_of-ne-stuck req.args g.indices g.keys })
              (λ pairs. ok-IsLive (first ∷ pairs)))
            (ok-IsLive (first ∷ g.keys)))
          (λ args. ok-IsLive _))

send_parts-IsLive :
    (r : Routing) (i : ℕ) (name : Bytes) (req : Request) (gi : ℕ) (gs : List SlotGroup) (m : Mux)
    → IsLive (send_parts r i name req gi gs m)
unfolding send_parts
send_parts-IsLive r i name req gi [] m = ok-IsLive _
send_parts-IsLive r i name req gi (g ∷ gs) m =
    bind-IsLive (sub_request req name g) _ (sub_request-IsLive req name g) (λ part.
      let sent = send r.env m g.addr (pending r.id i part true gi) in
      bind-IsLive (send_parts r i name req (suc gi) gs sent.0) _
        (send_parts-IsLive r i name req (suc gi) gs sent.0) (λ x. ok-IsLive _))

send_many-IsLive :
    (r : Routing) (c : Client) (m : Mux) (req : Request) (name : Bytes) (total : ℕ)
    (gs : List SlotGroup)
    → IsLive {A = Routed} (do
      let (c', i) = alloc_fan_in c (new_fan_in name total gs)
      (m', out) ← send_parts r i name req 0 gs m
      ok (record { client = c'; mux = m'; effects = out; submitted = none }))
send_many-IsLive r c m req name total gs =
    let a = alloc_fan_in c (new_fan_in name total gs) in
    bind-IsLive (send_parts r a.1 name req 0 gs m) _ (send_parts-IsLive r a.1 name req 0 gs m)
      (λ x. ok-IsLive (record { client = a.0; mux = x.0; effects = x.1; submitted = none }))

send_grouped-IsLive :
    (r : Routing) (c : Client) (m : Mux) (req : Request) (name : Bytes) (total : ℕ) (g : Grouped)
    → IsLive (send_grouped r c m req name total g)
unfolding send_grouped send_groups
send_grouped-IsLive r c m req name total (no_node slot) = ok-IsLive _
send_grouped-IsLive r c m req name total (grouped []) = send_many-IsLive r c m req name total []
send_grouped-IsLive r c m req name total (grouped (g ∷ [])) = ok-IsLive _
send_grouped-IsLive r c m req name total (grouped (g ∷ h ∷ gs)) =
    send_many-IsLive r c m req name total (g ∷ h ∷ gs)

route_from-IsLive :
    (r : Routing) (c : Client) (m : Mux) (req : Request) (key : Option Bytes × Option CmdInfo)
    → IsLive (route_from r c m req key)
unfolding route_from route_keyed route_multi_key_to_mux
route_from-IsLive r c m req (none, info) =
    if-IsLive (info_has info flag_not_allowed) _ _ (ok-IsLive _) (ok-IsLive _)
route_from-IsLive r c m req (some key, info) =
    if-IsLive (info_has info flag_not_allowed) _ _ (ok-IsLive _) (
      if-IsLive (info_has info flag_all_nodes) _ _ (ok-IsLive _) (
        if-IsLive (info_has info flag_multi_key) _ _
          (if-IsLive (split_here req.cmd) _ _
            (if-IsLive (length (keys_of_command req.cmd (args_behind req.args)) == 0) _ _
              (ok-IsLive _)
              (send_grouped-IsLive r c m req req.cmd
                (length (keys_of_command req.cmd (args_behind req.args))) _))
            (ok-IsLive _))
          (ok-IsLive _)))

extract_blocking_keys-IsLive : (req : Request) → IsLive (extract_blocking_keys req)
unfolding extract_blocking_keys
extract_blocking_keys-IsLive req =
    let args = args_behind req.args in
    if-IsLive (is_last_timeout req.cmd) _ _
      (if-IsLive (ltb (length args) 2) _ _ (ok-IsLive _) (ok-IsLive _))
      (if-IsLive (bytes_eq req.cmd (codes "BLMOVE")) _ _
        (if-IsLive (ltb (length args) 5) _ _ (ok-IsLive _) (ok-IsLive _))
        (if-IsLive (bytes_eq req.cmd (codes "BLMPOP") || bytes_eq req.cmd (codes "BZMPOP")) _ _
          (if-IsLive (ltb (length args) 4) _ _ (ok-IsLive _)
            (counted args (atoi (second_or_empty args))))
          (if-IsLive (bytes_eq req.cmd (codes "XREAD") || bytes_eq req.cmd (codes "XREADGROUP")) _ _
            (ok-IsLive _) (ok-IsLive _))))
  where
    counted : (args : List Bytes) (o : Option ℕ) → IsLive (counted_keys args o)
    counted args none = ok-IsLive []
    counted args (some n) = record { live = ground arith }

handle_other-IsLive : (srv : Server) (req : Request) (c : Ctx) → IsLive (handle_other srv req c)
unfolding handle_other dispatch_blocking_command route_to_backend
handle_other-IsLive srv req c =
    if-IsLive (info_has (get_cmd_info req.cmd) flag_blocking || is_blocking_xread req) _ _
      (bind-IsLive (dispatch_blocking_command srv req c) _
        (bind-IsLive (extract_blocking_keys req) _ (extract_blocking_keys-IsLive req)
          (λ keys. ok-IsLive _))
        (λ c'. ok-IsLive _))
      (bind-IsLive (route_to_backend srv.routing c.session.client c.session.mux req) _
        (route_from-IsLive srv.routing c.session.client c.session.mux req
          (get_first_key_and_info req))
        (λ r. ok-IsLive _))

handle_passed-IsLive : (srv : Server) (req : Request) (c : Ctx) → IsLive (handle_passed srv req c)
unfolding handle_passed
handle_passed-IsLive srv req c = search (if-IsLive, ok-IsLive, handle_other-IsLive) depth 14

handle_named-IsLive : (srv : Server) (req : Request) (c : Ctx) → IsLive (handle_named srv req c)
unfolding handle_named
handle_named-IsLive srv req c = search (if-IsLive, ok-IsLive, handle_passed-IsLive) depth 14

handle_normal-IsLive : (srv : Server) (req : Request) (c : Ctx) → IsLive (handle_normal srv req c)
unfolding handle_normal
handle_normal-IsLive srv req c = switched (before_switch c.session req)
  where
    switched :
        (o : Option Session)
        → IsLive (elim o [ some s ↦ ok (with_session c s) | none ↦ handle_named srv req c ])
    switched none = handle_named-IsLive srv req c
    switched (some s) = ok-IsLive _

dispatch_in-IsLive :
    (srv : Server) (req : Request) (c : Ctx) (state : ClientState)
    → IsLive (dispatch_in srv req c state)
unfolding dispatch_in
dispatch_in-IsLive srv req c state_normal = handle_normal-IsLive srv req c
dispatch_in-IsLive srv req c state_watch = handle_normal-IsLive srv req c
dispatch_in-IsLive srv req c state_multi = ok-IsLive _
dispatch_in-IsLive srv req c state_watch_multi = ok-IsLive _
dispatch_in-IsLive srv req c state_subscribe = ok-IsLive _
dispatch_in-IsLive srv req c state_blocking =
    if-IsLive (bytes_eq req.cmd (codes "QUIT") || bytes_eq req.cmd (codes "RESET")) _ _
      (handle_normal-IsLive srv req c) (ok-IsLive _)

dispatch_args-IsLive :
    (srv : Server) (req : Request) (c : Ctx) (args : List Bytes)
    → IsLive (dispatch_args srv req c args)
dispatch_args-IsLive srv req c [] = ok-IsLive _
dispatch_args-IsLive srv req c (a ∷ args) =
    dispatch_in-IsLive srv req (record c { local_cmd_count = c.local_cmd_count + 1 })
      c.session.state

dispatch_client_request-IsLive :
    (srv : Server) (req : Request) (c : Ctx) → IsLive (dispatch_client_request srv req c)
unfolding dispatch_client_request
dispatch_client_request-IsLive srv req c = dispatch_args-IsLive srv req c req.args

drop-shorter : (n : ℕ) (b : ℕ) (buf : Bytes) → 0 < n → length (drop n (b ∷ buf)) ≤ length buf
drop-shorter zero b buf h = absurd (omega arith)
drop-shorter (suc n) b buf h = no_longer n buf
  where
    no_longer : (n : ℕ) (xs : Bytes) → length (drop n xs) ≤ length xs
    no_longer zero xs = omega arith
    no_longer (suc n) [] = omega arith
    no_longer (suc n) (x ∷ xs) = omega (arith, no_longer n xs)

after_parse-IsLive :
    (srv : Server) (next : Bytes → Ctx → Outcome Read) (b : ℕ) (buf : Bytes) (c : Ctx)
    (o : Outcome (Request × ℕ))
    → ((left : Bytes) (c' : Ctx) → length left ≤ length buf → IsLive (next left c'))
    → o ≢ stuck
    → ((req : Request) (e : ℕ) → o ≡ ok (req, e) → 0 < e)
    → IsLive (after_parse srv next (b ∷ buf) c o)
after_parse-IsLive srv next b buf c (ok (req, e)) live n p =
    bind-IsLive (dispatch_client_request srv req c) _ (dispatch_client_request-IsLive srv req c)
      (λ a.
        if-IsLive a.closes _ _ (ok-IsLive _)
          (live (drop e (b ∷ buf)) a.ctx (drop-shorter e b buf (p req e refl))))
after_parse-IsLive srv next b buf c incomplete live n p = ok-IsLive _
after_parse-IsLive srv next b buf c invalid live n p = ok-IsLive _
after_parse-IsLive srv next b buf c panicked live n p = record { live = λ e. cc }
after_parse-IsLive srv next b buf c stuck live n p = absurd (n refl)

requests-IsLive :
    (srv : Server) (f : ℕ) (buf : Bytes) (c : Ctx) → length buf ≤ f → IsLive (requests srv f buf c)
unfolding requests
requests-IsLive srv f [] c h = ok-IsLive _
requests-IsLive srv zero (b ∷ buf) c h = absurd (omega arith)
requests-IsLive srv (suc f) (b ∷ buf) c h =
    after_parse-IsLive srv (requests srv f) b buf c (parse_request (b ∷ buf))
      (λ left c' l. requests-IsLive srv f left c' (omega arith)) (parse_request_total (b ∷ buf))
      (λ req e p. (parse_request_bounds (b ∷ buf) req e p).0)

-- On whatever bytes of a client and in whatever state, the loop of `onClientTraffic` ends: the fuel
-- of the model is enough.
pub on_client_traffic_total :
    (srv : Server) (buf : Bytes) (c : Ctx) → on_client_traffic srv buf c ≢ stuck
unfolding on_client_traffic
on_client_traffic_total srv buf c =
    (bind-IsLive (requests srv (length buf) buf c) _
      (requests-IsLive srv (length buf) buf c (omega arith)) (λ r. ok-IsLive _)).live
