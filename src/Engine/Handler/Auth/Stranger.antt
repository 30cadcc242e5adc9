-- ===== src/Engine/Handler/Auth/Stranger.antt =====
-- The requests of a client that has not authenticated, one after another.
use pluster.Prelude.{
  ◌≡◌, refl, sym, subst, Bool, true, false, not, ◌&&◌, ◌+◌, none, some, List, [], ◌∷◌, All, arith,
  Bytes, bytes_eq, bytes_eq_iff, codes, Bool-cases, inl, inr,
}
use pluster.Proto.Outcome.{Outcome, ok}
use pluster.Proto.Encode.{encode_error}
use pluster.Proto.Request.{Request}
use pluster.Engine.Split.Route.{args_behind}
use pluster.Engine.Multi.{ClientState, state_normal, Session, say, write_past}
use pluster.Engine.Multi.Dispatch.{before_switch, ok_bytes}
use pluster.Engine.Handler.{Server, Ctx, Action, go_on, reply}
use pluster.Engine.Handler.Local.{handle_ping, handle_hello, handle_auth}
use pluster.Engine.Handler.Dispatch.{
  handle_named, handle_normal, quit, dispatch_in, dispatch_args, dispatch_client_request,
}
use pluster.Engine.Handler.Auth.{
  Keeps-apart, Unreached, IsStranger, Keeps, Keeps-refl, Keeps-trans, reply-Keeps, IsWrong,
  handle_auth-Keeps, handle_hello-Keeps, handle_ping-Keeps,
}

record KeepsIfOk (c : Ctx) (o : Outcome Action) : Type 0 where
  keeps : (a : Action) → o ≡ ok a → Keeps c a.ctx

ok-KeepsIfOk : (c : Ctx) (x : Action) → Keeps c x.ctx → KeepsIfOk c (ok x)
ok-KeepsIfOk c x p = record {
  keeps = λ a e. let same : x ≡ a = cc in subst (λ (y : Action). Keeps c y.ctx) same p;
}

write_past-Keeps : (b : Bytes) (c : Ctx) → Keeps c (record c { session = write_past b c.session })
unfolding write_past
write_past-Keeps b c =
    Keeps-apart c (write_past b c.session).client c.session.authenticated c.client_name
      c.local_cmd_count (λ e. e)

other_name :
    (cmd n m : Bytes) → bytes_eq cmd n ≡ true → bytes_eq n m ≡ false → bytes_eq cmd m ≡ false
other_name cmd n m e d = subst (λ x. bytes_eq x m ≡ false) (sym ((bytes_eq_iff cmd n).0 e)) d

abbrev refuses : Session → Request → Bool
refuses s req =
    not s.authenticated
    && not (bytes_eq req.cmd (codes "AUTH"))
    && not (bytes_eq req.cmd (codes "QUIT"))
    && not (bytes_eq req.cmd (codes "HELLO"))
    && not (bytes_eq req.cmd (codes "PING"))

before_switch-none :
    (s : Session) (req : Request)
    → refuses s req ≡ false
    → s.pending_watch_req ≡ none
    → before_switch s req ≡ none
unfolding before_switch
before_switch-none s req e w = rw (before_switch, e, w) refl

before_switch-some :
    (s : Session) (req : Request)
    → refuses s req ≡ true
    → before_switch s req ≡ some (say (encode_error (codes "NOAUTH Authentication required.")) s)
unfolding before_switch
before_switch-some s req e = rw (before_switch, e) refl

module _ (srv : Server) (req : Request) (c : Ctx) (s : IsStranger c) where
  refused : refuses c.session req ≡ true → KeepsIfOk c (handle_normal srv req c)
  unfolding handle_normal reply
  refused e =
      rw (handle_normal, before_switch-some c.session req e)
        (ok-KeepsIfOk c (go_on (reply (encode_error (codes "NOAUTH Authentication required.")) c))
          (reply-Keeps _ c))

  passed :
      (o : Outcome Action)
      → refuses c.session req ≡ false
      → handle_named srv req c ≡ o
      → KeepsIfOk c o
      → KeepsIfOk c (handle_normal srv req c)
  unfolding handle_normal
  passed o e n k =
      rw (handle_normal, before_switch-none c.session req e s.pending_watch_req)
        (subst (KeepsIfOk c) (sym n) k)

  -- The four commands that are let through.
  module _ (w : All (IsWrong srv) (args_behind req.args)) where
    quits : bytes_eq req.cmd (codes "QUIT") ≡ true → KeepsIfOk c (handle_normal srv req c)
    unfolding handle_named
    quits q =
        passed (ok (quit c)) (ground arith) (rw (handle_named, q) refl)
          (ok-KeepsIfOk c (quit c) (write_past-Keeps ok_bytes c))

    pings : bytes_eq req.cmd (codes "PING") ≡ true → KeepsIfOk c (handle_normal srv req c)
    unfolding handle_named bytes_eq
    pings p =
        let x = go_on (handle_ping (args_behind req.args) c) in
        let same = (bytes_eq_iff req.cmd (codes "PING")).0 p in
        passed (ok x) (ground arith)
          (rw
            (
              handle_named,
              other_name req.cmd (codes "PING") (codes "QUIT") p refl,
              other_name req.cmd (codes "PING") (codes "RESET") p refl,
              p,
            )
            refl)
          (ok-KeepsIfOk c x (handle_ping-Keeps (args_behind req.args) c))

    hellos : bytes_eq req.cmd (codes "HELLO") ≡ true → KeepsIfOk c (handle_normal srv req c)
    unfolding handle_named bytes_eq
    hellos p =
        let x = go_on (handle_hello srv (args_behind req.args) c) in
        passed (ok x) (ground arith)
          (rw
            (
              handle_named,
              other_name req.cmd (codes "HELLO") (codes "QUIT") p refl,
              other_name req.cmd (codes "HELLO") (codes "RESET") p refl,
              other_name req.cmd (codes "HELLO") (codes "PING") p refl,
              p,
            )
            refl)
          (ok-KeepsIfOk c x (handle_hello-Keeps srv (args_behind req.args) c w))

    auths : bytes_eq req.cmd (codes "AUTH") ≡ true → KeepsIfOk c (handle_normal srv req c)
    unfolding handle_named bytes_eq
    auths p =
        let x = go_on (handle_auth srv (args_behind req.args) c) in
        passed (ok x) (ground arith)
          (rw
            (
              handle_named,
              other_name req.cmd (codes "AUTH") (codes "QUIT") p refl,
              other_name req.cmd (codes "AUTH") (codes "RESET") p refl,
              other_name req.cmd (codes "AUTH") (codes "PING") p refl,
              other_name req.cmd (codes "AUTH") (codes "HELLO") p refl,
              p,
            )
            refl)
          (ok-KeepsIfOk c x (handle_auth-Keeps srv (args_behind req.args) c w))

    handle_normal-Keeps : KeepsIfOk c (handle_normal srv req c)
    handle_normal-Keeps = elim (Bool-cases (bytes_eq req.cmd (codes "QUIT"))) [
      | inl q ↦ quits q
      | inr q ↦ elim (Bool-cases (bytes_eq req.cmd (codes "PING"))) [
        | inl p ↦ pings p
        | inr p ↦ elim (Bool-cases (bytes_eq req.cmd (codes "HELLO"))) [
          | inl h ↦ hellos h
          | inr h ↦ elim (Bool-cases (bytes_eq req.cmd (codes "AUTH"))) [
            | inl a ↦ auths a
            | inr a ↦ let strange = s.authenticated in refused (ground arith)
          ]
        ]
      ]
    ]

dispatch_in-Keeps :
    (srv : Server) (req : Request) (c : Ctx) (state : ClientState)
    → IsStranger c
    → state ≡ state_normal
    → All (IsWrong srv) (args_behind req.args)
    → KeepsIfOk c (dispatch_in srv req c state)
unfolding dispatch_in
dispatch_in-Keeps srv req c state s e w =
    subst (λ x. KeepsIfOk c (dispatch_in srv req c x)) (sym e) (handle_normal-Keeps srv req c s w)

counted : (c : Ctx) → Keeps c (record c { local_cmd_count = c.local_cmd_count + 1 })
counted c =
    Keeps-apart c c.session.client c.session.authenticated c.client_name (c.local_cmd_count + 1)
      (λ e. e)

dispatch_args-Keeps :
    (srv : Server) (req : Request) (c : Ctx) (args : List Bytes)
    → IsStranger c
    → All (IsWrong srv) (args_behind req.args)
    → KeepsIfOk c (dispatch_args srv req c args)
dispatch_args-Keeps srv req c [] s w =
    ok-KeepsIfOk c _ (write_past-Keeps (encode_error (codes "ERR empty command")) c)
dispatch_args-Keeps srv req c (x ∷ args) s w =
    let c' = record c { local_cmd_count = c.local_cmd_count + 1 } in
    record {
      keeps = λ a e. Keeps-trans c c' a.ctx (counted c) (
          (dispatch_in-Keeps srv req c' c.session.state ((counted c).stranger s) s.state w).keeps a
            e);
    }

-- Requests of one client, one after another, none of which has the password among its arguments.
pub data Served (srv : Server) (c : Ctx) : Ctx → Type 0 where
  start : Served srv c c
  next :
      {c' : Ctx} (req : Request) (a : Action)
      → Served srv c c'
      → All (IsWrong srv) (args_behind req.args)
      → dispatch_client_request srv req c' ≡ ok a
      → Served srv c a.ctx

Served-Keeps :
    {srv : Server} {c c' : Ctx} → Served srv c c' → IsStranger c → Keeps c c' × IsStranger c'
unfolding dispatch_client_request
Served-Keeps {srv} {c} start s = (Keeps-refl c, s)
Served-Keeps {srv} {c} (next {c'} req a run w e) s =
    let (k, s') = Served-Keeps run s in
    let k' = (dispatch_args-Keeps srv req c' req.args s' w).keeps a e in
    (Keeps-trans c c' a.ctx k k', k'.stranger s')

-- However many requests a client sends that has not authenticated, if none of their arguments is the
-- password, it does not come to be authenticated, and it reaches nothing: no connection to a node,
-- nor the router, nor the hub and the other clients, and no setting of the proxy. All that it gives
-- the event loop is answers to its own slots.
pub Served-Unreached :
    {srv : Server} {c c' : Ctx} → Served srv c c' → IsStranger c → Unreached c c' × IsStranger c'
Served-Unreached run s = let (k, s') = Served-Keeps run s in (k.unreached, s')
