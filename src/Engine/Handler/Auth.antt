-- ===== src/Engine/Handler/Auth.antt =====
-- What a handler leaves as it is for a client that has not authenticated: PING, AUTH and HELLO.
pub mod Stranger
use mathlib.Core.List.{map-append}
use pluster.Prelude.{
  ℕ, ◌+◌, ◌≡◌, refl, sym, ◌∙◌, ap, subst, Bool, true, false, not, ◌&&◌, ◌||◌, Option, none, some,
  List, [], ◌∷◌, ◌++◌, map, append-nil, append_assoc, All, Bytes, bytes_eq, codes, Bool-cases, inl,
  inr, if◌then◌else◌, arith, length, ◌==◌,
}
use pluster.Proto.Outcome.{Outcome, ok}
use pluster.Proto.Request.{Request}
use pluster.Engine.Mux.{Mux, fill_slot}
use pluster.Engine.Responses.{Client, alloc_response_slot}
use pluster.Engine.Split.Route.{write_immediate, args_behind}
use pluster.Engine.Multi.{ClientState, state_normal, Outside, on_loop, Session, say, write_past}
use pluster.Engine.Multi.Dispatch.{before_switch, ok_bytes}
use pluster.Engine.Handler.{Server, Ctx, Action, go_on, reply, reply_error}
use pluster.Engine.Handler.Local.{
  handle_ping, handle_auth, check_password, auth_with, with_authenticated, no_password, Options,
  returned, finished, is_option, authenticated_or_returned, hello_options, finish_hello,
  handle_hello,
}
use pluster.Engine.Handler.Dispatch.{
  handle_named, handle_normal, with_session, quit, dispatch_in, dispatch_args,
  dispatch_client_request,
}

-- An answer that the event loop is to put into a slot of the client.
abbrev pub own_answer : ℕ → ℕ × Bytes → Outside
own_answer id (i, b) = on_loop (fill_slot id i b)

-- What a stranger leaves as it is: everything that leads to a node, or to the other clients. To the
-- event loop it gives nothing but answers to its own slots.
pub record Unreached (c c' : Ctx) : Type 0 where
  pub id : c'.session.id ≡ c.session.id
  pub mux : c'.session.mux ≡ c.session.mux
  pub hub : c'.hub ≡ c.hub
  pub pool : c'.pool ≡ c.pool
  pub calls : c'.calls ≡ c.calls
  pub dials : c'.dials ≡ c.dials
  pub begun : c'.begun ≡ c.begun
  pub closed : c'.closed ≡ c.closed
  pub writes : c'.writes ≡ c.writes
  pub refreshes : c'.refreshes ≡ c.refreshes
  pub max_clients : c'.max_clients ≡ c.max_clients
  pub outside :
      (es : List (ℕ × Bytes)) × (c'.session.outside
        ≡ c.session.outside ++ map (own_answer c.session.id) es)

-- A client that has not authenticated, and is in no other state than the first.
pub record IsStranger (c : Ctx) : Type 0 where
  pub authenticated : c.session.authenticated ≡ false
  pub state : c.session.state ≡ state_normal
  pub pending_watch_req : c.session.pending_watch_req ≡ none

-- Both at once, for a step.
record Keeps (c c' : Ctx) : Type 0 where
  unreached : Unreached c c'
  stranger : IsStranger c → IsStranger c'

-- What lies apart from all this.
abbrev pub apart : Ctx → Client → Bool → Bytes → ℕ → Ctx
apart c client auth name n = record c {
  session = record c.session { client = client; authenticated = auth };
  client_name = name;
  local_cmd_count = n;
}

Unreached-apart :
    (c : Ctx) (client : Client) (auth : Bool) (name : Bytes) (n : ℕ)
    → Unreached c (apart c client auth name n)
Unreached-apart c client auth name n = record {
  id = refl;
  mux = refl;
  hub = refl;
  pool = refl;
  calls = refl;
  dials = refl;
  begun = refl;
  closed = refl;
  writes = refl;
  refreshes = refl;
  max_clients = refl;
  outside = ([], sym (append-nil c.session.outside));
}

Keeps-apart :
    (c : Ctx) (client : Client) (auth : Bool) (name : Bytes) (n : ℕ)
    → (c.session.authenticated ≡ false → auth ≡ false)
    → Keeps c (apart c client auth name n)
Keeps-apart c client auth name n h = record {
  unreached = Unreached-apart c client auth name n;
  stranger = λ s. record {
    authenticated = h s.authenticated;
    state = s.state;
    pending_watch_req = s.pending_watch_req;
  };
}

Unreached-trans : (a b c : Ctx) → Unreached a b → Unreached b c → Unreached a c
Unreached-trans a b c p q = record {
  id = q.id ∙ p.id;
  mux = q.mux ∙ p.mux;
  hub = q.hub ∙ p.hub;
  pool = q.pool ∙ p.pool;
  calls = q.calls ∙ p.calls;
  dials = q.dials ∙ p.dials;
  begun = q.begun ∙ p.begun;
  closed = q.closed ∙ p.closed;
  writes = q.writes ∙ p.writes;
  refreshes = q.refreshes ∙ p.refreshes;
  max_clients = q.max_clients ∙ p.max_clients;
  outside =
      let (es, e) = p.outside in
      let (fs, f) = q.outside in
      let own = own_answer a.session.id in
      (
        es ++ fs,
        (f
            ∙ ap (λ i. b.session.outside ++ map (own_answer i) fs) p.id
            ∙ ap (λ o. o ++ map own fs) e
            ∙ append_assoc a.session.outside (map own es) (map own fs)
            ∙ ap (λ o. a.session.outside ++ o) (sym (map-append own es fs))),
      );
}

Keeps-trans : (a b c : Ctx) → Keeps a b → Keeps b c → Keeps a c
Keeps-trans a b c p q = record {
  unreached = Unreached-trans a b c p.unreached q.unreached;
  stranger = λ s. q.stranger (p.stranger s);
}

-- The effects of `writeImmediate` are such answers.
write_immediate-effects :
    (id : ℕ) (c : Client) (m : Mux) (b : Bytes)
    → (es : List (ℕ × Bytes)) × (map on_loop (write_immediate id c m b).effects
        ≡ map (own_answer id) es)
unfolding write_immediate
write_immediate-effects id c m b = elim (Bool-cases (length c.queue == 0)) [
  | inl e ↦ rw e ([], refl)
  | inr e ↦ rw e (((alloc_response_slot c).1, b) ∷ [], refl)
]

reply-Keeps : (b : Bytes) (c : Ctx) → Keeps c (reply b c)
unfolding reply say
reply-Keeps b c =
    let (es, e) = write_immediate-effects c.session.id c.session.client c.session.mux b in
    record {
      unreached = record {
        id = refl;
        mux = refl;
        hub = refl;
        pool = refl;
        calls = refl;
        dials = refl;
        begun = refl;
        closed = refl;
        writes = refl;
        refreshes = refl;
        max_clients = refl;
        outside = (es, ap (λ o. c.session.outside ++ o) e);
      };
      stranger = λ s. record {
        authenticated = s.authenticated;
        state = s.state;
        pending_watch_req = s.pending_watch_req;
      };
    }

if-Keeps : (c : Ctx) (b : Bool) (x y : Ctx) → Keeps c x → Keeps c y → Keeps c (if b then x else y)
if-Keeps c true x y p q = p
if-Keeps c false x y p q = q

refused-Keeps : (c : Ctx) → Keeps c (with_authenticated false c)
refused-Keeps c = Keeps-apart c c.session.client false c.client_name c.local_cmd_count (λ e. refl)

named-Keeps : (name : Bytes) (c : Ctx) → Keeps c (record c { client_name = name })
named-Keeps name c =
    Keeps-apart c c.session.client c.session.authenticated name c.local_cmd_count (λ e. e)

-- An argument that is not the password.
abbrev pub IsWrong : Server → Bytes → Type 0
IsWrong srv arg = bytes_eq arg srv.client_password ≡ false

check_password-Keeps :
    (srv : Server) (p : Bytes) (c : Ctx) → IsWrong srv p → Keeps c (check_password srv p c)
check_password-Keeps srv p c w = rw w (
    Keeps-trans c (with_authenticated false c) _ (refused-Keeps c)
      (reply-Keeps _ (with_authenticated false c)))

handle_auth-Keeps :
    (srv : Server) (args : List Bytes) (c : Ctx)
    → All (IsWrong srv) args
    → Keeps c (handle_auth srv args c)
unfolding handle_auth
handle_auth-Keeps srv args c w =
    if-Keeps c (bytes_eq srv.client_password []) _ _ (reply-Keeps _ c) (with_args args w)
  where
    with_args : (args : List Bytes) → All (IsWrong srv) args → Keeps c (auth_with srv args c)
    with_args [] w = reply-Keeps _ c
    with_args (p ∷ []) w = check_password-Keeps srv p c w.0
    with_args (u ∷ p ∷ []) w = check_password-Keeps srv p c w.1.0
    with_args (u ∷ p ∷ x ∷ xs) w = reply-Keeps _ c

-- What the loop over the options of HELLO leaves.
abbrev options_ctx : Options → Ctx
options_ctx (returned c) = c
options_ctx (finished c) = c

record KeepsOptions (c : Ctx) (o : Options) : Type 0 where
  keeps : Keeps c (options_ctx o)

if-KeepsOptions :
    (c : Ctx) (b : Bool) (x y : Options)
    → KeepsOptions c x
    → KeepsOptions c y
    → KeepsOptions c (if b then x else y)
if-KeepsOptions c true x y p q = p
if-KeepsOptions c false x y p q = q

after-KeepsOptions : (c c' : Ctx) (o : Options) → Keeps c c' → KeepsOptions c' o → KeepsOptions c o
after-KeepsOptions c c' o p q = record { keeps = Keeps-trans c c' (options_ctx o) p q.keeps }

Keeps-refl : (c : Ctx) → Keeps c c
Keeps-refl c =
    Keeps-apart c c.session.client c.session.authenticated c.client_name c.local_cmd_count (λ e. e)

hello_options-Keeps :
    (srv : Server) (args : List Bytes) (c : Ctx)
    → All (IsWrong srv) args
    → KeepsOptions c (hello_options srv args c)
unfolding hello_options
hello_options-Keeps srv [] c w = record { keeps = Keeps-refl c }
hello_options-Keeps srv (arg ∷ []) c w =
    if-KeepsOptions c (is_option (codes "AUTH") arg) _ _ (record { keeps = reply-Keeps _ c })
      (if-KeepsOptions c (is_option (codes "SETNAME") arg) _ _ (record { keeps = reply-Keeps _ c })
        (record { keeps = Keeps-refl c }))
hello_options-Keeps srv (arg ∷ a ∷ []) c w =
    if-KeepsOptions c (is_option (codes "AUTH") arg) _ _ (record { keeps = reply-Keeps _ c })
      (if-KeepsOptions c (is_option (codes "SETNAME") arg) _ _ (record { keeps = named-Keeps a c })
        (hello_options-Keeps srv (a ∷ []) c w.1))
hello_options-Keeps srv (arg ∷ a ∷ b ∷ args) c w =
    let c' = handle_auth srv (a ∷ b ∷ []) c in
    let authed = handle_auth-Keeps srv (a ∷ b ∷ []) c (w.1.0, (w.1.1.0, tt)) in
    let c'' = record c { client_name = a } in
    if-KeepsOptions c (is_option (codes "AUTH") arg) _ _
      (if-KeepsOptions c c'.session.authenticated _ _
        (after-KeepsOptions c c' (hello_options srv args c') authed
          (hello_options-Keeps srv args c' w.1.1.1))
        (record { keeps = authed }))
      (if-KeepsOptions c (is_option (codes "SETNAME") arg) _ _
        (after-KeepsOptions c c'' (hello_options srv (b ∷ args) c'') (named-Keeps a c)
          (hello_options-Keeps srv (b ∷ args) c'' w.1.1))
        (hello_options-Keeps srv (a ∷ b ∷ args) c w.1))

finish_hello-Keeps :
    (srv : Server) (c : Ctx) (o : Options) → KeepsOptions c o → Keeps c (finish_hello srv o)
unfolding finish_hello
finish_hello-Keeps srv c (returned c') p = p.keeps
finish_hello-Keeps srv c (finished c') p =
    Keeps-trans c c' _ p.keeps
      (if-Keeps c' c'.session.authenticated _ _ (reply-Keeps _ c') (reply-Keeps _ c'))

handle_hello-Keeps :
    (srv : Server) (args : List Bytes) (c : Ctx)
    → All (IsWrong srv) args
    → Keeps c (handle_hello srv args c)
unfolding handle_hello
handle_hello-Keeps srv [] c w =
    finish_hello-Keeps srv c (finished c) (record { keeps = Keeps-refl c })
handle_hello-Keeps srv (proto ∷ args) c w =
    if-Keeps c (bytes_eq proto (codes "3")) _ _ (reply-Keeps _ c) (
      if-Keeps c (not (bytes_eq proto (codes "2")) && not (bytes_eq proto [])) _ _ (reply-Keeps _ c)
        (finish_hello-Keeps srv c (hello_options srv args c) (hello_options-Keeps srv args c w.1)))

handle_ping-Keeps : (args : List Bytes) (c : Ctx) → Keeps c (handle_ping args c)
unfolding handle_ping
handle_ping-Keeps [] c = reply-Keeps _ c
handle_ping-Keeps (msg ∷ more) c = reply-Keeps _ c
