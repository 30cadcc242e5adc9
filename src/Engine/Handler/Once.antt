-- ===== src/Engine/Handler/Once.antt =====
-- How many answers a client has got or waits for, over the commands that the proxy answers itself.
pub mod Proxy
pub mod Multi
pub mod Dispatch
use pluster.Prelude.{
  ℕ, zero, suc, ◌+◌, ◌-◌, ◌≡◌, ◌⊎◌, inl, inr, refl, sym, ◌∙◌, ap, subst, Bool, true, false, not,
  ◌&&◌, ◌||◌, Option, none, some, List, [], ◌∷◌, ◌++◌, map, arith, length, length-append,
  length-map, take, drop, ltb, if◌then◌else◌, Bytes, bytes_eq, codes, ◌==◌, Bool-cases,
}
use pluster.Proto.Value.{Value, integer}
use pluster.Proto.Encode.{encode_value, encode_error, encode_simple_string, encode_bulk_string}
use pluster.Proto.Request.{Request, upper}
use pluster.Proto.Int64.{is_negative}
use pluster.Router.Redirect.{atoi}
use pluster.Cluster.{all_masters}
use pluster.Engine.Responses.{
  Slot, Client, alloc_response_slot, empty_slot, update_slot, with_data, out_of_window,
  ready_prefix, fill_response_slot_in_loop,
}
use pluster.Engine.Mux.{Mux}
use pluster.Engine.Split.Route.{lower, write_immediate}
use pluster.Engine.Multi.{Session, say, write_past}
use pluster.Engine.Handler.{
  Server, Ctx, Action, reply, reply_error, reply_simple, reply_bulk, submit, RouterCall,
  call_execute,
}
use pluster.Engine.Handler.Local.{
  handle_ping, handle_echo, handle_select, handle_no_args, handle_auth, check_password, auth_with,
  no_password, with_authenticated, handle_cluster, handle_cluster_nodes, handle_cluster_connection,
  cluster_via_router, master_lines, handle_client_cmd, set_name, name_or_default, client_line,
  client_ignored, is_any, wrong_arguments, max_client_name_len,
}

-- The answers that have been written to a client and those that it waits for.
abbrev pub total : Client → ℕ
total c = length c.written + length c.queue

abbrev pub Adds : ℕ → Client → Client → Type 0
Adds n c c' = total c' ≡ total c + n

-- One answer more.
pub record Once (c c' : Ctx) : Type 0 where
  pub adds : Adds 1 c.session.client c'.session.client

take-drop :
    (n : ℕ) (slots : List Slot) → length (take n slots) + length (drop n slots) ≡ length slots
take-drop zero slots = omega arith
take-drop (suc n) [] = omega arith
take-drop (suc n) (s ∷ slots) = omega (arith, take-drop n slots)

length-update_slot :
    (i : ℕ) (f : Slot → Slot) (slots : List Slot) → length (update_slot i f slots) ≡ length slots
length-update_slot i f [] = refl
length-update_slot zero f (s ∷ slots) = refl
length-update_slot (suc i) f (s ∷ slots) = ap suc (length-update_slot i f slots)

-- Filling a slot makes no answers.
pub fill_response_slot_in_loop-Adds :
    (c : Client) (i : ℕ) (b : Bytes) → Adds 0 c (fill_response_slot_in_loop c i b)
unfolding fill_response_slot_in_loop
fill_response_slot_in_loop-Adds c i b = elim (Bool-cases (out_of_window c i)) [
  | inl y ↦ rw y (omega arith)
  | inr n ↦
      let slots = update_slot (i - c.base) (with_data b) c.queue in
      let head = ready_prefix slots in
      rw n (
        omega (
          arith,
          length-append c.written (map (λ (s : Slot). s.bytes) (take head slots)),
          length-map (λ (s : Slot). s.bytes) (take head slots),
          take-drop head slots,
          length-update_slot (i - c.base) (with_data b) c.queue,
        ))
]

pub alloc_response_slot-Adds : (c : Client) → Adds 1 c (alloc_response_slot c).0
unfolding alloc_response_slot
alloc_response_slot-Adds c = omega (arith, length-append c.queue (empty_slot ∷ []))

pub write_past-Adds : (b : Bytes) (s : Session) → Adds 1 s.client (write_past b s).client
unfolding write_past
write_past-Adds b s = omega (arith, length-append s.client.written (b ∷ []))

pub write_immediate-Adds :
    (id : ℕ) (c : Client) (m : Mux) (b : Bytes) → Adds 1 c (write_immediate id c m b).client
unfolding write_immediate
write_immediate-Adds id c m b = elim (Bool-cases (length c.queue == 0)) [
  | inl e ↦ rw e (omega (arith, length-append c.written (b ∷ [])))
  | inr e ↦ rw e (alloc_response_slot-Adds c)
]

pub say-Adds : (b : Bytes) (s : Session) → Adds 1 s.client (say b s).client
unfolding say
say-Adds b s = write_immediate-Adds s.id s.client s.mux b

pub reply-Once : (b : Bytes) (c : Ctx) → Once c (reply b c)
unfolding reply
reply-Once b c = record { adds = say-Adds b c.session }

-- The same, where something else has changed too.
pub reply-after-Once :
    (b : Bytes) (c c' : Ctx) → c'.session.client ≡ c.session.client → Once c (reply b c')
unfolding reply
reply-after-Once b c c' e = record {
  adds = subst (λ x. Adds 1 x (say b c'.session).client) e (say-Adds b c'.session);
}

pub submit-Once :
    (call : ℕ → Request → RouterCall) (req : Request) (c : Ctx) → Once c (submit call req c)
unfolding submit
submit-Once call req c = record { adds = alloc_response_slot-Adds c.session.client }

pub if-Once : (c : Ctx) (b : Bool) (x y : Ctx) → Once c x → Once c y → Once c (if b then x else y)
if-Once c true x y p q = p
if-Once c false x y p q = q

pub handle_ping-Once : (args : List Bytes) (c : Ctx) → Once c (handle_ping args c)
unfolding handle_ping
handle_ping-Once [] c = reply-Once _ c
handle_ping-Once (msg ∷ more) c = reply-Once _ c

pub handle_echo-Once : (args : List Bytes) (c : Ctx) → Once c (handle_echo args c)
unfolding handle_echo
handle_echo-Once [] c = reply-Once _ c
handle_echo-Once (msg ∷ []) c = reply-Once _ c
handle_echo-Once (msg ∷ b ∷ more) c = reply-Once _ c

pub handle_select-Once : (args : List Bytes) (c : Ctx) → Once c (handle_select args c)
unfolding handle_select
handle_select-Once [] c = reply-Once _ c
handle_select-Once (db ∷ []) c = if-Once c _ _ _ (reply-Once _ c) (reply-Once _ c)
handle_select-Once (db ∷ b ∷ more) c = reply-Once _ c

pub handle_no_args-Once :
    (name : Bytes) (args : List Bytes) (c : Ctx) → Once c (handle_no_args name args c)
unfolding handle_no_args
handle_no_args-Once name [] c = reply-Once _ c
handle_no_args-Once name (a ∷ args) c = reply-Once _ c

check_password-Once :
    (srv : Server) (provided : Bytes) (c : Ctx) → Once c (check_password srv provided c)
check_password-Once srv provided c =
    if-Once c _ _ _ (reply-after-Once _ c (with_authenticated true c) refl)
      (reply-after-Once _ c (with_authenticated false c) refl)

pub handle_auth-Once :
    (srv : Server) (args : List Bytes) (c : Ctx) → Once c (handle_auth srv args c)
unfolding handle_auth
handle_auth-Once srv args c =
    if-Once c (bytes_eq srv.client_password []) _ _ (reply-Once _ c) (with_args args)
  where
    with_args : (args : List Bytes) → Once c (auth_with srv args c)
    with_args [] = reply-Once _ c
    with_args (p ∷ []) = check_password-Once srv p c
    with_args (u ∷ p ∷ []) = check_password-Once srv p c
    with_args (u ∷ p ∷ x ∷ xs) = reply-Once _ c

pub handle_cluster-Once :
    (srv : Server) (req : Request) (args : List Bytes) (c : Ctx)
    → Once c (handle_cluster srv req args c)
unfolding handle_cluster handle_cluster_nodes handle_cluster_connection
handle_cluster-Once srv req [] c = reply-Once _ c
handle_cluster-Once srv req (s ∷ args) c = search (if-Once, reply-Once, submit-Once)

set_name-Once : (args : List Bytes) (c : Ctx) → Once c (set_name args c)
set_name-Once [] c = reply-Once _ c
set_name-Once (name ∷ args) c =
    if-Once c (ltb max_client_name_len (length name)) _ _ (reply-Once _ c)
      (reply-after-Once _ c (record c { client_name = name }) refl)

pub handle_client_cmd-Once :
    (srv : Server) (args : List Bytes) (c : Ctx) → Once c (handle_client_cmd srv args c)
unfolding handle_client_cmd
handle_client_cmd-Once srv [] c = reply-Once _ c
handle_client_cmd-Once srv (s ∷ args) c =
    if-Once c (bytes_eq (upper s) (codes "SETNAME")) _ _ (set_name-Once args c)
      (search (if-Once, reply-Once))
