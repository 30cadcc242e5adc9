-- ===== src/Engine/Handler/Once/Multi.antt =====
-- Each command of a transaction, and WATCH and UNWATCH, adds one answer.
use pluster.Prelude.{
  ℕ, ◌≡◌, refl, ◌∙◌, ap, subst, Bool, true, false, Option, none, some, List, [], ◌∷◌, Bytes,
  bytes_eq, codes, Bool-cases, Option-cases, inl, inr, if◌then◌else◌,
}
use pluster.Proto.Encode.{encode_simple_string}
use pluster.Proto.Slot.{hash_slot}
use pluster.Proto.Request.{Request}
use pluster.Proto.Command.Info.{CmdInfo, has_flag, flag_not_allowed}
use pluster.Proto.Command.{get_cmd_info}
use pluster.Cluster.{Topology, get_node_for_slot}
use pluster.Engine.Split.Route.{args_behind}
use pluster.Engine.Multi.{
  state_normal, Dedicated, Session, say, close_watch, close_multi, close_watch_of, close_multi_of,
  end_multi, discard_multi, reset_client_state, unwatch_on, handle_unwatch, Resolved, resolved,
  unresolved, resolve_multi_slot,
}
use pluster.Engine.Multi.Exec.{
  exec_on_dedicated, exec_at, exec_resolved, exec_queue, exec_watching, exec_multi, watching,
  exec_abort, empty_array,
}
use pluster.Engine.Multi.Dispatch.{
  Handled, stays, queue_command, nested, watch_inside, unwatch_inside, handle_in_multi,
  handle_multi, all_in_slot, drop_watch, watch_new, watch_again, watch_at, watch_served, watch_keys,
  handle_watch, ok_bytes, multi_from,
}
use pluster.Engine.Handler.Once.{Adds, alloc_response_slot-Adds, write_past-Adds, say-Adds}

-- One answer more.
pub record SaysOne (s s' : Session) : Type 0 where
  pub adds : Adds 1 s.client s'.client

say-SaysOne : (b : Bytes) (s : Session) → SaysOne s (say b s)
say-SaysOne b s = record { adds = say-Adds b s }

after-SaysOne : (b : Bytes) (s s' : Session) → s'.client ≡ s.client → SaysOne s (say b s')
after-SaysOne b s s' e = record { adds = subst (λ x. Adds 1 x (say b s').client) e (say-Adds b s') }

if-SaysOne :
    (s : Session) (b : Bool) (x y : Session)
    → SaysOne s x
    → SaysOne s y
    → SaysOne s (if b then x else y)
if-SaysOne s true x y p q = p
if-SaysOne s false x y p q = q

either-SaysOne :
    (s : Session) (b : Bool) (x y : Session × Option Dedicated)
    → SaysOne s x.0
    → SaysOne s y.0
    → SaysOne s (if b then x else y).0
either-SaysOne s true x y p q = p
either-SaysOne s false x y p q = q

close_watch-client : (s : Session) → (close_watch s).client ≡ s.client
unfolding close_watch
close_watch-client s = elim (Option-cases s.watch_backend) [
  | inl n ↦ ap (λ w. (close_watch_of w s).client) n
  | inr (d, n) ↦ ap (λ w. (close_watch_of w s).client) n
]

close_multi-client : (s : Session) → (close_multi s).client ≡ s.client
unfolding close_multi
close_multi-client s = elim (Option-cases s.multi_backend) [
  | inl n ↦ ap (λ w. (close_multi_of w s).client) n
  | inr (d, n) ↦ ap (λ w. (close_multi_of w s).client) n
]

pub reset_client_state-client : (s : Session) → (reset_client_state s).client ≡ s.client
unfolding reset_client_state
reset_client_state-client s =
    close_multi-client (close_watch (end_multi s)) ∙ close_watch-client (end_multi s)

exec_on_dedicated-SaysOne :
    (s : Session) (d : Dedicated) (b : Bool) → SaysOne s (exec_on_dedicated s d b).0
unfolding exec_on_dedicated
exec_on_dedicated-SaysOne s d true = record { adds = alloc_response_slot-Adds s.client }
exec_on_dedicated-SaysOne s d false = record { adds = alloc_response_slot-Adds s.client }

exec_at-SaysOne :
    (s : Session) (addr : Bytes) (d : Option Dedicated) → SaysOne s (exec_at s addr d).0
unfolding exec_at
exec_at-SaysOne s addr none = record { adds = alloc_response_slot-Adds s.client }
exec_at-SaysOne s addr (some d) = elim (Bool-cases (bytes_eq d.addr addr)) [
  | inl y ↦ rw y (exec_on_dedicated-SaysOne s d false)
  | inr n ↦ rw n (record { adds = alloc_response_slot-Adds s.client })
]

exec_resolved-SaysOne : (s : Session) (r : Resolved) → SaysOne s (exec_resolved s r).0
exec_resolved-SaysOne s (unresolved msg) = after-SaysOne _ s (end_multi s) refl
exec_resolved-SaysOne s (resolved addr) = exec_at-SaysOne s addr s.multi_backend

exec_queue-SaysOne :
    (t : Topology) (s : Session) (queue : List Request) → SaysOne s (exec_queue t s queue).0
exec_queue-SaysOne t s [] = record { adds = write_past-Adds empty_array (end_multi s) }
exec_queue-SaysOne t s (req ∷ queue) = exec_resolved-SaysOne s (resolve_multi_slot t (req ∷ queue))

exec_watching-SaysOne :
    (t : Topology) (s : Session) (d : Option Dedicated) → SaysOne s (exec_watching t s d).0
exec_watching-SaysOne t s none = exec_queue-SaysOne t s s.tx_queue
exec_watching-SaysOne t s (some d) = exec_on_dedicated-SaysOne s d true

exec_multi-SaysOne : (t : Topology) (s : Session) → SaysOne s (exec_multi t s).0
unfolding exec_multi
exec_multi-SaysOne t s =
    either-SaysOne s s.tx_err _ _
      (after-SaysOne exec_abort s (close_multi (close_watch (end_multi s)))
        (close_multi-client (close_watch (end_multi s)) ∙ close_watch-client (end_multi s)))
      (exec_watching-SaysOne t s (watching s.state s.watch_backend))

discard_multi-SaysOne : (s : Session) → SaysOne s (discard_multi s)
unfolding discard_multi
discard_multi-SaysOne s =
    after-SaysOne _ s (end_multi (close_multi (close_watch s)))
      (close_multi-client (close_watch s) ∙ close_watch-client s)

pub handle_unwatch-SaysOne : (s : Session) → SaysOne s (handle_unwatch s)
unfolding handle_unwatch
handle_unwatch-SaysOne s = elim (Option-cases s.watch_backend) [
  | inl n ↦
      after-SaysOne _ s (record (unwatch_on s.watch_backend s) { state = state_normal })
        (ap (λ w. (unwatch_on w s).client) n)
  | inr (d, n) ↦
      after-SaysOne _ s (record (unwatch_on s.watch_backend s) { state = state_normal })
        (ap (λ w. (unwatch_on w s).client) n)
]

pub handle_multi-SaysOne : (s : Session) → SaysOne s (handle_multi s)
unfolding handle_multi
handle_multi-SaysOne s =
    after-SaysOne ok_bytes s
      (record s { state = multi_from s.state; tx_queue = []; tx_err = false }) refl

queue_command-SaysOne :
    (s : Session) (req : Request) (info : Option CmdInfo) → SaysOne s (queue_command s req info)
queue_command-SaysOne s req none = after-SaysOne _ s (record s { tx_err = true }) refl
queue_command-SaysOne s req (some info) =
    if-SaysOne s (has_flag info flag_not_allowed) _ _
      (after-SaysOne _ s (record s { tx_err = true }) refl)
      (after-SaysOne _ s (record s { tx_queue = _ }) refl)

-- Of what a handler of a transaction returns.
record HandledOnce (s : Session) (h : Handled) : Type 0 where
  adds : SaysOne s h.session

if-HandledOnce :
    (s : Session) (b : Bool) (x y : Handled)
    → HandledOnce s x
    → HandledOnce s y
    → HandledOnce s (if b then x else y)
if-HandledOnce s true x y p q = p
if-HandledOnce s false x y p q = q

said-HandledOnce : (b : Bytes) (s : Session) → HandledOnce s (stays (say b s))
said-HandledOnce b s = record { adds = say-SaysOne b s }

pub handle_in_multi-SaysOne :
    (t : Topology) (s : Session) (req : Request) → SaysOne s (handle_in_multi t s req).session
unfolding handle_in_multi
handle_in_multi-SaysOne t s req =
    (if-HandledOnce s (bytes_eq req.cmd (codes "EXEC")) _ _
      (record { adds = exec_multi-SaysOne t s })
      (if-HandledOnce s (bytes_eq req.cmd (codes "DISCARD")) _ _
        (record { adds = discard_multi-SaysOne s })
        (if-HandledOnce s (bytes_eq req.cmd (codes "MULTI")) _ _ (said-HandledOnce nested s) (
          if-HandledOnce s (bytes_eq req.cmd (codes "WATCH")) _ _ (said-HandledOnce watch_inside s)
            (if-HandledOnce s (bytes_eq req.cmd (codes "UNWATCH")) _ _
              (said-HandledOnce unwatch_inside s)
              (if-HandledOnce s (bytes_eq req.cmd (codes "RESET")) _ _
                (record {
                  adds =
                      after-SaysOne (encode_simple_string (codes "RESET")) s (reset_client_state s)
                        (reset_client_state-client s);
                })
                (if-HandledOnce s (bytes_eq req.cmd (codes "QUIT")) _ _
                  (record { adds = record { adds = write_past-Adds ok_bytes s } })
                  (record { adds = queue_command-SaysOne s req (get_cmd_info req.cmd) })))))))).adds

drop_watch-client : (d : Option Dedicated) (s : Session) → (drop_watch d s).client ≡ s.client
drop_watch-client none s = refl
drop_watch-client (some d) s = refl

watch_at-SaysOne :
    (s : Session) (req : Request) (addr : Bytes) (d : Option Dedicated)
    → SaysOne s (watch_at s req addr d)
watch_at-SaysOne s req addr none = record { adds = alloc_response_slot-Adds s.client }
watch_at-SaysOne s req addr (some d) =
    if-SaysOne s (bytes_eq s.watch_addr addr) (watch_again s req d) (watch_new s req addr)
      (record { adds = alloc_response_slot-Adds s.client })
      (record { adds = alloc_response_slot-Adds s.client })

watch_served-SaysOne :
    (s : Session) (req : Request) (slot : ℕ) (addr : Option Bytes)
    → SaysOne s (watch_served s req slot addr)
watch_served-SaysOne s req slot none = say-SaysOne _ s
watch_served-SaysOne s req slot (some addr) = watch_at-SaysOne s req addr s.watch_backend

pub handle_watch-SaysOne :
    (t : Topology) (s : Session) (req : Request) → SaysOne s (handle_watch t s req)
unfolding handle_watch
handle_watch-SaysOne t s req = of_keys (args_behind req.args)
  where
    of_keys : (keys : List Bytes) → SaysOne s (watch_keys t s req keys)
    of_keys [] = say-SaysOne _ s
    of_keys (k ∷ ks) =
        if-SaysOne s (all_in_slot (hash_slot k) ks) _ _
          (watch_served-SaysOne s req (hash_slot k) (get_node_for_slot t (hash_slot k)))
          (say-SaysOne _ s)
