-- ===== src/Engine/Multi/Exec/Laws.antt =====
-- What `execMulti` keeps, and a transaction on its connection from MULTI to the reply of EXEC.
use pluster.Prelude.{
  ℕ, ◌≡◌, inl, inr, refl, ap, ◌∙◌, Bool, true, false, Option, none, some, List, [], ◌∷◌, ◌++◌,
  append-nil, append_assoc, arith, Bytes, bytes_eq, codes, length, Bool-cases, Option-cases,
}
use pluster.Proto.Encode.{encode_value, encode_error, encode_command_bytes}
use pluster.Proto.Value.{Value, is_error}
use pluster.Proto.Request.{Request}
use pluster.Cluster.{Topology}
use pluster.Engine.Responses.{Client, alloc_response_slot, fill_response_slot_in_loop}
use pluster.Engine.Multi.{
  state_normal, Respond, multi_done, nothing, exec_done, Dedicated, Session, say, write_past,
  close_watch, close_multi, end_multi, Resolved, resolved, unresolved,
}
use pluster.Engine.Multi.Exec.{
  push_command, exec_on_dedicated, watching, exec_at, exec_resolved, exec_queue, exec_watching,
  exec_multi, exec_abort, empty_array, push_queue, respond_to, next_reply, replies_from,
}

-- The transaction is over for the session.
abbrev pub Ended : Session → Type 0
Ended s = (s.state ≡ state_normal) × (s.tx_queue ≡ []) × (s.tx_err ≡ false)

say-Ended : (b : Bytes) (s : Session) → Ended s → Ended (say b s)
unfolding say
say-Ended b s e = e

close_watch-Ended : (s : Session) → Ended s → Ended (close_watch s)
unfolding close_watch
close_watch-Ended s e = elim (Option-cases s.watch_backend) [ inl n ↦ rw n e | inr (d, n) ↦ rw n e ]

close_multi-Ended : (s : Session) → Ended s → Ended (close_multi s)
unfolding close_multi
close_multi-Ended s e = elim (Option-cases s.multi_backend) [ inl n ↦ rw n e | inr (d, n) ↦ rw n e ]

exec_on_dedicated-Ended :
    (s : Session) (d : Dedicated) (after : Bool) → Ended (exec_on_dedicated s d after).0
unfolding exec_on_dedicated
exec_on_dedicated-Ended s d true = (refl, refl, refl)
exec_on_dedicated-Ended s d false = (refl, refl, refl)

exec_at-Ended : (s : Session) (addr : Bytes) (d : Option Dedicated) → Ended (exec_at s addr d).0
unfolding exec_at
exec_at-Ended s addr none = (refl, refl, refl)
exec_at-Ended s addr (some d) = elim (Bool-cases (bytes_eq d.addr addr)) [
  | inl e ↦ rw e (exec_on_dedicated-Ended s d false)
  | inr e ↦ rw e (refl, refl, refl)
]

exec_resolved-Ended : (s : Session) (r : Resolved) → Ended (exec_resolved s r).0
exec_resolved-Ended s (unresolved msg) =
    say-Ended (encode_error msg) (end_multi s) (refl, refl, refl)
exec_resolved-Ended s (resolved addr) = exec_at-Ended s addr s.multi_backend

exec_queue-Ended :
    (t : Topology) (s : Session) (queue : List Request) → Ended (exec_queue t s queue).0
unfolding write_past
exec_queue-Ended t s [] = (refl, refl, refl)
exec_queue-Ended t s (req ∷ queue) = exec_resolved-Ended s _

exec_watching-Ended :
    (t : Topology) (s : Session) (d : Option Dedicated) → Ended (exec_watching t s d).0
exec_watching-Ended t s (some d) = exec_on_dedicated-Ended s d true
exec_watching-Ended t s none = exec_queue-Ended t s s.tx_queue

-- However EXEC ends, in an error, in an empty answer or on a connection of its own, the client is
-- outside of a transaction again, with an empty queue and no error left over.
pub exec_multi-Ended :
    (t : Topology) (s : Session)
    → ((exec_multi t s).0.state ≡ state_normal)
      × ((exec_multi t s).0.tx_queue ≡ [])
      × ((exec_multi t s).0.tx_err ≡ false)
unfolding exec_multi
exec_multi-Ended t s = elim (Bool-cases s.tx_err) [
  | inl e ↦ rw e (
      say-Ended exec_abort (close_multi (close_watch (end_multi s))) (
        close_multi-Ended (close_watch (end_multi s))
          (close_watch-Ended (end_multi s) (refl, refl, refl))))
  | inr e ↦ rw e (exec_watching-Ended t s (watching s.state s.watch_backend))
]

-- The bytes of queued commands.
abbrev pub commands : List Request → Bytes
commands [] = []
commands (req ∷ queue) = encode_command_bytes req.args ++ commands queue

-- A reply for each queued command.
abbrev pub ignored : List Request → List Respond
ignored [] = []
ignored (req ∷ queue) = nothing ∷ ignored queue

push_queue-eq :
    (queue : List Request) (d : Dedicated)
    → push_queue queue d
      ≡ record d { pending = d.pending ++ ignored queue; sent = d.sent ++ commands queue }
unfolding push_queue push_command
push_queue-eq [] d = simp append-nil
push_queue-eq (req ∷ queue) d =
    push_queue-eq queue (push_command req.args nothing d) ∙ simp append_assoc

-- The connection once MULTI has been answered.
abbrev pub started : Dedicated → ℕ → List Request → Dedicated
started d i queue = record {
  addr = d.addr;
  pending = ignored queue ++ exec_done i ∷ [];
  sent =
      ((d.sent ++ encode_command_bytes (codes "MULTI" ∷ [])) ++ commands queue)
      ++ encode_command_bytes (codes "EXEC" ∷ []);
}

replies-ignored :
    (queue : List Request) (qs : List Value) (r : Value) (i : ℕ) (c : Client) (d : Dedicated)
    → length qs ≡ length queue
    → d.pending ≡ ignored queue ++ exec_done i ∷ []
    → replies_from (qs ++ r ∷ []) (c, some d)
      ≡ (fill_response_slot_in_loop c i (encode_value r), none)
unfolding replies_from respond_to
replies-ignored [] [] r i c d l p = ap (λ rs. next_reply rs r (c, d)) p
replies-ignored [] (q ∷ qs) r i c d l p = absurd (omega arith)
replies-ignored (req ∷ queue) [] r i c d l p = absurd (omega arith)
replies-ignored (req ∷ queue) (q ∷ qs) r i c d l p =
    ap (λ rs. replies_from (qs ++ r ∷ []) (next_reply rs q (c, d))) p
    ∙ replies-ignored queue qs r i c (record d { pending = ignored queue ++ exec_done i ∷ [] })
        (omega arith) refl

multi-started :
    (i : ℕ) (queue : List Request) (v : Value) (c : Client) (d : Dedicated)
    → is_error v ≡ false
    → d.pending ≡ []
    → respond_to (multi_done i queue) v (c, d) ≡ (
      c,
      some (record {
        addr = d.addr;
        pending = ignored queue ++ exec_done i ∷ [];
        sent = (d.sent ++ commands queue) ++ encode_command_bytes (codes "EXEC" ∷ []);
      }),
    )
unfolding respond_to push_command
multi-started i queue v c d e p = rw (respond_to, e, push_queue-eq queue d, p) refl

first_reply :
    (i : ℕ) (queue : List Request) (v : Value) (vs : List Value) (c : Client) (d : Dedicated)
    → d.pending ≡ []
    → is_error v ≡ false
    → replies_from (v ∷ vs) (c, some (push_command (codes "MULTI" ∷ []) (multi_done i queue) d))
      ≡ replies_from vs (c, some (started d i queue))
unfolding replies_from push_command
first_reply i queue v vs c d p e =
    let begun = push_command (codes "MULTI" ∷ []) (multi_done i queue) d in
    ap (λ rs. replies_from vs (next_reply (rs ++ multi_done i queue ∷ []) v (c, begun))) p
    ∙ ap (replies_from vs) (multi-started i queue v c (record begun { pending = [] }) e refl)

-- A transaction on a dedicated connection that waits for nothing else: MULTI is sent first; when it
-- has been answered without an error, the queued commands and EXEC have been sent behind it, in that
-- order; and when all of these have been answered, the reply to EXEC, encoded, is the answer to the
-- client's EXEC, and the connection is closed.
pub exec_on_dedicated-runs :
    (s : Session) (d : Dedicated) (after : Bool) (v : Value) (qs : List Value) (r : Value)
    → d.pending ≡ []
    → is_error v ≡ false
    → length qs ≡ length s.tx_queue
    → (replies_from (v ∷ []) (s.client, some (exec_on_dedicated s d after).1)
        ≡ (s.client, some (started d (alloc_response_slot s.client).1 s.tx_queue)))
      × (replies_from
            (v ∷ (qs ++ r ∷ []))
            ((exec_on_dedicated s d after).0.client, some (exec_on_dedicated s d after).1)
          ≡ (
            fill_response_slot_in_loop
                (exec_on_dedicated s d after).0.client
                (alloc_response_slot s.client).1
                (encode_value r),
            none,
          ))
unfolding replies_from exec_on_dedicated push_command
exec_on_dedicated-runs s d after v qs r p e l =
    let i = (alloc_response_slot s.client).1 in
    let c = (exec_on_dedicated s d after).0.client in
    (
      first_reply i s.tx_queue v [] s.client d p e,
      first_reply i s.tx_queue v (qs ++ r ∷ []) c d p e
          ∙ replies-ignored s.tx_queue qs r i c (started d i s.tx_queue) l refl,
    )

-- EXEC of a transaction without commands, outside of WATCH and without an error, is answered past the
-- queue of responses: the answer is written at once, and the requests that wait still wait.
pub exec_multi-empty :
    (t : Topology) (s : Session)
    → s.tx_err ≡ false
    → s.tx_queue ≡ []
    → watching s.state s.watch_backend ≡ none
    → ((exec_multi t s).0.client.written ≡ s.client.written ++ empty_array ∷ [])
      × ((exec_multi t s).0.client.queue ≡ s.client.queue)
unfolding exec_multi write_past
exec_multi-empty t s e q w =
    let same : exec_multi t s ≡ (write_past empty_array (end_multi s), none) =
      rw (e, w) (ap (exec_queue t s) q) in
    (ap (λ r. r.0.client.written) same, ap (λ r. r.0.client.queue) same)
