-- ===== src/Engine/Multi/Dispatch/Laws.antt =====
-- Inside a transaction commands are queued and nothing is sent; and what becomes of a client whose
-- WATCH has no connection.
use pluster.Prelude.{
  ◌≡◌, ◌⊎◌, inl, inr, refl, ◌∙◌, Bool, true, false, Option, none, some, List, [], ◌∷◌, ◌++◌,
  append-nil, append_assoc, Bytes, bytes_eq, codes, All, if◌then◌else◌, Bool-cases,
}
use pluster.Proto.Request.{Request}
use pluster.Proto.Command.Info.{CmdInfo, has_flag, flag_not_allowed}
use pluster.Proto.Command.{get_cmd_info}
use pluster.Cluster.{Topology}
use pluster.Engine.Split.Safe.{OneAnswer, write_immediate-Answers}
use pluster.Engine.Multi.{Session, say}
use pluster.Engine.Multi.Dispatch.{
  Handled, stays, queue_command, nested, watch_inside, unwatch_inside, handle_in_multi,
  before_switch, watch_dial_failed,
}

say-OneAnswer : (b : Bytes) (s : Session) → OneAnswer s.client (say b s).client
unfolding say
say-OneAnswer b s = (write_immediate-Answers s.id s.client s.mux b).0

-- What a command does that is queued or refused: one answer, and nothing is sent or changed but the
-- queue of the transaction, and whether it has an error.
abbrev pub Queues : Session → Request → Handled → Type 0
Queues s req h =
    (h.begun ≡ none)
    × (h.closes ≡ false)
    × (h.session.mux ≡ s.mux)
    × (h.session.state ≡ s.state)
    × (h.session.watch_backend ≡ s.watch_backend)
    × (h.session.multi_backend ≡ s.multi_backend)
    × ((h.session.tx_queue ≡ s.tx_queue) ⊎ (h.session.tx_queue ≡ s.tx_queue ++ req ∷ []))
    × OneAnswer s.client h.session.client

say-Queues : (b : Bytes) (s : Session) (req : Request) → Queues s req (stays (say b s))
unfolding say
say-Queues b s req = (refl, refl, refl, refl, refl, refl, inl refl, say-OneAnswer b s)

queue_command-Queues :
    (s : Session) (req : Request) (info : Option CmdInfo)
    → Queues s req (stays (queue_command s req info))
unfolding say
queue_command-Queues s req none =
    (refl, refl, refl, refl, refl, refl, inl refl, say-OneAnswer _ (record s { tx_err = true }))
queue_command-Queues s req (some info) = elim (Bool-cases (has_flag info flag_not_allowed)) [
  | inl e ↦
      rw e
        (refl, refl, refl, refl, refl, refl, inl refl, say-OneAnswer _ (record s { tx_err = true }))
  | inr e ↦ rw e (
    refl,
    refl,
    refl,
    refl,
    refl,
    refl,
    inr refl,
    say-OneAnswer _ (record s { tx_queue = s.tx_queue ++ req ∷ [] }),
  )
]

if-Queues :
    (s : Session) (req : Request) (b : Bool) (x y : Handled)
    → Queues s req x
    → Queues s req y
    → Queues s req (if b then x else y)
if-Queues s req true x y p q = p
if-Queues s req false x y p q = q

-- Inside a transaction every command but EXEC, DISCARD, RESET and QUIT is answered once, and is
-- queued at most: nothing is sent to the mux or to a dedicated connection, the client stays inside of
-- the transaction, and the queue is as before or has the command at its end.
pub handle_in_multi-Queues :
    (t : Topology) (s : Session) (req : Request)
    → bytes_eq req.cmd (codes "EXEC") ≡ false
    → bytes_eq req.cmd (codes "DISCARD") ≡ false
    → bytes_eq req.cmd (codes "RESET") ≡ false
    → bytes_eq req.cmd (codes "QUIT") ≡ false
    → Queues s req (handle_in_multi t s req)
unfolding handle_in_multi
handle_in_multi-Queues t s req e d r q =
    rw (e, d, r, q)
      (if-Queues s req (bytes_eq req.cmd (codes "MULTI")) _ _ (say-Queues nested s req) (
        if-Queues s req (bytes_eq req.cmd (codes "WATCH")) _ _ (say-Queues watch_inside s req) (
          if-Queues s req (bytes_eq req.cmd (codes "UNWATCH")) _ _ (say-Queues unwatch_inside s req)
            (queue_command-Queues s req (get_cmd_info req.cmd)))))

-- Requests one after another, while `handleNormal` goes no further than to its switch.
abbrev pub feed : List Request → Session → Option Session
feed [] s = some s
feed (req ∷ reqs) s = elim (before_switch s req) [ none ↦ none | some s' ↦ feed reqs s' ]

abbrev pub Ordinary : Request → Type 0
Ordinary req =
    (bytes_eq req.cmd (codes "QUIT") ≡ false) × (bytes_eq req.cmd (codes "RESET") ≡ false)

before_switch-buffers :
    (s : Session) (req watch : Request)
    → s.authenticated ≡ true
    → s.pending_watch_req ≡ some watch
    → Ordinary req
    → before_switch s req ≡ some (record s { pending_cmds = s.pending_cmds ++ req ∷ [] })
unfolding before_switch
before_switch-buffers s req watch a w (q, r) = rw (before_switch, a, w, q, r) refl

feed-buffers :
    (reqs : List Request) (s : Session) (watch : Request)
    → s.authenticated ≡ true
    → s.pending_watch_req ≡ some watch
    → All Ordinary reqs
    → feed reqs s ≡ some (record s { pending_cmds = s.pending_cmds ++ reqs })
feed-buffers [] s watch a w o = simp append-nil
feed-buffers (req ∷ reqs) s watch a w o =
    rw (feed, before_switch-buffers s req watch a w o.0)
      (feed-buffers reqs (record s { pending_cmds = s.pending_cmds ++ req ∷ [] }) watch a w o.1
        ∙ simp append_assoc)

-- Where the dial for WATCH has failed, no later request of the client is answered, however many
-- come: each is buffered, as while the dial went on, unless it is QUIT or RESET.
pub watch_dial_failed-buffers :
    (msg : Bytes) (s : Session) (watch : Request) (reqs : List Request)
    → s.authenticated ≡ true
    → s.pending_watch_req ≡ some watch
    → All Ordinary reqs
    → feed reqs (watch_dial_failed msg s)
      ≡ some (record (watch_dial_failed msg s) { pending_cmds = s.pending_cmds ++ reqs })
unfolding watch_dial_failed
watch_dial_failed-buffers msg s watch reqs a w o =
    feed-buffers reqs (watch_dial_failed msg s) watch a w o
