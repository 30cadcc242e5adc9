-- ===== src/Engine/Handler/Replies/Watch.antt =====
-- The connection of WATCH where the nodes have a password, of pkg/engine/handler.go: AUTH and WATCH are
-- sent one behind the other, without waiting for the reply to AUTH.
use pluster.Prelude.{
  ℕ, ◌≡◌, refl, false, Option, none, some, [], ◌∷◌, ◌++◌, if◌then◌else◌, Bytes, codes,
}
use mathlib.Core.Option
use pluster.Proto.Outcome.{Outcome, ok, ◌>>=◌}
use pluster.Proto.Value.{Value, error, is_error, is_moved_error}
use pluster.Proto.Encode.{encode_error, encode_value}
use pluster.Proto.Request.{Request}
use pluster.Engine.Responses.{fill_response_slot_in_loop}
use pluster.Engine.Pubsub.Shared.{auth_args}
use pluster.Engine.Multi.{Respond, auth_done, watch_done, Dedicated, Session}
use pluster.Engine.Multi.Exec.{push_command}
use pluster.Engine.Multi.Dispatch.{open_watch_of}
use pluster.Engine.Handler.{Server, Ctx}
use pluster.Engine.Handler.Replies.{error_text, on_watch_reply, drain_pending_cmds}

-- `authDedicatedConn`, and what it does with the reply to AUTH.
abbrev pub auth_dedicated : Bytes → Bytes → Dedicated → Dedicated
auth_dedicated username [] d = d
auth_dedicated username (p ∷ password) d =
    push_command (auth_args username (p ∷ password)) auth_done d

abbrev pub fill_watch : Bytes → Ctx → Ctx
fill_watch b c = record c {
  session = record c.session {
    client = fill_response_slot_in_loop c.session.client c.session.pending_watch_slot b;
  };
}

unfoldable pub on_watch_auth : Value → Ctx → Ctx
unfolding fill_response_slot_in_loop is_error encode_error
on_watch_auth v c =
    if is_error v
    then fill_watch (encode_error (codes "ERR backend auth failed: " ++ error_text v)) c
    else c

-- The last branch of `onBackendOpen`.
unfoldable pub on_watch_open : Bytes → Bytes → Session → Session
unfolding push_command
on_watch_open username password s =
    open_watch_of s.pending_watch_req s
      (auth_dedicated username password (record { addr = s.watch_addr; pending = []; sent = [] }))

-- `onBackendTraffic`, for a reply on this connection.
abbrev pub with_watch : Dedicated → Ctx → Ctx
with_watch d c = record c { session = record c.session { watch_backend = some d } }

abbrev pub watch_respond : Server → Value → Respond → Ctx → Outcome Ctx
watch_respond srv v auth_done c = ok (on_watch_auth v c)
watch_respond srv v (watch_done i req) c = on_watch_reply srv i req v c
watch_respond srv v _ c = ok c

abbrev pub watch_reply_of : Server → Value → Ctx → Option Dedicated → Outcome Ctx
watch_reply_of srv v c none = ok c
watch_reply_of srv v c (some d) = elim d.pending [
  | [] ↦ ok c
  | r ∷ rs ↦ watch_respond srv v r (with_watch (record d { pending = rs }) c)
]

unfoldable pub on_watch_traffic : Server → Value → Ctx → Outcome Ctx
unfolding on_watch_auth on_watch_reply
on_watch_traffic srv v c = watch_reply_of srv v c c.session.watch_backend

-- `onBackendClose`, for this connection, and for one that is kept for the next transaction: no slot is
-- filled.
unfoldable pub on_watch_close : Session → Session
on_watch_close s = record s { watch_backend = none }

unfoldable pub on_multi_close : Session → Session
on_multi_close s = record s { multi_backend = none }

-- A client whose WATCH has failed: its state is as before, its slot has been filled with the error of
-- AUTH, and again with that of WATCH, which has no effect where the first has been written already;
-- the connection of WATCH is kept, and expects nothing more.
record IsRefused (auth watch : Bytes) (before after : Ctx) : Type 0 where
  state : after.session.state ≡ before.session.state
  client :
      after.session.client
      ≡ fill_response_slot_in_loop
          (fill_response_slot_in_loop before.session.client before.session.pending_watch_slot
            (encode_error (codes "ERR backend auth failed: " ++ auth)))
          before.session.pending_watch_slot
          (encode_value (error watch))
  pending : Option.map (λ (d : Dedicated). d.pending) after.session.watch_backend ≡ some []

module _ (srv : Server) (username : Bytes) (p : ℕ) (password : Bytes) where
  abbrev opened : Ctx → Ctx
  opened c = record c { session = on_watch_open username (p ∷ password) c.session }

  -- Where a node refuses AUTH on the connection of WATCH, and then WATCH, both replies are taken, in
  -- that order, and the client is no watcher.
  on_watch_traffic-IsRefused :
      (c : Ctx) (req : Request) (auth watch : Bytes)
      → c.session.pending_watch_req ≡ some req
      → c.session.pending_cmds ≡ []
      → is_moved_error (error watch) ≡ false
      → (c' : Ctx) × ((on_watch_traffic srv (error auth) (opened c)
            >>= on_watch_traffic srv (error watch))
          ≡ ok c')
        × IsRefused auth watch c c'
  unfolding on_watch_traffic on_watch_open on_watch_auth on_watch_reply is_error drain_pending_cmds
      push_command
  on_watch_traffic-IsRefused c req auth watch e h m =
      let d =
        auth_dedicated username (p ∷ password)
          (record { addr = c.session.watch_addr; pending = []; sent = [] }) in
      let i = c.session.pending_watch_slot in
      let after = record c {
        session = record c.session {
          client =
              fill_response_slot_in_loop
                (fill_response_slot_in_loop c.session.client i
                  (encode_error (codes "ERR backend auth failed: " ++ auth)))
                i (encode_value (error watch));
          watch_backend =
              some (record (push_command req.args (watch_done i req) d) { pending = [] });
          pending_watch_req = none;
        };
      } in
      (after, rw (e, m, h) refl, record { state = refl; client = refl; pending = refl })
