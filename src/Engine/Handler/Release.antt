-- ===== src/Engine/Handler/Release.antt =====
-- `onClientClose` of pkg/engine/handler.go, behind its counters: what a client that goes gives back.
-- `subBackend` is never set, for nothing dials with `isSubConn` for a client. What `OnClose` does for
-- the connections that are closed here is left out.
pub mod Released
use pluster.Prelude.{ℕ, Bool, true, false, Option, none, some, List, [], ◌∷◌, ◌++◌, if◌then◌else◌}
use pluster.Engine.Pubsub.{Hub, has_client, has_pattern, remove_client}
use pluster.Engine.Pubsub.Inverse.{IsInverse}
use pluster.Engine.Pubsub.Runs.{remove_client-IsInverse, remove_client_other}
use pluster.Engine.Pubsub.Shared.{Shared, remove_from_hub}
use pluster.Engine.Multi.{
  ClientState, state_normal, state_subscribe, Dedicated, Session, Outside, closed, end_multi,
  close_multi, close_multi_of, reset_client_state, close_watch, close_watch_of,
}
use pluster.Engine.Multi.Dispatch.{drop_watch}
use pluster.Engine.Handler.{Ctx, BlockingConn}
use pluster.Engine.Handler.Dispatch.{close_blocking_of, reset}

abbrev pub is_subscribed : ClientState → Bool
is_subscribed state_subscribe = true
is_subscribed _ = false

abbrev pub leave_hub : Ctx → Ctx
leave_hub c =
    if is_subscribed c.session.state
    then record c { hub = remove_from_hub c.session.id c.hub }
    else c

abbrev pub release_session : Session → Session
release_session s = close_multi (drop_watch s.watch_backend s)

unfoldable pub release : Ctx → Ctx
unfolding close_multi remove_from_hub
release c =
    leave_hub
      (close_blocking_of c.blocking_backend (record c { session = release_session c.session }))
