-- ===== src/Engine/Handler/Release/Released.antt =====
-- What a client that goes leaves behind, and a client that has sent RESET before.
use pluster.Prelude.{
  ℕ, ◌≡◌, ◌||◌, append-nil, Bool-cases, inl, inr, arith, refl, sym, ◌∙◌, ap, subst, Bool, true,
  false, Option, none, some, List, [], ◌∷◌, ◌++◌, Bytes, ◌==◌,
}
use pluster.Engine.Pubsub.{Hub, has_client, has_pattern, remove_client}
use pluster.Engine.Pubsub.Inverse.{IsInverse}
use pluster.Engine.Pubsub.Runs.{remove_client-IsInverse, remove_client_other}
use pluster.Engine.Pubsub.Shared.{Shared, remove_from_hub}
use pluster.Engine.Multi.{
  state_normal, Dedicated, Session, Outside, closed, end_multi, close_multi, close_multi_of,
  reset_client_state, close_watch, close_watch_of,
}
use pluster.Engine.Multi.Dispatch.{drop_watch}
use pluster.Engine.Handler.{Ctx, BlockingConn}
use pluster.Engine.Handler.Dispatch.{close_blocking_of, reset}
use pluster.Engine.Handler.Release.{is_subscribed, leave_hub, release_session, release}

-- The connections that a client holds: those of WATCH and of a transaction, and that of a blocking
-- command.
abbrev held_of : Option Dedicated → List Outside
held_of none = []
held_of (some d) = closed d ∷ []

abbrev held_blocking : Option BlockingConn → List ℕ
held_blocking none = []
held_blocking (some d) = d.number ∷ []

abbrev lists_nothing : List Bytes → Bool
lists_nothing [] = true
lists_nothing (p ∷ ps) = false

-- A client that is not in the state of a subscriber has no subscription in the hub.
pub record Agrees (c : Ctx) : Type 0 where
  pub agrees :
      (is_subscribed c.session.state || lists_nothing (c.hub.hub.client_subs c.session.id)) ≡ true

-- A client that has gone: it holds no connection, those it has held are closed, each once, and it
-- stands in no list of the hub; the rest of the hub is as it was.
pub record IsReleased (before after : Ctx) : Type 0 where
  pub watch_backend : after.session.watch_backend ≡ none
  pub multi_backend : after.session.multi_backend ≡ none
  pub blocking_backend : after.blocking_backend ≡ none
  pub outside :
      after.session.outside
      ≡ (before.session.outside ++ held_of before.session.watch_backend)
        ++ held_of before.session.multi_backend
  pub closed : after.closed ≡ before.closed ++ held_blocking before.blocking_backend
  pub unlisted : (p : Bytes) → has_client before.session.id (after.hub.hub.subs p) ≡ false
  pub others :
      (d : ℕ) (p : Bytes)
      → (before.session.id == d) ≡ false
      → has_client d (after.hub.hub.subs p) ≡ has_client d (before.hub.hub.subs p)

lists_nothing_lem : (ps : List Bytes) → lists_nothing ps ≡ true → ps ≡ []
lists_nothing_lem [] e = refl
lists_nothing_lem (p ∷ ps) e = cc

-- What one step of the release leaves of the context.
close_blocking-lem :
    (b : Option BlockingConn) (c : Ctx)
    → c.blocking_backend ≡ b
    → let after = close_blocking_of b c in
      (after.blocking_backend ≡ none)
      × (after.session ≡ c.session)
      × (after.hub ≡ c.hub)
      × (after.closed ≡ c.closed ++ held_blocking b)
close_blocking-lem none c e = (e, refl, refl, sym (append-nil c.closed))
close_blocking-lem (some d) c e = (refl, refl, refl, refl)

drop_watch-lem :
    (w : Option Dedicated) (s : Session)
    → s.watch_backend ≡ w
    → let after = drop_watch w s in
      (after.watch_backend ≡ none)
      × (after.multi_backend ≡ s.multi_backend)
      × (after.state ≡ s.state)
      × (after.id ≡ s.id)
      × (after.outside ≡ s.outside ++ held_of w)
drop_watch-lem none s e = (e, refl, refl, refl, sym (append-nil s.outside))
drop_watch-lem (some d) s e = (refl, refl, refl, refl, refl)

close_multi-lem :
    (m : Option Dedicated) (s : Session)
    → s.multi_backend ≡ m
    → let after = close_multi_of m s in
      (after.multi_backend ≡ none)
      × (after.watch_backend ≡ s.watch_backend)
      × (after.state ≡ s.state)
      × (after.id ≡ s.id)
      × (after.outside ≡ s.outside ++ held_of m)
close_multi-lem none s e = (e, refl, refl, refl, sym (append-nil s.outside))
close_multi-lem (some d) s e = (refl, refl, refl, refl, refl)

-- The hub behind `leave_hub`.
record HasLeft (before after : Ctx) : Type 0 where
  session : after.session ≡ before.session
  blocking : after.blocking_backend ≡ before.blocking_backend
  closed : after.closed ≡ before.closed
  unlisted : (p : Bytes) → has_client before.session.id (after.hub.hub.subs p) ≡ false
  others :
      (d : ℕ) (p : Bytes)
      → (before.session.id == d) ≡ false
      → has_client d (after.hub.hub.subs p) ≡ has_client d (before.hub.hub.subs p)

removed-unlisted :
    (c : ℕ) (hub : Hub) (p : Bytes)
    → IsInverse hub
    → has_client c ((remove_client c hub).subs p) ≡ false
unfolding remove_client has_pattern
removed-unlisted c hub p i =
    let here : (c == c) ≡ true = ground arith in
    (remove_client-IsInverse c hub i).same c p ∙ rw here refl

leave_hub-HasLeft : (c : Ctx) → Agrees c → IsInverse c.hub.hub → HasLeft c (leave_hub c)
unfolding remove_from_hub has_pattern
leave_hub-HasLeft c a i = elim (Bool-cases (is_subscribed c.session.state)) [
  | inl y ↦ rw y (record {
    session = refl;
    blocking = refl;
    closed = refl;
    unlisted = λ p. removed-unlisted c.session.id c.hub.hub p i;
    others = λ d p n. remove_client_other c.session.id d c.hub.hub p i n;
  })
  | inr n ↦
      let none_left : c.hub.hub.client_subs c.session.id ≡ [] =
        lists_nothing_lem (c.hub.hub.client_subs c.session.id)
          (sym (ap (λ b. b || lists_nothing (c.hub.hub.client_subs c.session.id)) n) ∙ a.agrees) in
      rw n (record {
        session = refl;
        blocking = refl;
        closed = refl;
        unlisted = λ p. i.same c.session.id p ∙ ap (has_pattern p) none_left;
        others = λ d p n. refl;
      })
]

release_session-lem :
    (s : Session)
    → let after = release_session s in
      (after.watch_backend ≡ none)
      × (after.multi_backend ≡ none)
      × (after.state ≡ s.state)
      × (after.id ≡ s.id)
      × (after.outside ≡ (s.outside ++ held_of s.watch_backend) ++ held_of s.multi_backend)
unfolding close_multi
release_session-lem s =
    let dropped = drop_watch s.watch_backend s in
    let (watch, multi, state, id, outside) = drop_watch-lem s.watch_backend s refl in
    let (multi', watch', state', id', outside') =
      close_multi-lem dropped.multi_backend dropped refl in
    (
      watch' ∙ watch,
      multi',
      state' ∙ state,
      id' ∙ id,
      outside'
          ∙ ap (λ os. os ++ held_of dropped.multi_backend) outside
          ∙ ap (λ m. (s.outside ++ held_of s.watch_backend) ++ held_of m) multi,
    )

-- Where the hub lists nothing of a client that is not in the state of a subscriber, and the maps of the
-- hub are inverses: behind what `onClientClose` itself does, the client holds no connection of WATCH,
-- of a transaction or of a blocking command; each that it held is closed once, in that order; no list
-- of the hub has it, and for all other clients the lists are as they were. A connection that is still
-- being dialled is none that it holds, and what the callbacks of the closed connections do is not
-- part of it.
pub release-IsReleased : (c : Ctx) → Agrees c → IsInverse c.hub.hub → IsReleased c (release c)
unfolding release
release-IsReleased c a i =
    let (watch, multi, state, id, outside) = release_session-lem c.session in
    let c0 = record c { session = release_session c.session } in
    let c1 = close_blocking_of c.blocking_backend c0 in
    let (blocking, session, hub, shut) = close_blocking-lem c.blocking_backend c0 refl in
    let id1 : c1.session.id ≡ c.session.id = ap (λ (s : Session). s.id) session ∙ id in
    let state1 : c1.session.state ≡ c.session.state =
      ap (λ (s : Session). s.state) session ∙ state in
    let agrees1 : Agrees c1 = record {
      agrees =
          ap (λ st. is_subscribed st || lists_nothing (c1.hub.hub.client_subs c1.session.id)) state1
          ∙ ap
              (λ h.
                is_subscribed c.session.state || lists_nothing (h.hub.client_subs c1.session.id))
              hub
          ∙ ap (λ n. is_subscribed c.session.state || lists_nothing (c.hub.hub.client_subs n)) id1
          ∙ a.agrees;
    } in
    let left = leave_hub-HasLeft c1 agrees1 (subst (λ (h : Shared). IsInverse h.hub) (sym hub) i) in
    let session1 = left.session ∙ session in
    record {
      watch_backend = ap (λ (s : Session). s.watch_backend) session1 ∙ watch;
      multi_backend = ap (λ (s : Session). s.multi_backend) session1 ∙ multi;
      blocking_backend = left.blocking ∙ blocking;
      outside = ap (λ (s : Session). s.outside) session1 ∙ outside;
      closed = left.closed ∙ shut;
      unlisted =
          λ p. ap (λ n. has_client n ((release c).hub.hub.subs p)) (sym id1) ∙ left.unlisted p;
      others = λ d p n.
          left.others d p (ap (λ x. x == d) id1 ∙ n)
          ∙ ap (λ (h : Shared). has_client d (h.hub.subs p)) hub;
    }

-- The state behind RESET.
close_watch-state : (w : Option Dedicated) (s : Session) → (close_watch_of w s).state ≡ s.state
close_watch-state none s = refl
close_watch-state (some d) s = refl

reset-state : (s : Session) → (reset_client_state s).state ≡ state_normal
unfolding reset_client_state close_multi close_watch
reset-state s =
    let ended = end_multi s in
    let unwatched = close_watch_of ended.watch_backend ended in
    let (multi, watch, state, id, outside) =
      close_multi-lem unwatched.multi_backend unwatched refl in
    state ∙ close_watch-state ended.watch_backend ended

release-hub : (c : Ctx) → c.session.state ≡ state_normal → (release c).hub ≡ c.hub
unfolding release
release-hub c e =
    let c0 = record c { session = release_session c.session } in
    let c1 = close_blocking_of c.blocking_backend c0 in
    let (blocking, session, hub, shut) = close_blocking-lem c.blocking_backend c0 refl in
    let (watch, multi, state, id, outside) = release_session-lem c.session in
    let state1 : c1.session.state ≡ state_normal =
      ap (λ (s : Session). s.state) session ∙ state ∙ e in
    let left : is_subscribed c1.session.state ≡ false = ap is_subscribed state1 in rw left hub

-- After RESET a client is no subscriber any more for `onClientClose`: when it goes, the hub stays
-- just as it was before RESET, with all the entries of the client.
pub release-reset : (c : Ctx) → (release (reset c)).hub ≡ c.hub
unfolding reset
release-reset c =
    let c0 = record c { session = reset_client_state c.session } in
    let (blocking, session, hub, shut) = close_blocking-lem c.blocking_backend c0 refl in
    release-hub (reset c) (ap (λ (s : Session). s.state) session ∙ reset-state c.session) ∙ hub
