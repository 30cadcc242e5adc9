-- ===== src/Engine/Pubsub/Shared/Greeting.antt =====
-- What the shared connection has been sent, in whatever order clients and the connection act.
use mathlib.Core.List.{map-append}
use pluster.Prelude.{
  ℕ, ◌≡◌, refl, sym, ◌∙◌, ap, subst, Bool, true, false, not, ◌&&◌, Option, none, some, List, [],
  ◌∷◌, ◌++◌, map, append-nil, append_assoc, Bytes, Bool-cases, inl, inr, if◌then◌else◌,
}
use pluster.Proto.Request.{Request}
use pluster.Proto.Encode.{encode_command_bytes}
use pluster.Cluster.{Topology}
use pluster.Engine.Pubsub.Shared.{
  Shared, new_pubsub_hub, is_open, forward_to_backend, dial_shared_backend, dial_failed,
  ensure_dialing, forward_or_keep, subscribe_request, unsubscribe_request, remove_from_hub,
  greeting, forward_all, on_shared_backend_open, on_shared_backend_close,
}

abbrev encoded_requests : List Request → List Bytes
encoded_requests = map (λ (req : Request). encode_command_bytes req.args)

-- The requests that are due to the present connection, or to the next one: those to subscribe since
-- the last loss, and those to unsubscribe that came while a connection was open.
abbrev pub due_after : Request → Option (List Bytes) → List Request → List Request
due_after req none due = due
due_after req (some sent) due = due ++ req ∷ []

if_true : {b : Bool} → b ≡ true → (x y : Shared) → (if b then x else y) ≡ x
if_true e x y = ap (λ c. if c then x else y) e

if_false : {b : Bool} → b ≡ false → (x y : Shared) → (if b then x else y) ≡ y
if_false e x y = ap (λ c. if c then x else y) e

module _ (user password : Bytes) where
  pub data SharedRun : List Request → Shared → Type 0 where
    fresh : SharedRun [] new_pubsub_hub
    subscribed :
        {due : List Request} {s : Shared} (begins : Bytes → Bool) (t : Topology) (c : ℕ)
        (req : Request)
        → SharedRun due s
        → SharedRun (due ++ req ∷ []) (subscribe_request begins t c req s)
    unsubscribed :
        {due : List Request} {s : Shared} (c : ℕ) (req : Request)
        → SharedRun due s
        → SharedRun (due_after req s.backend due) (unsubscribe_request c req s).0
    left :
        {due : List Request} {s : Shared} (c : ℕ)
        → SharedRun due s
        → SharedRun due (remove_from_hub c s)
    failed :
        {due : List Request} {s : Shared}
        → s.backend ≡ none
        → SharedRun due s
        → SharedRun due (dial_failed s)
    opened :
        {due : List Request} {s : Shared}
        → s.backend ≡ none
        → SharedRun due s
        → SharedRun due (on_shared_backend_open user password s)
    lost :
        {due : List Request} {s : Shared} {sent : List Bytes} (patterns : List Bytes)
        → s.backend ≡ some sent
        → SharedRun due s
        → SharedRun [] (on_shared_backend_close patterns s).0

  -- What is due has been written behind the greeting, or waits for a connection.
  abbrev pub Reaches : List Request → Option (List Bytes) → List Request → Type 0
  Reaches due none pending = pending ≡ due
  Reaches due (some sent) pending =
      (pending ≡ []) × (sent ≡ greeting user password ++ encoded_requests due)

  written-next :
      (due : List Request) (req : Request) (sent : List Bytes)
      → sent ≡ greeting user password ++ encoded_requests due
      → sent ++ encode_command_bytes req.args ∷ []
        ≡ greeting user password ++ encoded_requests (due ++ req ∷ [])
  written-next due req sent e =
      rw (e, map-append (λ (r : Request). encode_command_bytes r.args) due (req ∷ []))
        (append_assoc (greeting user password) (encoded_requests due) _)

  forward_or_keep-Reaches :
      (due : List Request) (req : Request) (s : Shared) (b : Option (List Bytes))
      → Reaches due b s.pending_clients
      → let s' = forward_or_keep req (record s { backend = b }) in
        Reaches (due ++ req ∷ []) s'.backend s'.pending_clients
  unfolding forward_to_backend
  forward_or_keep-Reaches due req s none r = ap (λ (rs : List Request). rs ++ req ∷ []) r
  forward_or_keep-Reaches due req s (some sent) (r, e) = (r, written-next due req sent e)

  dial_shared_backend-Reaches :
      (due : List Request) (begins : Bytes → Bool) (t : Topology) (s : Shared)
      → Reaches due s.backend s.pending_clients
      → let s' = ensure_dialing begins t s in Reaches due s'.backend s'.pending_clients
  unfolding dial_shared_backend
  dial_shared_backend-Reaches due begins t s r =
      elim (Bool-cases (not (is_open s.backend) && not s.dialing)) [
        | inl y ↦
            subst (λ (x : Shared). Reaches due x.backend x.pending_clients)
              (sym (if_true y (dial_shared_backend begins t s) s)) r
        | inr n ↦
            subst (λ (x : Shared). Reaches due x.backend x.pending_clients)
              (sym (if_false n (dial_shared_backend begins t s) s)) r
      ]

  unsubscribe_request-Reaches :
      (due : List Request) (c : ℕ) (req : Request) (s : Shared) (b : Option (List Bytes))
      → Reaches due b s.pending_clients
      → let s' = (unsubscribe_request c req (record s { backend = b })).0 in
        Reaches (due_after req b due) s'.backend s'.pending_clients
  unfolding unsubscribe_request forward_to_backend
  unsubscribe_request-Reaches due c req s none r = r
  unsubscribe_request-Reaches due c req s (some sent) (r, e) = (r, written-next due req sent e)

  forward_all-written :
      (reqs : List Request) (s : Shared) (sent : List Bytes)
      → s.backend ≡ some sent
      → (forward_all reqs s).backend ≡ some (sent ++ encoded_requests reqs)
  unfolding forward_all forward_to_backend
  forward_all-written [] s sent e = e ∙ ap some (sym (append-nil sent))
  forward_all-written (req ∷ reqs) s sent e =
      forward_all-written reqs (forward_to_backend s req)
        (sent ++ encode_command_bytes req.args ∷ []) (rw e refl)
      ∙ ap some (append_assoc sent (encode_command_bytes req.args ∷ []) (encoded_requests reqs))

  on_shared_backend_open-Reaches :
      (due : List Request) (s : Shared)
      → s.pending_clients ≡ due
      → Reaches due (on_shared_backend_open user password s).backend []
  unfolding on_shared_backend_open
  on_shared_backend_open-Reaches due s e =
      let s' = record s { dialing = false; backend = some (greeting user password) } in
      subst (λ (x : Option (List Bytes)). Reaches due x [])
        (sym (forward_all-written s.pending_clients s' (greeting user password) refl))
        (refl, ap (λ (rs : List Request). greeting user password ++ encoded_requests rs) e)

  -- At every time, the connection has been sent the greeting and behind it, in the order in which
  -- they came, the requests to subscribe since the last loss of a connection, and those to
  -- unsubscribe that came while it was open; where there is no connection, exactly those requests
  -- wait for one.
  pub SharedRun-Reaches :
      {due : List Request} {s : Shared} → SharedRun due s → Reaches due s.backend s.pending_clients
  unfolding subscribe_request remove_from_hub dial_failed on_shared_backend_open
      on_shared_backend_close
  SharedRun-Reaches fresh = refl
  SharedRun-Reaches (subscribed {due} {s} begins t c req run) =
      let s' = ensure_dialing begins t s in
      forward_or_keep-Reaches due req (record s' { hub = _ }) s'.backend
        (dial_shared_backend-Reaches due begins t s (SharedRun-Reaches run))
  SharedRun-Reaches (unsubscribed {due} {s} c req run) =
      unsubscribe_request-Reaches due c req s s.backend (SharedRun-Reaches run)
  SharedRun-Reaches (left c run) = SharedRun-Reaches run
  SharedRun-Reaches (failed e run) = SharedRun-Reaches run
  SharedRun-Reaches (opened {due} {s} e run) =
      on_shared_backend_open-Reaches due s
        (subst (λ b. Reaches due b s.pending_clients) e (SharedRun-Reaches run))
  SharedRun-Reaches (lost {due} {s} patterns e run) =
      (subst (λ b. Reaches due b s.pending_clients) e (SharedRun-Reaches run)).0
