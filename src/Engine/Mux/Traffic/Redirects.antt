-- ===== src/Engine/Mux/Traffic/Redirects.antt =====
-- Redirections end: no request in the mux has been redirected more than `maxMuxRedirects` times.
use pluster.Prelude.{
  ◌≤◌, ◌<◌, ◌≡◌, ◌⊎◌, refl, Bool, true, false, Option, none, some, List, [], ◌∷◌, ◌++◌, ltb, ltb→lt,
  Bool-cases, Option-cases, inl, inr, if◌then◌else◌, Bytes, bytes_eq, All, All-append,
}
use pluster.Proto.Outcome.{Outcome, ok}
use pluster.Proto.Scan.{Scanned}
use pluster.Engine.Mux.Conn.{PendingReq, MuxConn, push_send}
use pluster.Engine.Mux.{Mux, Effect, Env, with_conn, with_dialing, fail_dialing, dial_backend, send}
use pluster.Engine.Mux.Traffic.{max_mux_redirects, no_redirection, redirection}

abbrev pub InBound : PendingReq → Type 0
InBound r = r.depth ≤ max_mux_redirects

abbrev pub ConnInBound : Option MuxConn → Type 0
ConnInBound none = Unit
ConnInBound (some bc) = All InBound bc.pending

-- In every queue of the mux.
abbrev pub IsBounded : Mux → Type 0
IsBounded m = (a : Bytes) → ConnInBound (m.conns a) × All InBound (m.dialing a)

module _ (env : Env) where
  with_conn-IsBounded :
      (m : Mux) (addr : Bytes) (bc : Option MuxConn)
      → ConnInBound bc
      → IsBounded m
      → IsBounded (with_conn m addr bc)
  with_conn-IsBounded m addr bc h b a = elim (Bool-cases (bytes_eq a addr)) [
    | inl e ↦ rw e (h, (b a).1)
    | inr e ↦ rw e (b a)
  ]

  with_dialing-IsBounded :
      (m : Mux) (addr : Bytes) (queued : List PendingReq)
      → All InBound queued
      → IsBounded m
      → IsBounded (with_dialing m addr queued)
  with_dialing-IsBounded m addr queued h b a = elim (Bool-cases (bytes_eq a addr)) [
    | inl e ↦ rw e ((b a).0, h)
    | inr e ↦ rw e (b a)
  ]

  dial_backend-IsBounded :
      (m : Mux) (addr : Bytes) → IsBounded m → IsBounded (dial_backend env m addr).0
  unfolding dial_backend fail_dialing
  dial_backend-IsBounded m addr b = elim (Option-cases (env.dial_error addr)) [
    | inl e ↦ rw e b
    | inr (msg, e) ↦ rw e (with_dialing-IsBounded m addr [] tt b)
  ]

  -- Requests that wait for a connection; the first of them begins a dial.
  queue_up-IsBounded :
      (m : Mux) (addr : Bytes) (queued : List PendingReq) (first : Bool)
      → All InBound queued
      → IsBounded m
      → IsBounded
          (if first
            then dial_backend env (with_dialing m addr queued) addr
            else (with_dialing m addr queued, [])).0
  queue_up-IsBounded m addr queued true h b =
      dial_backend-IsBounded (with_dialing m addr queued) addr
        (with_dialing-IsBounded m addr queued h b)
  queue_up-IsBounded m addr queued false h b = with_dialing-IsBounded m addr queued h b

  pub send-IsBounded :
      (m : Mux) (addr : Bytes) (r : PendingReq)
      → InBound r
      → IsBounded m
      → IsBounded (send env m addr r).0
  unfolding send push_send
  send-IsBounded m addr r h b = elim (Option-cases (m.conns addr)) [
    | inr (bc, e) ↦ rw e (
        with_conn-IsBounded m addr (some (push_send bc r))
          (All-append InBound bc.pending (r ∷ []) (rw e at (b addr).0) (h, tt)) b)
    | inl e ↦ rw e (
        queue_up-IsBounded m addr (m.dialing addr ++ r ∷ []) _
          (All-append InBound (m.dialing addr) (r ∷ []) (b addr).1 (h, tt)) b)
  ]

  -- A request is sent on only while it is below the bound.
  pub redirection-lt :
      (s : Scanned) (r : PendingReq)
      → (redirection s r ≡ no_redirection) ⊎ (r.depth < max_mux_redirects)
  unfolding redirection
  redirection-lt s r = elim (Bool-cases (ltb r.depth max_mux_redirects)) [
    | inl t ↦ inr (ltb→lt _ _ t)
    | inr f ↦ inl (rw f refl)
  ]

  Keeps : (Mux → Bytes → Outcome (Mux × List Effect × Bytes)) → Type 0
  Keeps loop =
      (m : Mux) (buf : Bytes) (r : Mux × List Effect × Bytes)
      → loop m buf ≡ ok r
      → IsBounded m
      → IsBounded r.0
