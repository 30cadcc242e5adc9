-- ===== src/Engine/Mux/Traffic/Answers.antt =====
-- Every reply that a client waits for is answered or sent on.
use pluster.Prelude.{
  ◌+◌, ◌<◌, ◌≤◌, ◌≡◌, refl, ap, Bool, true, false, none, some, List, [], ◌∷◌, ◌++◌, append_assoc,
  Bool-cases, Option-cases, inl, inr, if◌then◌else◌, Bytes, bytes_eq, bytes_eq_iff,
}
use pluster.Proto.Encode.{encode_error}
use pluster.Proto.Scan.{kind_moved, kind_ask, kind_none, kind_other, Scanned}
use pluster.Engine.Mux.Conn.{PendingReq, MuxConn, push_send, ask_sentinel}
use pluster.Engine.Mux.{
  Mux, Effect, fill_slot, respond, respond_part, refresh, Env, with_dialing, error_slots,
  fail_dialing, dial_backend, send,
}
use pluster.Engine.Mux.Traffic.{
  atoi_ok, parse_redirection_msg, max_mux_redirects, Redirection, redirect,
}

-- What has become of a request that was sent on to `addr`, behind `ahead`, when the mux was `m`: both
-- are the last in the queue of the connection, or in that of the dial, with all that was there before
-- them, or the client of the request has been given the error of the dial, last.
pub data Carries (env : Env) (m : Mux) (addr : Bytes) (ahead : List PendingReq) (r : PendingReq)
    (after : Mux) (effects : List Effect) : Type 0 where
  on_conn :
      (bc bc' : MuxConn)
      → m.conns addr ≡ some bc
      → after.conns addr ≡ some bc'
      → bc'.pending ≡ bc.pending ++ (ahead ++ r ∷ [])
      → Carries env m addr ahead r after effects
  in_dial :
      m.conns addr ≡ none
      → after.dialing addr ≡ m.dialing addr ++ (ahead ++ r ∷ [])
      → Carries env m addr ahead r after effects
  failed :
      (msg : Bytes) (front : List Effect)
      → m.conns addr ≡ none
      → env.dial_error addr ≡ some msg
      → effects ≡ front ++ fill_slot r.client r.slot_idx (encode_error msg) ∷ []
      → Carries env m addr ahead r after effects

bytes_eq_refl : (a : Bytes) → bytes_eq a a ≡ true
bytes_eq_refl a = (bytes_eq_iff a a).1 refl

module _ (env : Env) where
  -- The last request of a dial that failed gets its error last.
  error_slots-last :
      (msg : Bytes) (queued : List PendingReq) (r : PendingReq)
      → r.skip_reply ≡ false
      → env.is_client r.client ≡ true
      → error_slots env msg (queued ++ r ∷ [])
        ≡ error_slots env msg queued ++ fill_slot r.client r.slot_idx (encode_error msg) ∷ []
  unfolding error_slots
  error_slots-last msg [] r p c = rw (p, c) refl
  error_slots-last msg (q ∷ queued) r p c = elim (Bool-cases q.skip_reply) [
    | inl e ↦ rw e (error_slots-last msg queued r p c)
    | inr e ↦ elim (Bool-cases (env.is_client q.client)) [
      | inl d ↦
          rw (e, d)
            (ap (◌∷◌ (fill_slot q.client q.slot_idx (encode_error msg)))
              (error_slots-last msg queued r p c))
      | inr d ↦ rw (e, d) (error_slots-last msg queued r p c)
    ]
  ]

  -- All that waits for a dial that is to begin, if nothing has waited before.
  queue_up-Carries :
      (m : Mux) (addr : Bytes) (ahead : List PendingReq) (r : PendingReq) (first : Bool)
      → m.conns addr ≡ none
      → r.skip_reply ≡ false
      → env.is_client r.client ≡ true
      → let queued = with_dialing m addr (m.dialing addr ++ (ahead ++ r ∷ [])) in
        let after = if first then dial_backend env queued addr else (queued, []) in
        Carries env m addr ahead r after.0 after.1
  unfolding dial_backend fail_dialing
  queue_up-Carries m addr ahead r false n p c = in_dial n (rw (bytes_eq_refl addr) refl)
  queue_up-Carries m addr ahead r true n p c = elim (Option-cases (env.dial_error addr)) [
    | inl e ↦ rw e (in_dial n (rw (bytes_eq_refl addr) refl))
    | inr (msg, e) ↦ rw e (
        failed msg (error_slots env msg (m.dialing addr ++ ahead)) n e (
          rw (bytes_eq_refl addr, ← append_assoc (m.dialing addr) ahead (r ∷ []))
            (error_slots-last msg (m.dialing addr ++ ahead) r p c)))
  ]

  pub send-Carries :
      (m : Mux) (addr : Bytes) (r : PendingReq)
      → r.skip_reply ≡ false
      → env.is_client r.client ≡ true
      → Carries env m addr [] r (send env m addr r).0 (send env m addr r).1
  unfolding send push_send
  send-Carries m addr r p c = elim (Option-cases (m.conns addr)) [
    | inr (bc, e) ↦ rw e (on_conn bc (push_send bc r) e (rw (bytes_eq_refl addr) refl) refl)
    | inl e ↦ rw e (queue_up-Carries m addr [] r _ e p c)
  ]

after_refresh :
    {env : Env} {m after : Mux} {effects : List Effect} {addr : Bytes} {ahead : List PendingReq}
    {r : PendingReq}
    → Carries env m addr ahead r after effects
    → Carries env m addr ahead r after (refresh ∷ effects)
after_refresh (on_conn bc bc' e e' q) = on_conn bc bc' e e' q
after_refresh (in_dial n e) = in_dial n e
after_refresh (failed msg front n d e) = failed msg (refresh ∷ front) n d (ap (◌∷◌ refresh) e)

-- The text of an error that names an address, behind a number.
pub record Names (msg addr : Bytes) : Type 0 where
  word : Bytes
  number : Bytes
  msg_is : msg ≡ word ++ b' ' ∷ (number ++ b' ' ∷ addr)
  is_number : atoi_ok number ≡ true

-- Where `onTraffic` has to hand a reply to the client: the request has been redirected often enough,
-- or the reply is no redirection, or names no address.
pub data IsLast (s : Scanned) (r : PendingReq) : Type 0 where
  often : max_mux_redirects ≤ r.depth → IsLast s r
  no_error : s.kind ≡ kind_none → IsLast s r
  other_error : s.kind ≡ kind_other → IsLast s r
  no_address : parse_redirection_msg s.err_msg ≡ none → IsLast s r

-- The request of `r`, for the same slot and the same part of it, redirected once more.
abbrev pub once_more : PendingReq → PendingReq
once_more r = record r { depth = r.depth + 1; skip_reply = false; is_ask_sentinel = false }

-- What has to come of a reply for `r`.
pub data Answered (env : Env) (m : Mux) (s : Scanned) (raw : Bytes) (r : PendingReq) (after : Mux)
    (effects : List Effect) : Type 0 where
  whole :
      IsLast s r
      → r.fan_in ≡ false
      → after ≡ m
      → effects ≡ respond r.client r.slot_idx raw ∷ []
      → Answered env m s raw r after effects
  part :
      IsLast s r
      → r.fan_in ≡ true
      → after ≡ m
      → effects ≡ respond_part r.client r.slot_idx r.fan_in_idx raw ∷ []
      → Answered env m s raw r after effects
  moved :
      (addr : Bytes) (rest : List Effect)
      → r.depth < max_mux_redirects
      → s.kind ≡ kind_moved
      → Names s.err_msg addr
      → effects ≡ refresh ∷ rest
      → Carries env m addr [] (once_more r) after rest
      → Answered env m s raw r after effects
  asked :
      (addr : Bytes)
      → r.depth < max_mux_redirects
      → s.kind ≡ kind_ask
      → Names s.err_msg addr
      → Carries env m addr (ask_sentinel (once_more r) ∷ []) (once_more r) after effects
      → Answered env m s raw r after effects

module _ (env : Env) (m : Mux) (s : Scanned) (raw : Bytes) (r : PendingReq)
    (c : env.is_client r.client ≡ true) where
  abbrev Goal : Redirection → Type 0
  Goal how = Answered env m s raw r (redirect env m r raw how).0 (redirect env m r raw how).1
