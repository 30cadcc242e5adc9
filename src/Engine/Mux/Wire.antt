-- ===== src/Engine/Mux/Wire.antt =====
-- The order of the commands on the wire is the order of the requests in `pending`.
use pluster.Prelude.{
  ℕ, zero, suc, ◌+◌, ◌≤◌, ◌≡◌, ◌≢◌, refl, sym, ◌∙◌, ap, false, none, some, List, [], ◌∷◌, ◌++◌,
  append-nil, append_assoc, Bool-cases, Option-cases, inl, inr, subst, arith, ◌==◌, if◌then◌else◌,
  Bytes, length, length-append, drop, get_elem?,
}
use pluster.Engine.Mux.Conn.{
  PendingReq, MuxConn, queue, raw_bytes, asking_bytes, readonly_bytes, push_send, push_ask,
  ask_sentinel, flush_conn, next_pending, advance,
}

-- The command that an entry of `pending` stands for.
abbrev pub wire_form : PendingReq → Bytes
wire_form r =
    if r.is_ask_sentinel
    then asking_bytes
    else if r.skip_reply
    then readonly_bytes
    else raw_bytes r.req

abbrev pub wire : List PendingReq → Bytes
wire [] = []
wire (r ∷ rs) = wire_form r ++ wire rs

-- What is sent, and what is about to be, are the commands of the requests `done`, which have their
-- replies, and then of those that wait.
pub record InStep (done : List PendingReq) (bc : MuxConn) : Type 0 where
  pub on_wire : bc.sent ++ bc.write_buf ≡ wire (done ++ queue bc)
  pub head_le : bc.head ≤ length bc.pending

-- A request of a client, and no entry for ASKING or READONLY.
pub record IsPlain (r : PendingReq) : Type 0 where
  pub expects : r.skip_reply ≡ false
  pub no_sentinel : r.is_ask_sentinel ≡ false

pub wire-append : (rs qs : List PendingReq) → wire (rs ++ qs) ≡ wire rs ++ wire qs
wire-append [] qs = refl
wire-append (r ∷ rs) qs =
    ap (◌++◌ (wire_form r)) (wire-append rs qs)
    ∙ sym (append_assoc (wire_form r) (wire rs) (wire qs))

drop-append {ℓ} :
    {A : Type ℓ} (n : ℕ) (xs ys : List A) → n ≤ length xs → drop n (xs ++ ys) ≡ drop n xs ++ ys
drop-append zero xs ys h = refl
drop-append (suc n) [] ys h = absurd (omega arith)
drop-append (suc n) (x ∷ xs) ys h = drop-append n xs ys (omega arith)

wire_form-plain : (r : PendingReq) → IsPlain r → wire_form r ≡ raw_bytes r.req
wire_form-plain r p = rw (p.no_sentinel, p.expects)

-- Requests that join the queue add their commands.
pub wire-join :
    (done : List PendingReq) (bc : MuxConn) (rs : List PendingReq)
    → InStep done bc
    → wire (done ++ drop bc.head (bc.pending ++ rs)) ≡ (bc.sent ++ bc.write_buf) ++ wire rs
wire-join done bc rs s = rw (
  drop-append bc.head bc.pending rs s.head_le,
  ← append_assoc done (queue bc) rs,
  wire-append (done ++ queue bc) rs,
  s.on_wire,
)

-- `send` on an open connection: the request joins the queue, and its command what is written.
pub push_send-InStep :
    (done : List PendingReq) (bc : MuxConn) (r : PendingReq)
    → IsPlain r
    → InStep done bc
    → InStep done (push_send bc r) × (queue (push_send bc r) ≡ queue bc ++ r ∷ [])
unfolding push_send
push_send-InStep done bc r p s = (
  record {
    on_wire =
        sym (append_assoc bc.sent bc.write_buf (raw_bytes r.req))
        ∙ sym (
            wire-join done bc (r ∷ []) s
            ∙ ap (◌++◌ (bc.sent ++ bc.write_buf)) (append-nil _ ∙ wire_form-plain r p));
    head_le = omega (arith, s.head_le, length-append bc.pending (r ∷ []));
  },
  drop-append bc.head bc.pending (r ∷ []) s.head_le,
)

-- `sendAsk` on an open connection that has nothing in `writeBuf`: ASKING and the request join the
-- queue, and their commands what is written.
pub push_ask-InStep :
    (done : List PendingReq) (bc : MuxConn) (r : PendingReq)
    → IsPlain r
    → bc.write_buf ≡ []
    → InStep done bc
    → InStep done (push_ask bc r) × (queue (push_ask bc r) ≡ queue bc ++ ask_sentinel r ∷ r ∷ [])
unfolding push_ask
push_ask-InStep done bc r p e s = (
  record {
    on_wire = written ∙ sym (wire-join done bc (ask_sentinel r ∷ r ∷ []) s);
    head_le = omega (arith, s.head_le, length-append bc.pending (ask_sentinel r ∷ r ∷ []));
  },
  drop-append bc.head bc.pending (ask_sentinel r ∷ r ∷ []) s.head_le,
)
  where
    written :
        ((bc.sent ++ asking_bytes) ++ raw_bytes r.req) ++ bc.write_buf
        ≡ (bc.sent ++ bc.write_buf) ++ wire (ask_sentinel r ∷ r ∷ [])
    written =
        rw (e, wire_form-plain r p)
          (append-nil _
            ∙ append_assoc bc.sent asking_bytes (raw_bytes r.req)
            ∙ rw (append-nil bc.sent, append-nil (raw_bytes r.req)) refl)

pub flush_conn-InStep :
    (done : List PendingReq) (bc : MuxConn) → InStep done bc → InStep done (flush_conn bc)
unfolding flush_conn
flush_conn-InStep done bc s = record { on_wire = append-nil _ ∙ s.on_wire; head_le = s.head_le }

-- An element that is there heads what is left from its place on.
drop-get_elem? :
    (i : ℕ) (rs : List PendingReq) (r : PendingReq)
    → get_elem? rs i ≡ some r
    → (drop i rs ≡ r ∷ drop (suc i) rs) × (suc i ≤ length rs)
drop-get_elem? i [] r h = cc
drop-get_elem? zero (x ∷ rs) r h = (ground arith, omega arith)
drop-get_elem? (suc i) (x ∷ rs) r h = let (e, l) = drop-get_elem? i rs r h in (e, omega (arith, l))

drop-length : (i : ℕ) (rs : List PendingReq) → i ≡ length rs → drop i rs ≡ []
drop-length zero [] h = refl
drop-length (suc i) (x ∷ rs) h = drop-length i rs (omega arith)
drop-length zero (x ∷ rs) h = absurd (omega arith)
drop-length (suc i) [] h = absurd (omega arith)

queue-advance :
    (bc : MuxConn) (r : PendingReq)
    → get_elem? bc.pending bc.head ≡ some r
    → (queue bc ≡ r ∷ queue (advance bc)) × ((advance bc).head ≤ length (advance bc).pending)
queue-advance bc r h =
    let (e, l) = drop-get_elem? bc.head bc.pending r h in
    elim (Bool-cases (bc.head + 1 == length bc.pending)) [
      | inl last ↦
          rw last
            (e ∙ ap (◌∷◌ r) (drop-length (suc bc.head) bc.pending (ground arith)), omega arith)
      | inr more ↦
          rw more
            (e ∙ ap (λ k. r ∷ drop k bc.pending) {x = suc bc.head} (omega arith), omega (arith, l))
    ]

advance-InStep :
    (done : List PendingReq) (bc : MuxConn) (r : PendingReq)
    → get_elem? bc.pending bc.head ≡ some r
    → InStep done bc
    → InStep (done ++ r ∷ []) (advance bc)
advance-InStep done bc r h s =
    let (e, l) = queue-advance bc r h in
    record {
      on_wire =
          unchanged
          ∙ s.on_wire
          ∙ ap wire (ap (◌++◌ done) e ∙ sym (append_assoc done (r ∷ []) (queue (advance bc))));
      head_le = l;
    }
  where
    unchanged : (advance bc).sent ++ (advance bc).write_buf ≡ bc.sent ++ bc.write_buf
    unchanged = elim (Bool-cases (bc.head + 1 == length bc.pending)) [
      | inl last ↦ rw last refl
      | inr more ↦ rw more refl
    ]

-- A reply is for the request at the head of the queue, the one whose command comes first on the
-- wire among those without a reply.
pub next_pending-InStep :
    (done : List PendingReq) (bc bc' : MuxConn) (r : PendingReq)
    → next_pending bc ≡ (bc', some r)
    → InStep done bc
    → InStep (done ++ r ∷ []) bc' × (queue bc ≡ r ∷ queue bc')
unfolding next_pending
next_pending-InStep done bc bc' r h s = elim (Option-cases (get_elem? bc.pending bc.head)) [
  | inl e ↦ absurd (none-some (ap (λ p. p.1) (rw e at h)))
  | inr (q, e) ↦
      let h' = rw e at h in
      let first = e ∙ ap (λ p. p.1) h' in
      subst (λ b. InStep (done ++ r ∷ []) b × (queue bc ≡ r ∷ queue b)) (ap (λ p. p.0) h')
        (advance-InStep done bc r first s, (queue-advance bc r first).0)
]
  where
    none-some : none ≢ some r
    none-some e = cc
