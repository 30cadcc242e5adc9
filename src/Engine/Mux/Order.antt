-- ===== src/Engine/Mux/Order.antt =====
-- A connection of the mux from the moment it opens.
use pluster.Prelude.{
  ℕ, ◌≡◌, ◌≢◌, refl, sym, ◌∙◌, ap, Bool, true, false, some, List, [], ◌∷◌, ◌++◌, append-nil,
  append_assoc, Bool-cases, inl, inr, arith, if◌then◌else◌, Bytes, length-append, All,
}
use pluster.Engine.Mux.Conn.{
  PendingReq, MuxConn, queue, raw_bytes, asking_bytes, push_send, push_ask, flush_conn,
  write_queued, open_conn, next_pending, ask_sentinel,
}
use pluster.Engine.Mux.Wire.{
  wire, wire_form, InStep, IsPlain, wire-join, push_send-InStep, push_ask-InStep, flush_conn-InStep,
  next_pending-InStep,
}

-- What stands in `dialing`: requests of clients, and entries for ASKING.
abbrev pub IsQueued : PendingReq → Type 0
IsQueued r = r.is_ask_sentinel ≡ false → r.skip_reply ≡ false

queued_form :
    (r : PendingReq)
    → IsQueued r
    → (if r.is_ask_sentinel then asking_bytes else raw_bytes r.req) ≡ wire_form r
queued_form r q = elim (Bool-cases r.is_ask_sentinel) [
  | inl ask ↦ rw ask refl
  | inr plain ↦ rw (plain, q plain) refl
]

write_queued-InStep :
    (bc : MuxConn) (queued : List PendingReq)
    → All IsQueued queued
    → bc.write_buf ≡ []
    → InStep [] bc
    → InStep [] (write_queued bc queued)
unfolding write_queued
write_queued-InStep bc [] a e s = s
write_queued-InStep bc (r ∷ queued) (q, a) e s =
    write_queued-InStep
      (record bc {
        pending = bc.pending ++ r ∷ [];
        sent = bc.sent ++ (if r.is_ask_sentinel then asking_bytes else raw_bytes r.req);
      })
      queued a e
      (record {
        on_wire = written ∙ sym (wire-join [] bc (r ∷ []) s);
        head_le = omega (arith, s.head_le, length-append bc.pending (r ∷ []));
      })
  where
    written :
        (bc.sent ++ (if r.is_ask_sentinel then asking_bytes else raw_bytes r.req)) ++ bc.write_buf
        ≡ (bc.sent ++ bc.write_buf) ++ (wire_form r ++ [])
    written =
        rw (e, queued_form r q) (rw (append-nil bc.sent, append-nil (wire_form r)) (append-nil _))

-- A connection opens with the commands of all requests that waited for it on the wire.
open_conn-InStep :
    (is_replica : Bool) (queued : List PendingReq)
    → All IsQueued queued
    → InStep [] (open_conn is_replica queued)
unfolding open_conn
open_conn-InStep true [] a =
    write_queued-InStep _ [] a refl (record { on_wire = refl; head_le = ground arith })
open_conn-InStep true (r ∷ queued) a =
    write_queued-InStep _ (r ∷ queued) a refl (record { on_wire = refl; head_le = ground arith })
open_conn-InStep false queued a =
    write_queued-InStep _ queued a refl (record { on_wire = refl; head_le = ground arith })

-- The life of a connection: `done` are the requests that had their replies. ASKING comes only when
-- nothing is left in `writeBuf`.
pub data ConnRun : List PendingReq → MuxConn → Type 0 where
  opened :
      (is_replica : Bool) (queued : List PendingReq)
      → All IsQueued queued
      → ConnRun [] (open_conn is_replica queued)
  pushed :
      {done : List PendingReq} {bc : MuxConn} (r : PendingReq)
      → IsPlain r
      → ConnRun done bc
      → ConnRun done (push_send bc r)
  asked :
      {done : List PendingReq} {bc : MuxConn} (r : PendingReq)
      → IsPlain r
      → bc.write_buf ≡ []
      → ConnRun done bc
      → ConnRun done (push_ask bc r)
  flushed : {done : List PendingReq} {bc : MuxConn} → ConnRun done bc → ConnRun done (flush_conn bc)
  replied :
      {done : List PendingReq} {bc bc' : MuxConn} (r : PendingReq)
      → next_pending bc ≡ (bc', some r)
      → ConnRun done bc
      → ConnRun (done ++ r ∷ []) bc'

ConnRun-InStep : {done : List PendingReq} {bc : MuxConn} → ConnRun done bc → InStep done bc
ConnRun-InStep (opened is_replica queued a) = open_conn-InStep is_replica queued a
ConnRun-InStep (pushed {done} {bc} r p run) = (push_send-InStep done bc r p (ConnRun-InStep run)).0
ConnRun-InStep (asked {done} {bc} r p e run) =
    (push_ask-InStep done bc r p e (ConnRun-InStep run)).0
ConnRun-InStep (flushed {done} {bc} run) = flush_conn-InStep done bc (ConnRun-InStep run)
ConnRun-InStep (replied {done} {bc} {bc'} r h run) =
    (next_pending-InStep done bc bc' r h (ConnRun-InStep run)).0

-- In every life of a connection in which ASKING comes only when nothing is left in `writeBuf`, the
-- bytes sent and those about to be are the commands of the requests that had their replies and of
-- those in `pending`, in this order. So the n-th reply is that of the n-th command on the wire.
pub ConnRun-wire :
    {done : List PendingReq} {bc : MuxConn}
    → ConnRun done bc
    → bc.sent ++ bc.write_buf ≡ wire (done ++ queue bc)
ConnRun-wire run = (ConnRun-InStep run).on_wire

cancel : (xs ys zs : Bytes) → xs ++ ys ≡ xs ++ zs → ys ≡ zs
cancel [] ys zs h = h
cancel (x ∷ xs) ys zs h = cancel xs ys zs (cc)

-- If what is left in `writeBuf` begins with a command whose number of arguments does not begin with
-- the digit 1, then `sendAsk` writes ahead of it, and what is sent no longer follows `pending`.
pub push_ask_overtakes :
    (done : List PendingReq) (bc : MuxConn) (r : PendingReq) (c : ℕ) (cs : Bytes)
    → IsPlain r
    → bc.write_buf ≡ b'*' ∷ c ∷ cs
    → c ≢ b'1'
    → InStep done bc
    → ¬ InStep done (push_ask bc r)
unfolding push_ask
push_ask_overtakes done bc r c cs p e ne s t = ne (second heads)
  where
    joined :
        bc.sent ++ (asking_bytes ++ (raw_bytes r.req ++ bc.write_buf))
        ≡ bc.sent ++ (bc.write_buf ++ wire (ask_sentinel r ∷ r ∷ []))
    joined =
        sym (
          append_assoc (bc.sent ++ asking_bytes) (raw_bytes r.req) bc.write_buf
          ∙ append_assoc bc.sent asking_bytes (raw_bytes r.req ++ bc.write_buf))
        ∙ t.on_wire
        ∙ wire-join done bc (ask_sentinel r ∷ r ∷ []) s
        ∙ append_assoc bc.sent bc.write_buf (wire (ask_sentinel r ∷ r ∷ []))

    heads :
        asking_bytes ++ (raw_bytes r.req ++ bc.write_buf)
        ≡ b'*' ∷ c ∷ (cs ++ wire (ask_sentinel r ∷ r ∷ []))
    heads = cancel bc.sent _ _ joined ∙ ap (λ b. b ++ wire (ask_sentinel r ∷ r ∷ [])) e

    second : {xs ys : Bytes} → b'*' ∷ b'1' ∷ xs ≡ b'*' ∷ c ∷ ys → c ≡ b'1'
    second h = cc
