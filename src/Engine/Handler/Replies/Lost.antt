-- ===== src/Engine/Handler/Replies/Lost.antt =====
-- RESET while a blocking command waits.
use pluster.Prelude.{
  ◌≡◌, refl, ◌∙◌, ap, false, none, some, List, [], ◌∷◌, ◌++◌, arith, Bytes, codes, length, ◌==◌,
}
use pluster.Proto.Outcome.{ok}
use pluster.Proto.Encode.{encode_simple_string}
use pluster.Engine.Responses.{Slot, Client, alloc_response_slot, empty_slot}
use pluster.Engine.Split.Route.{write_immediate}
use pluster.Engine.Multi.{say, reset_client_state}
use pluster.Engine.Handler.{Server, Ctx, BlockingConn, reply}
use pluster.Engine.Handler.Once.Multi.{reset_client_state-client}
use pluster.Engine.Handler.Dispatch.{close_blocking_of, reset, reset_and_reply}
use pluster.Engine.Handler.Replies.{on_blocking_close, lose_blocking}

reply-waits :
    (b : Bytes) (c : Ctx) (slot : Slot) (slots : List Slot)
    → c.session.client.queue ≡ slot ∷ slots
    → ((reply b c).session.client.queue ≡ (slot ∷ slots) ++ empty_slot ∷ [])
      × ((reply b c).session.client.written ≡ c.session.client.written)
unfolding reply say write_immediate alloc_response_slot
reply-waits b c slot slots q =
    let busy : (length (slot ∷ slots) == 0) ≡ false = ground arith in
    rw (reply, say, write_immediate, q, busy) (refl, refl)

close-lem :
    (c : Ctx) (d : BlockingConn)
    → c.blocking_backend ≡ some d
    → reset c ≡ record c {
      session = reset_client_state c.session;
      blocking_backend = none;
      closed = c.closed ++ d.number ∷ [];
    }
unfolding reset
close-lem c d b =
    ap (λ o. close_blocking_of o (record c { session = reset_client_state c.session })) b

-- Where RESET comes while a command blocks on a connection, so that a slot waits: the connection is
-- closed, the queue of the client keeps all its slots as they are and has one more for the answer to
-- RESET, nothing is written, and the loss of the connection fills no slot either.
pub reset_and_reply-waits :
    (srv : Server) (c : Ctx) (d : BlockingConn) (slot : Slot) (slots : List Slot)
    → c.blocking_backend ≡ some d
    → c.session.client.queue ≡ slot ∷ slots
    → let c' = reset_and_reply c in
      (c'.session.client.queue ≡ (slot ∷ slots) ++ empty_slot ∷ [])
      × (c'.session.client.written ≡ c.session.client.written)
      × (c'.closed ≡ c.closed ++ d.number ∷ [])
      × (on_blocking_close srv d.number c' ≡ ok c')
unfolding reset reply say write_immediate alloc_response_slot on_blocking_close
reset_and_reply-waits srv c d slot slots b q =
    let still : (reset c).session.client ≡ c.session.client =
      ap (λ (x : Ctx). x.session.client) (close-lem c d b) ∙ reset_client_state-client c.session in
    let (queue, written) =
      reply-waits (encode_simple_string (codes "RESET")) (reset c) slot slots
        (ap (λ (x : Client). x.queue) still ∙ q) in
    let gone : (reset_and_reply c).blocking_backend ≡ none =
      ap (λ (x : Ctx). x.blocking_backend) (close-lem c d b) in
    (
      queue,
      written ∙ ap (λ (x : Client). x.written) still,
      ap (λ (x : Ctx). x.closed) (close-lem c d b),
      ap (λ o. lose_blocking srv d.number o (reset_and_reply c)) gone,
    )
