-- ===== src/Engine/Pubsub/Messages/Traffic.antt =====
-- `onSharedBackendTraffic` of pkg/engine/pubsub_hub.go: all whole messages that have come are handed
-- out. The fuel is the length of what has been received.
use pluster.Prelude.{
  ℕ, zero, suc, ◌≤◌, ◌<◌, ◌≡◌, ◌≢◌, refl, Bool, true, false, List, [], ◌∷◌, ◌++◌, Bytes, length,
  drop, drop-length-append, arith, All,
}
use pluster.Proto.Outcome.{Outcome, ok, incomplete, invalid, panicked, stuck, ◌>>=◌, >>=-ne-stuck}
use pluster.Proto.Line.{length-drop}
use pluster.Proto.Value.{Value}
use pluster.Proto.Int64.{half_word}
use pluster.Proto.Encode.{encode_value}
use pluster.Proto.Encode.Render.{IsEncodable}
use pluster.Proto.Encode.RoundTrip.{parse_value-encode_value}
use pluster.Proto.Parse.{parse_value}
use pluster.Proto.Parse.Total.{parse_value_bounds, parse_value_total}
use pluster.Engine.Pubsub.{Hub}
use pluster.Engine.Pubsub.Messages.{Writes, dispatch_message}

-- What is written to clients, what is left in the buffer, and whether the connection is closed.
pub record Received : Type 0 where
  pub writes : Writes
  pub left : Bytes
  pub closes : Bool

module _ (glob_match : Bytes → Bytes → Bool) (hub : Hub) (patterns : List Bytes) where
  -- What follows `ParseValue`, with the rest of the loop.
  abbrev after_value : (Bytes → Outcome Received) → Bytes → Outcome (Value × ℕ) → Outcome Received
  after_value next buf (ok (v, consumed)) = do
    r ← next (drop consumed buf)
    ok (record r { writes = dispatch_message glob_match hub patterns v ++ r.writes })
  after_value next buf incomplete = ok (record { writes = []; left = buf; closes = false })
  after_value next buf invalid = ok (record { writes = []; left = buf; closes = true })
  after_value next buf panicked = panicked
  after_value next buf stuck = stuck

  unfoldable received : ℕ → Bytes → Outcome Received
  unfolding parse_value dispatch_message
  received f [] = ok (record { writes = []; left = []; closes = false })
  received zero (b ∷ buf) = stuck
  received (suc f) (b ∷ buf) = after_value (received f) (b ∷ buf) (parse_value (b ∷ buf))

  -- `onSharedBackendTraffic`.
  unfoldable pub on_shared_backend_traffic : Bytes → Outcome Received
  unfolding received
  on_shared_backend_traffic buf = received (length buf) buf

  after_value-ne-stuck :
      (f : ℕ) (next : Bytes → Outcome Received)
      → ((left : Bytes) → length left ≤ f → next left ≢ stuck)
      → (buf : Bytes) (o : Outcome (Value × ℕ)) → length buf ≤ suc f
      → o ≢ stuck
      → ((v : Value) (e : ℕ) → o ≡ ok (v, e) → (0 < e) × (e ≤ length buf))
      → after_value next buf o ≢ stuck
  after_value-ne-stuck f next live buf (ok (v, e)) h n b =
      >>=-ne-stuck (next (drop e buf)) _
        (live (drop e buf) (omega (arith, b v e refl, length-drop e buf (b v e refl).1)))
        (λ r p q. cc)
  after_value-ne-stuck f next live buf incomplete h n b = λ e. cc
  after_value-ne-stuck f next live buf invalid h n b = λ e. cc
  after_value-ne-stuck f next live buf panicked h n b = λ e. cc
  after_value-ne-stuck f next live buf stuck h n b = absurd (n refl)

  received-ne-stuck : (f : ℕ) (buf : Bytes) → length buf ≤ f → received f buf ≢ stuck
  unfolding received
  received-ne-stuck f [] h = λ e. cc
  received-ne-stuck zero (b ∷ buf) h = absurd (omega arith)
  received-ne-stuck (suc f) (b ∷ buf) h =
      after_value-ne-stuck f (received f) (received-ne-stuck f) (b ∷ buf) (parse_value (b ∷ buf)) h
        (parse_value_total (b ∷ buf)) (parse_value_bounds (b ∷ buf))

  -- The loop ends on every buffer.
  pub on_shared_backend_traffic_total : (buf : Bytes) → on_shared_backend_traffic buf ≢ stuck
  unfolding on_shared_backend_traffic
  on_shared_backend_traffic_total buf = received-ne-stuck (length buf) buf (omega arith)

  -- The encodings of messages, one behind another, and what is written for them.
  abbrev pub stream : List Value → Bytes
  stream [] = []
  stream (v ∷ vs) = encode_value v ++ stream vs

  abbrev pub dispatch_all : List Value → Writes
  dispatch_all [] = []
  dispatch_all (v ∷ vs) = dispatch_message glob_match hub patterns v ++ dispatch_all vs

  abbrev pub IsSendable : Value → Type 0
  IsSendable v = IsEncodable v × (length (encode_value v) < half_word)

  received-parsed :
      (f : ℕ) (b : ℕ) (buf : Bytes) (v : Value) (e : ℕ) (r : Received)
      → parse_value (b ∷ buf) ≡ ok (v, e)
      → received f (drop e (b ∷ buf)) ≡ ok r
      → received (suc f) (b ∷ buf)
        ≡ ok (record r { writes = dispatch_message glob_match hub patterns v ++ r.writes })
  unfolding received
  received-parsed f b buf v e r p q = rw (p, q) refl

  received-nonempty :
      (f : ℕ) (buf : Bytes) (v : Value) (e : ℕ) (r : Received)
      → length buf ≤ f
      → parse_value buf ≡ ok (v, e)
      → ((g : ℕ) → length (drop e buf) ≤ g → received g (drop e buf) ≡ ok r)
      → received f buf
        ≡ ok (record r { writes = dispatch_message glob_match hub patterns v ++ r.writes })
  received-nonempty f [] v e r h p q = absurd (omega (arith, parse_value_bounds [] v e p))
  received-nonempty zero (b ∷ buf) v e r h p q = absurd (omega arith)
  received-nonempty (suc f) (b ∷ buf) v e r h p q = received-parsed f b buf v e r p (
      q f (
        let (lo, hi) = parse_value_bounds (b ∷ buf) v e p in
        omega (arith, length-drop e (b ∷ buf) hi)))

  received-stream :
      (vs : List Value) (f : ℕ)
      → All IsSendable vs
      → length (stream vs) ≤ f
      → received f (stream vs) ≡ ok (record { writes = dispatch_all vs; left = []; closes = false })
  unfolding received
  received-stream [] f hs h = refl
  received-stream (v ∷ vs) f ((i, s), hs) h =
      received-nonempty f (stream (v ∷ vs)) v (length (encode_value v))
        (record { writes = dispatch_all vs; left = []; closes = false }) h
        (parse_value-encode_value v (stream vs) i s)
        (λ g. rw (drop-length-append (encode_value v) (stream vs)) (received-stream vs g hs))

  -- Whatever messages the backend has sent, if all are encodable, shorter than 2^63 bytes and have
  -- come whole: each is handed out, in the order in which they were sent, nothing is left of them,
  -- and the connection stays open.
  pub on_shared_backend_traffic-stream :
      (vs : List Value)
      → All IsSendable vs
      → on_shared_backend_traffic (stream vs)
        ≡ ok (record { writes = dispatch_all vs; left = []; closes = false })
  unfolding on_shared_backend_traffic
  on_shared_backend_traffic-stream vs hs = received-stream vs (length (stream vs)) hs (omega arith)
