-- ===== src/Pool/Pipeline/Rounds.antt =====
-- Every request of a batch is answered once, in order; the delay stays within its bounds; and what a
-- closed channel drops.
use pluster.Prelude.{
  ℕ, zero, suc, ◌<◌, ◌≤◌, ◌≡◌, ◌⊎◌, inl, inr, refl, ap, Bool, true, false, Option, none, some, List,
  [], ◌∷◌, ◌++◌, arith, Bytes, length, ltb, if◌then◌else◌,
}
use pluster.Pool.Pipeline.{
  PipeResp, val, err, PipeConn, shutdown, drain, Round, refuse_all, back_off, read_all, after_reads,
  exchange, connect_then, round, backoff_base, backoff_max, reset, read_then, unavailable,
  write_error,
}

module _ {R : Type 0} where
  length-refuse_all : (e : Bytes) (rs : List R) → length (refuse_all e rs) ≡ length rs
  unfolding refuse_all
  length-refuse_all e [] = refl
  length-refuse_all e (r ∷ rs) = ap suc (length-refuse_all e rs)

  length-read_then :
      (o : PipeResp) (rs : List R) (more : List PipeResp × Bool)
      → length more.0 ≡ length rs
      → length (read_then o rs more).0 ≡ suc (length rs)
  length-read_then (val v) rs (resps, up) h = ap suc h
  length-read_then (err e) rs more h = ap suc (length-refuse_all reset rs)

  length-read_all :
      (reads : ℕ → PipeResp) (i : ℕ) (rs : List R) → length (read_all reads i rs).0 ≡ length rs
  unfolding read_all
  length-read_all reads i [] = refl
  length-read_all reads i (r ∷ rs) =
      length-read_then (reads i) rs (read_all reads (suc i) rs) (length-read_all reads (suc i) rs)

-- The delay is 0, or between a tenth of a second and four seconds.
abbrev pub InBounds : PipeConn → Type 0
InBounds c =
    (c.backoff_delay ≡ 0) ⊎ (backoff_base ≤ c.backoff_delay) × (c.backoff_delay ≤ backoff_max)

-- What a round comes to: an answer for each request of the batch, and a delay within its bounds.
abbrev pub Answered : {R : Type 0} → List R → PipeConn × List PipeResp → Type 0
Answered pending r = (length r.1 ≡ length pending) × InBounds r.0

module _ {R : Type 0} (o : Round) (pending : List R) where
  if-Answered :
      (t : Bool) (x y : PipeConn × List PipeResp)
      → Answered pending x
      → Answered pending y
      → Answered pending (if t then x else y)
  if-Answered true x y p q = p
  if-Answered false x y p q = q

  backed_off :
      (c : PipeConn) (e : Bytes)
      → Answered pending (back_off o.later backoff_base c, refuse_all e pending)
  backed_off c e = (length-refuse_all e pending, inr (omega arith, omega arith))

  after_reads-Answered :
      (c : PipeConn) (r : List PipeResp × Bool)
      → InBounds c
      → length r.0 ≡ length pending
      → Answered pending (after_reads o c r)
  after_reads-Answered c (resps, true) b l = (l, b)
  after_reads-Answered c (resps, false) b l = (l, inr (omega arith, omega arith))

  exchange-Answered : (c : PipeConn) → InBounds c → Answered pending (exchange o c pending)
  unfolding exchange
  exchange-Answered c b =
      if-Answered o.written _ _
        (after_reads-Answered c (read_all o.reads 0 pending) b (length-read_all o.reads 0 pending))
        (backed_off c write_error)

  connect_then-Answered :
      (c : PipeConn) (e : Option Bytes) → InBounds c → Answered pending (connect_then o c pending e)
  connect_then-Answered c none b = exchange-Answered _ (inl refl)
  connect_then-Answered c (some e) b =
      (length-refuse_all e pending, inr (ground arith, ground arith))

  -- A round answers every request of its batch exactly once, whatever fails in it, and the delay
  -- before the next dial stays 0 or between a tenth of a second and four seconds.
  pub round-Answered :
      (c : PipeConn)
      → InBounds c
      → (length (round o c pending).1 ≡ length pending) × InBounds (round o c pending).0
  unfolding round
  round-Answered c b = if-Answered c.connected _ _ (exchange-Answered c b) (
      if-Answered (ltb o.now c.backoff_until) _ _ (length-refuse_all (unavailable c) pending, b)
        (connect_then-Answered c o.connect_error b))

-- Where the channel is closed and holds fewer than 63 more requests, the loop ends without a round
-- for the requests that it has taken out of the channel: none of them is answered.
pub drain-closed :
    {R : Type 0} (room : ℕ) (pending queue : List R)
    → length queue < room
    → drain room pending queue true ≡ shutdown
unfolding drain
drain-closed zero pending queue h = absurd (omega arith)
drain-closed (suc room) pending [] h = refl
drain-closed (suc room) pending (r ∷ queue) h =
    drain-closed room (pending ++ r ∷ []) queue (omega arith)
