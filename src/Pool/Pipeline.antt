-- ===== src/Pool/Pipeline.antt =====
-- `pipeConn` of pkg/pool/pipeline.go: one goroutine takes the requests for a node from a channel, in
-- batches, writes them and hands out the replies. A round of its loop, and the delays after failures.
pub mod Rounds
use pluster.Prelude.{
  ℕ, zero, suc, ◌+◌, ◌-◌, ◌*◌, Bool, true, false, Option, none, some, List, [], ◌∷◌, ◌++◌, ltb,
  ◌==◌, if◌then◌else◌, Bytes, codes,
}
use pluster.Proto.Value.{Value}

-- `pipeResp`, and what `ReadValue` returns.
pub data PipeResp : Type 0 where
  val : Value → PipeResp
  err : Bytes → PipeResp

-- Nanoseconds.
abbrev pub backoff_base : ℕ
backoff_base = 100000000

abbrev pub backoff_max : ℕ
backoff_max = 4000000000

abbrev pub batch_size : ℕ
batch_size = 64

-- `nc != nil`, `backoffUntil` and `backoffDelay`; the address.
pub record PipeConn : Type 0 where
  pub addr : Bytes
  pub connected : Bool
  pub backoff_until : ℕ
  pub backoff_delay : ℕ

-- The loop at `drainMore`: from what stands in the channel, `room` more requests at most; where the
-- channel is closed and empty, it goes to `shutdown`.
pub data Drained (R : Type 0) : Type 0 where
  batch : List R → List R → Drained R
  shutdown : Drained R

unfoldable pub drain : {R : Type 0} → ℕ → List R → List R → Bool → Drained R
drain zero pending queue closed = batch pending queue
drain (suc room) pending [] closed = if closed then shutdown else batch pending []
drain (suc room) pending (r ∷ queue) closed = drain room (pending ++ r ∷ []) queue closed

-- `for req := range pc.reqCh`: the first request, and the batch that it opens.
abbrev pub take_batch : {R : Type 0} → R → List R → Bool → Drained R
take_batch r queue closed = drain (batch_size - 1) (r ∷ []) queue closed

-- What a round meets outside: the time at its two readings, the error of `connect`, whether all
-- requests could be written and flushed, and what each `ReadValue` returns.
pub record Round : Type 0 where
  pub now : ℕ
  pub later : ℕ
  pub connect_error : Option Bytes
  pub written : Bool
  pub reads : ℕ → PipeResp

-- The same error for all.
unfoldable pub refuse_all : {R : Type 0} → Bytes → List R → List PipeResp
refuse_all e [] = []
refuse_all e (r ∷ rs) = err e ∷ refuse_all e rs

abbrev pub longer : ℕ → ℕ
longer delay =
    if delay == 0
    then backoff_base
    else if ltb backoff_max (delay * 2)
    then backoff_max
    else delay * 2

abbrev pub back_off : ℕ → ℕ → PipeConn → PipeConn
back_off later delay c = record c {
  connected = false;
  backoff_delay = delay;
  backoff_until = later + delay;
}

-- The last loop: the replies, and whether the connection still stands.
abbrev pub reset : Bytes
reset = codes "connection reset"

abbrev pub read_then :
    {R : Type 0} → PipeResp → List R → List PipeResp × Bool → List PipeResp × Bool
read_then (val v) rs (resps, up) = (val v ∷ resps, up)
read_then (err e) rs more = (err e ∷ refuse_all reset rs, false)

unfoldable pub read_all : {R : Type 0} → (ℕ → PipeResp) → ℕ → List R → List PipeResp × Bool
unfolding refuse_all
read_all reads i [] = ([], true)
read_all reads i (r ∷ rs) = read_then (reads i) rs (read_all reads (suc i) rs)

abbrev pub after_reads : Round → PipeConn → List PipeResp × Bool → PipeConn × List PipeResp
after_reads o c (resps, true) = (c, resps)
after_reads o c (resps, false) = (back_off o.later backoff_base c, resps)

abbrev pub write_error : Bytes
write_error = codes "write error"

-- With a connection.
unfoldable pub exchange : {R : Type 0} → Round → PipeConn → List R → PipeConn × List PipeResp
unfolding read_all refuse_all
exchange o c pending =
    if o.written
    then after_reads o c (read_all o.reads 0 pending)
    else (back_off o.later backoff_base c, refuse_all write_error pending)

abbrev pub connect_then :
    {R : Type 0} → Round → PipeConn → List R → Option Bytes → PipeConn × List PipeResp
connect_then o c pending none =
    exchange o (record c { connected = true; backoff_delay = 0; backoff_until = 0 }) pending
connect_then o c pending (some e) =
    (back_off o.later (longer c.backoff_delay) c, refuse_all e pending)

abbrev pub unavailable : PipeConn → Bytes
unavailable c = (codes "backend " ++ c.addr) ++ codes " unavailable (reconnecting)"

-- A round of the loop, from the batch on.
unfoldable pub round : {R : Type 0} → Round → PipeConn → List R → PipeConn × List PipeResp
unfolding exchange refuse_all
round o c pending =
    if c.connected
    then exchange o c pending
    else if ltb o.now c.backoff_until
    then (c, refuse_all (unavailable c) pending)
    else connect_then o c pending o.connect_error
