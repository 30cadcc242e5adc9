-- ===== src/Engine/Responses/Steps.antt =====
-- Runs of the response queue in pkg/engine/handler.go: requests come, replies come in any order, and
-- the event loop flushes.
use pluster.Prelude.{
  ℕ, ◌+◌, ◌-◌, ◌<◌, ◌≤◌, ◌≡◌, Bool, true, false, ◌&&◌, Option, none, some, List, [], ◌∷◌, ◌++◌, leb,
  ltb, Bytes, length, get_elem?, set,
}
use pluster.Engine.Responses.{
  FanIn, Client, alloc_response_slot, fill_response_slot_in_loop, accumulate_response_slot,
  accumulate_fan_in_sub_response, flush_write_accum, has_fan_in, slot_fan_in,
}
use pluster.Engine.Responses.History.{history, answered, IsOrdered}
use pluster.Engine.Split.Route.{alloc_fan_in}

-- A client that has sent nothing.
abbrev pub new_client : Client
new_client = record { queue = []; base = 0; written = []; iov = [] }

-- Whether the reply to the `i`-th request may still come: there is such a request, and it or one
-- before it has no reply yet.
abbrev pub is_due : List (Option Bytes) → ℕ → Bool
is_due h i = leb (length (answered h)) i && ltb i (length h)

-- What the event loop has done for a client, beside what has come for it: for each request, oldest
-- first, the reply, if it has come. Nothing of the queue stands in this list. The data of a slot that
-- is filled at once goes to the connection behind what the last round of `flushWriteAccum` has
-- written.
pub data Run : Client → List (Option Bytes) → Type 0 where
  start : Run new_client []
  request :
      {c : Client} {h : List (Option Bytes)}
      → Run c h
      → Run (alloc_response_slot c).0 (h ++ none ∷ [])
  request_in_parts :
      {c : Client} {h : List (Option Bytes)} (fi : FanIn)
      → Run c h
      → Run (alloc_fan_in c fi).0 (h ++ none ∷ [])
  fill :
      {c : Client} {h : List (Option Bytes)} (i : ℕ) (b : Bytes)
      → Run c h
      → c.iov ≡ []
      → is_due h i ≡ true
      → Run (fill_response_slot_in_loop c i b) (set h i (some b))
  fill_late :
      {c : Client} {h : List (Option Bytes)} (i : ℕ) (b : Bytes)
      → Run c h
      → is_due h i ≡ false
      → Run (fill_response_slot_in_loop c i b) h
  reply :
      {c : Client} {h : List (Option Bytes)} (i : ℕ) (b : Bytes)
      → Run c h
      → is_due h i ≡ true
      → has_fan_in (get_elem? c.queue (i - c.base)) ≡ false
      → Run (accumulate_response_slot c i b) (set h i (some b))
  reply_late :
      {c : Client} {h : List (Option Bytes)} (i : ℕ) (b : Bytes)
      → Run c h
      → is_due h i ≡ false
      → Run (accumulate_response_slot c i b) h
  part :
      {c : Client} {h : List (Option Bytes)} (i sub : ℕ) (b : Bytes) (fi : FanIn)
      → Run c h
      → is_due h i ≡ true
      → slot_fan_in (get_elem? c.queue (i - c.base)) ≡ some fi
      → fi.received + 1 < fi.total
      → Run (accumulate_fan_in_sub_response c i sub b) h
  last_part :
      {c : Client} {h : List (Option Bytes)} (i sub : ℕ) (b : Bytes) (fi : FanIn)
      → Run c h
      → is_due h i ≡ true
      → slot_fan_in (get_elem? c.queue (i - c.base)) ≡ some fi
      → fi.total ≤ fi.received + 1
      → Run
          (accumulate_fan_in_sub_response c i sub b)
          (set h i (some (fi.merge_func (set fi.sub_data sub b))))
  flush : {c : Client} {h : List (Option Bytes)} → Run c h → Run (flush_write_accum c) h

-- The queue holds what has come.
record Holds (c : Client) (h : List (Option Bytes)) : Type 0 where
  is_history : history c ≡ h
  is_ordered : IsOrdered c
