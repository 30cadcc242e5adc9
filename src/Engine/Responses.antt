-- ===== src/Engine/Responses.antt =====
-- The response queue of a client in pkg/engine/handler.go: a slot is allocated for each request,
-- filled in any order, and written in the order of allocation.
pub mod History
pub mod Ordered
pub mod Steps
pub mod Gather
use pluster.Prelude.{
  ℕ, zero, suc, ◌+◌, ◌-◌, Bool, true, false, ◌||◌, not, Option, none, some, List, [], ◌∷◌, ◌++◌,
  map, leb, ltb, ◌==◌, if◌then◌else◌, Bytes, length, take, drop, get_elem?, set,
}

-- `fanInState`; `sub_data` holds the data of each `subResponse`, empty until it has come.
pub record FanIn : Type 0 where
  pub total : ℕ
  pub received : ℕ
  pub sub_data : List Bytes
  pub merge_func : List Bytes → Bytes

-- `responseSlot`.
pub record Slot : Type 0 where
  pub ready : Bool
  pub bytes : Bytes
  pub fan_in : Option FanIn

-- `respQueue` and `respBase` of `clientCtx`; what has been written to the connection, a write or an
-- element of a vectored write at a time; and the `iov` that the event loop's `writeAccum` holds for
-- the connection.
pub record Client : Type 0 where
  pub queue : List Slot
  pub base : ℕ
  pub written : List Bytes
  pub iov : List Bytes

abbrev pub empty_slot : Slot
empty_slot = record { ready = false; bytes = []; fan_in = none }

-- `allocResponseSlot`.
unfoldable pub alloc_response_slot : Client → Client × ℕ
alloc_response_slot c = (record c { queue = c.queue ++ empty_slot ∷ [] }, c.base + length c.queue)

-- `for head < len(queue) && queue[head].ready { head++ }`.
unfoldable pub ready_prefix : List Slot → ℕ
ready_prefix [] = 0
ready_prefix (s ∷ slots) = if s.ready then suc (ready_prefix slots) else 0

-- `queue[i]` with its fields assigned.
abbrev pub update_slot : ℕ → (Slot → Slot) → List Slot → List Slot
update_slot i f [] = []
update_slot zero f (s ∷ slots) = f s ∷ slots
update_slot (suc i) f (s ∷ slots) = s ∷ update_slot i f slots

abbrev pub with_data : Bytes → Slot → Slot
with_data b s = record s { ready = true; bytes = b }

-- Whether `relIdx < 0 || relIdx >= len(queue)` for `relIdx := absIdx - respBase`.
abbrev pub out_of_window : Client → ℕ → Bool
out_of_window c i = ltb i c.base || leb (c.base + length c.queue) i

-- The slots before `head` leave the queue, and their data is what is written.
abbrev pub pop_ready : Client → Client × List Bytes
pop_ready c =
    let head = ready_prefix c.queue in
    (
      record c { queue = drop head c.queue; base = c.base + head },
      map (λ (s : Slot). s.bytes) (take head c.queue),
    )

-- `fillResponseSlotInLoop`; the data goes to the connection at once.
unfoldable pub fill_response_slot_in_loop : Client → ℕ → Bytes → Client
unfolding ready_prefix
fill_response_slot_in_loop c i b =
    if out_of_window c i
    then c
    else let (c', out) =
        pop_ready (record c { queue = update_slot (i - c.base) (with_data b) c.queue }) in
      record c' { written = c'.written ++ out }

-- The data goes to `iov`.
abbrev pub pop_to_iov : Client → Client
pop_to_iov c = let (c', out) = pop_ready c in record c' { iov = c'.iov ++ out }

-- The part that `accumulateResponseSlot` and `accumulateFanInSubResponse` share: the slot at
-- `relIdx` is filled, and popped with those behind it if it is the first that was not ready.
abbrev pub settle : Client → ℕ → (Slot → Slot) → Client
settle c rel fill =
    let filled = record c { queue = update_slot rel fill c.queue } in
    if rel == ready_prefix c.queue then pop_to_iov filled else filled

abbrev pub is_some {ℓ} : {A : Type ℓ} → Option A → Bool
is_some none = false
is_some (some a) = true

abbrev pub has_fan_in : Option Slot → Bool
has_fan_in none = false
has_fan_in (some s) = is_some s.fan_in

-- `accumulateResponseSlot`.
unfoldable pub accumulate_response_slot : Client → ℕ → Bytes → Client
unfolding ready_prefix
accumulate_response_slot c i b =
    if out_of_window c i
    then c
    else if has_fan_in (get_elem? c.queue (i - c.base))
    then c
    else settle c (i - c.base) (with_data b)

abbrev pub slot_fan_in : Option Slot → Option FanIn
slot_fan_in none = none
slot_fan_in (some s) = s.fan_in

-- `fi.subData[subIdx] = …; fi.received++`.
abbrev pub received_one : FanIn → ℕ → Bytes → FanIn
received_one fi sub b = record fi { sub_data = set fi.sub_data sub b; received = fi.received + 1 }

-- `accumulateFanInSubResponse`, at the fan-in of the slot.
abbrev pub accumulate_fan_in : Client → ℕ → ℕ → Bytes → Option FanIn → Client
accumulate_fan_in c rel sub b none = c
accumulate_fan_in c rel sub b (some fi) =
    let fi' = received_one fi sub b in
    if ltb fi'.received fi'.total
    then record c { queue = update_slot rel (λ s. record s { fan_in = some fi' }) c.queue }
    else settle c rel
        (λ s. record { ready = true; bytes = fi'.merge_func fi'.sub_data; fan_in = none })

unfoldable pub accumulate_fan_in_sub_response : Client → ℕ → ℕ → Bytes → Client
unfolding ready_prefix
accumulate_fan_in_sub_response c i sub b =
    if out_of_window c i
    then c
    else accumulate_fan_in c (i - c.base) sub b (slot_fan_in (get_elem? c.queue (i - c.base)))

-- The entry of the client in `flushWriteAccum`.
unfoldable pub flush_write_accum : Client → Client
flush_write_accum c = record c { written = c.written ++ c.iov; iov = [] }
