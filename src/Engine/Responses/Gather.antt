-- ===== src/Engine/Responses/Gather.antt =====
-- The parts of a reply for one slot of the queue in pkg/engine/handler.go, in whatever order they come.
use pluster.Prelude.{
  ℕ, zero, suc, ◌+◌, ◌-◌, ◌≡◌, refl, ◌∙◌, ap, true, false, some, List, [], ◌∷◌, ltb, Bytes, length,
  get_elem?, set, arith,
}
use pluster.Prelude.Index.{none-some}
use pluster.Engine.Responses.{
  Slot, FanIn, Client, update_slot, out_of_window, slot_fan_in, received_one,
  accumulate_fan_in_sub_response,
}
use pluster.Engine.Responses.History.{history, IsOrdered}
use pluster.Engine.Responses.Ordered.{accumulate_fan_in_sub_response-history}

-- The parts, each with its number, as they come for the slot `i`.
unfoldable pub gather : ℕ → List (ℕ × Bytes) → Client → Client
unfolding accumulate_fan_in_sub_response
gather i [] c = c
gather i ((sub, b) ∷ parts) c = gather i parts (accumulate_fan_in_sub_response c i sub b)

-- The parts in their places.
abbrev pub placed : List (ℕ × Bytes) → List Bytes → List Bytes
placed [] slots = slots
placed ((sub, b) ∷ parts) slots = placed parts (set slots sub b)

slot_fan_in-update :
    (q : List Slot) (k : ℕ) (fi fi' : FanIn)
    → slot_fan_in (get_elem? q k) ≡ some fi
    → slot_fan_in (get_elem? (update_slot k (λ s. record s { fan_in = some fi' }) q) k) ≡ some fi'
slot_fan_in-update [] k fi fi' h = absurd (none-some h)
slot_fan_in-update (s ∷ q) zero fi fi' h = refl
slot_fan_in-update (s ∷ q) (suc k) fi fi' h = slot_fan_in-update q k fi fi' h

length-update : (q : List Slot) (k : ℕ) (f : Slot → Slot) → length (update_slot k f q) ≡ length q
length-update [] k f = refl
length-update (s ∷ q) zero f = refl
length-update (s ∷ q) (suc k) f = ap suc (length-update q k f)

-- A part that is not the last one is kept in the slot, which stays in the queue.
record Kept (c d : Client) (i : ℕ) (fi : FanIn) : Type 0 where
  in_window : out_of_window d i ≡ false
  waits : slot_fan_in (get_elem? d.queue (i - d.base)) ≡ some fi

part-Kept :
    (c : Client) (i sub : ℕ) (b : Bytes) (fi : FanIn)
    → out_of_window c i ≡ false
    → slot_fan_in (get_elem? c.queue (i - c.base)) ≡ some fi
    → ltb (fi.received + 1) fi.total ≡ true
    → Kept c (accumulate_fan_in_sub_response c i sub b) i (received_one fi sub b)
unfolding accumulate_fan_in_sub_response
part-Kept c i sub b fi w f more =
    let fill = λ (s : Slot). record s { fan_in = some (received_one fi sub b) } in
    let same = length-update c.queue (i - c.base) fill in
    rw (w, f, more)
      (record {
        in_window = rw same w;
        waits = slot_fan_in-update c.queue (i - c.base) fi (received_one fi sub b) f;
      })

-- When as many parts have come for a slot of the queue as it waits for, in whatever order, the slot
-- has the merge of all parts in their places, and no other reply has changed.
pub gather-history :
    (c : Client) (i : ℕ) (fi : FanIn) (p : ℕ × Bytes) (parts : List (ℕ × Bytes))
    → IsOrdered c
    → out_of_window c i ≡ false
    → slot_fan_in (get_elem? c.queue (i - c.base)) ≡ some fi
    → fi.received + length (p ∷ parts) ≡ fi.total
    → history (gather i (p ∷ parts) c)
      ≡ set (history c) i (some (fi.merge_func (placed (p ∷ parts) fi.sub_data)))
unfolding gather
gather-history c i fi (sub, b) [] o w f n =
    let last : ltb (fi.received + 1) fi.total ≡ false = ground (arith, n) in
    (accumulate_fan_in_sub_response-history c i sub b fi o w f).0 ∙ rw last refl
gather-history c i fi (sub, b) (p ∷ parts) o w f n =
    let more : ltb (fi.received + 1) fi.total ≡ true = ground (arith, n) in
    let (same, o') = accumulate_fan_in_sub_response-history c i sub b fi o w f in
    let kept = part-Kept c i sub b fi w f more in
    let unchanged : history (accumulate_fan_in_sub_response c i sub b) ≡ history c =
      same ∙ rw more refl in
    gather-history (accumulate_fan_in_sub_response c i sub b) i (received_one fi sub b) p parts o'
      kept.in_window kept.waits (omega (arith, n))
    ∙ ap (λ h. set h i (some (fi.merge_func (placed ((sub, b) ∷ p ∷ parts) fi.sub_data)))) unchanged
