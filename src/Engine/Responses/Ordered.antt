-- ===== src/Engine/Responses/Ordered.antt =====
-- Replies go out in the order of the requests, whatever the order in which they come.
use pluster.Prelude.{
  ℕ, zero, suc, ◌+◌, ◌-◌, ◌≡◌, ◌≢◌, ◌||◌, refl, sym, ◌∙◌, ap, false, Option, none, some, List, [],
  ◌∷◌, ◌++◌, map, append-nil, append_assoc, arith, ◌==◌, if◌then◌else◌, ltb, Bytes, length,
  length-append, length-map, get_elem?, set, take, drop, Bool-cases, inl, inr,
}
use mathlib.Core.Path.{ap₂}
use mathlib.Core.List.{map-append}
use pluster.Engine.Responses.{
  Slot, FanIn, Client, empty_slot, alloc_response_slot, ready_prefix, update_slot, with_data,
  out_of_window, fill_response_slot_in_loop, settle, has_fan_in, accumulate_response_slot,
  received_one, slot_fan_in, accumulate_fan_in_sub_response,
}
use pluster.Engine.Responses.History.{
  entry, outgoing, history, IsOrdered, ready_prefix-drop, history-pop, length-pop, history-update,
  entry-update_same,
}

ready_prefix-append : (q : List Slot) → ready_prefix q ≡ 0 → ready_prefix (q ++ empty_slot ∷ []) ≡ 0
unfolding ready_prefix
ready_prefix-append [] h = refl
ready_prefix-append (s ∷ q) h = ground arith

-- A slot is allocated at the end of the history, at the index that is returned.
pub alloc_response_slot-history :
    (c : Client)
    → IsOrdered c
    → (history (alloc_response_slot c).0 ≡ history c ++ none ∷ [])
      × ((alloc_response_slot c).1 ≡ length (history c))
      × IsOrdered (alloc_response_slot c).0
unfolding alloc_response_slot
alloc_response_slot-history c o = (
  rw (map-append entry c.queue (empty_slot ∷ []))
      (sym (append_assoc (map some (outgoing c)) (map entry c.queue) (none ∷ []))),
  omega (
    arith,
    o.counted,
    length-append (map some (outgoing c)) (map entry c.queue),
    length-map {B = Option Bytes} some (outgoing c),
    length-map entry c.queue,
  ),
  record { counted = o.counted; waiting = ready_prefix-append c.queue o.waiting },
)

-- `d` is `c` with the queue `q`, the ready slots of it sent.
record Sent (c : Client) (q : List Slot) (d : Client) : Type 0 where
  queue_is : d.queue ≡ drop (ready_prefix q) q
  base_is : d.base ≡ c.base + ready_prefix q
  outgoing_is : outgoing d ≡ outgoing c ++ map (λ (s : Slot). s.bytes) (take (ready_prefix q) q)

Sent-history :
    {c d : Client} (q : List Slot)
    → IsOrdered c
    → Sent c q d
    → (history d ≡ map some (outgoing c) ++ map entry q) × IsOrdered d
Sent-history {c} {d} q o s = (
  ap₂ (λ out r. map some out ++ map entry r) s.outgoing_is s.queue_is ∙ history-pop (outgoing c) q,
  record {
    counted =
        omega (arith, o.counted, s.base_is, length-pop (outgoing c) q, ap length s.outgoing_is);
    waiting = ap ready_prefix s.queue_is ∙ ready_prefix-drop q;
  },
)

-- The `i`-th slot ever allocated, if it is in the queue, filled in the history.
history-fill :
    (c : Client) (i : ℕ) (fill : Slot → Slot) (b : Bytes)
    → IsOrdered c
    → out_of_window c i ≡ false
    → ((s : Slot) → entry (fill s) ≡ some b)
    → map some (outgoing c) ++ map entry (update_slot (i - c.base) fill c.queue)
      ≡ set (history c) i (some b)
history-fill c i fill b o w h =
    history-update (outgoing c) c.queue (i - c.base) fill b h
    ∙ ap (λ k. set (history c) k (some b)) (ground (arith, o.counted))

-- A slot of the queue that the event loop fills is filled in the history, and the replies that may
-- go out are written at once. No reply of another slot is held back for the connection.
pub fill_response_slot_in_loop-history :
    (c : Client) (i : ℕ) (b : Bytes)
    → IsOrdered c
    → c.iov ≡ []
    → out_of_window c i ≡ false
    → (history (fill_response_slot_in_loop c i b) ≡ set (history c) i (some b))
      × IsOrdered (fill_response_slot_in_loop c i b)
fill_response_slot_in_loop-history c i b o e w =
    let q = update_slot (i - c.base) (with_data b) c.queue in
    let (h, o') = Sent-history {d = fill_response_slot_in_loop c i b} q o sent in
    (h ∙ history-fill c i (with_data b) b o w (λ s. refl), o')
  where
    move : (w x v : List Bytes) → v ≡ [] → (w ++ x) ++ v ≡ (w ++ v) ++ x
    move w x v h = rw h (rw (append-nil, append-nil))

    sent :
        Sent c (update_slot (i - c.base) (with_data b) c.queue) (fill_response_slot_in_loop c i b)
    sent =
        unfold fill_response_slot_in_loop in
        rw w (record { queue_is = refl; base_is = refl; outgoing_is = move c.written _ c.iov e })

ready_prefix-update :
    (q : List Slot) (k : ℕ) (fill : Slot → Slot)
    → ready_prefix q ≡ 0
    → k ≢ 0
    → ready_prefix (update_slot k fill q) ≡ 0
unfolding ready_prefix
ready_prefix-update [] k fill h n = refl
ready_prefix-update (s ∷ q) zero fill h n = absurd (n refl)
ready_prefix-update (s ∷ q) (suc k) fill h n = ground arith

-- A slot that `settle` fills is filled in the history.
settle-history :
    (c : Client) (i : ℕ) (fill : Slot → Slot) (b : Bytes)
    → IsOrdered c
    → out_of_window c i ≡ false
    → ((s : Slot) → entry (fill s) ≡ some b)
    → (history (settle c (i - c.base) fill) ≡ set (history c) i (some b))
      × IsOrdered (settle c (i - c.base) fill)
settle-history c i fill b o w h = elim (Bool-cases (i - c.base == ready_prefix c.queue)) [
  | inl first ↦ rw first (
      let q = update_slot (i - c.base) fill c.queue in
      let (g, o') = Sent-history q o (record {
        queue_is = refl;
        base_is = refl;
        outgoing_is = sym (append_assoc c.written c.iov _);
      }) in
      (g ∙ history-fill c i fill b o w h, o'))
  | inr later ↦ rw later (
    history-fill c i fill b o w h,
    record {
      counted = o.counted;
      waiting = ready_prefix-update c.queue (i - c.base) fill o.waiting (ground (arith, o.waiting));
    },
  )
]

-- A reply from a backend is filled in the history at the slot of its request, if that is in the
-- queue and is no fan-in; else nothing changes.
pub accumulate_response_slot-history :
    (c : Client) (i : ℕ) (b : Bytes)
    → IsOrdered c
    → (history (accumulate_response_slot c i b) ≡ (
        if out_of_window c i || has_fan_in (get_elem? c.queue (i - c.base))
        then history c
        else set (history c) i (some b)))
      × IsOrdered (accumulate_response_slot c i b)
unfolding accumulate_response_slot
accumulate_response_slot-history c i b o = elim (Bool-cases (out_of_window c i)) [
  | inl out ↦ rw out (refl, o)
  | inr w ↦ elim (Bool-cases (has_fan_in (get_elem? c.queue (i - c.base)))) [
    | inl fan ↦ rw (w, fan) (refl, o)
    | inr plain ↦ rw (w, plain) (settle-history c i (with_data b) b o w (λ s. refl))
  ]
]

-- What one more sub-reply makes of a fan-in: the merged reply, once all have come.
abbrev pub merged : FanIn → ℕ → Bytes → Option Bytes
merged fi sub b =
    let fi' = received_one fi sub b in
    if ltb fi'.received fi'.total then none else some (fi'.merge_func fi'.sub_data)

abbrev pub set_if : List (Option Bytes) → ℕ → Option Bytes → List (Option Bytes)
set_if h i none = h
set_if h i (some b) = set h i (some b)

pub ready_prefix-update_same :
    (q : List Slot) (k : ℕ) (f : Slot → Slot)
    → ((s : Slot) → (f s).ready ≡ s.ready)
    → ready_prefix (update_slot k f q) ≡ ready_prefix q
unfolding ready_prefix
ready_prefix-update_same [] k f h = refl
ready_prefix-update_same (s ∷ q) zero f h = rw (h s)
ready_prefix-update_same (s ∷ q) (suc k) f h = ground (arith, ready_prefix-update_same q k f h)

-- The last sub-reply of a fan-in fills the slot with the merged replies; those before it fill
-- nothing.
pub accumulate_fan_in_sub_response-history :
    (c : Client) (i sub : ℕ) (b : Bytes) (fi : FanIn)
    → IsOrdered c
    → out_of_window c i ≡ false
    → slot_fan_in (get_elem? c.queue (i - c.base)) ≡ some fi
    → (history (accumulate_fan_in_sub_response c i sub b) ≡ set_if (history c) i (merged fi sub b))
      × IsOrdered (accumulate_fan_in_sub_response c i sub b)
unfolding accumulate_fan_in_sub_response
accumulate_fan_in_sub_response-history c i sub b fi o w f =
    rw (w, f)
      (elim (Bool-cases (ltb (fi.received + 1) fi.total)) [
        | inl more ↦ rw more (
          ap (λ r. map some (outgoing c) ++ r)
              (entry-update_same c.queue (i - c.base) _ (λ s. refl)),
          record {
            counted = o.counted;
            waiting = ready_prefix-update_same c.queue (i - c.base) _ (λ s. refl) ∙ o.waiting;
          },
        )
        | inr last ↦
            rw last (settle-history c i _ (fi.merge_func (set fi.sub_data sub b)) o w (λ s. refl))
      ])
