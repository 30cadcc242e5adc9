-- ===== src/Engine/Responses/History.antt =====
-- What a client has been promised and given, as one list: the specification of the queue.
use mathlib.Core.List.{map-append}
use pluster.Prelude.{
  ℕ, zero, suc, ◌+◌, ◌≡◌, refl, sym, ◌∙◌, ap, Option, none, some, List, [], ◌∷◌, ◌++◌, map, arith,
  if◌then◌else◌, Bytes, length, length-append, length-map, take, drop, set, set-append,
  append_assoc, Bool-cases, inl, inr,
}
use pluster.Engine.Responses.{Slot, Client, ready_prefix, update_slot}

abbrev pub entry : Slot → Option Bytes
entry s = if s.ready then some s.bytes else none

abbrev pub outgoing : Client → List Bytes
outgoing c = c.written ++ c.iov

-- For each slot ever allocated, oldest first, its data, if it has been filled.
abbrev pub history : Client → List (Option Bytes)
history c = map some (outgoing c) ++ map entry c.queue

-- The replies that may go out: those before the first that is missing.
abbrev pub answered : List (Option Bytes) → List Bytes
answered [] = []
answered (none ∷ rest) = []
answered (some b ∷ rest) = b ∷ answered rest

pub ready_prefix-drop : (q : List Slot) → ready_prefix (drop (ready_prefix q) q) ≡ 0
unfolding ready_prefix
ready_prefix-drop [] = refl
ready_prefix-drop (s ∷ q) = ground (arith, ready_prefix-drop q)

-- The slots that are popped were filled.
entry-pop :
    (q : List Slot)
    → map entry q
      ≡ map some (map (λ (s : Slot). s.bytes) (take (ready_prefix q) q))
        ++ map entry (drop (ready_prefix q) q)
unfolding ready_prefix
entry-pop [] = refl
entry-pop (s ∷ q) = elim (Bool-cases s.ready) [
  | inl r ↦ rw r (ap (◌∷◌ (some s.bytes)) (entry-pop q))
  | inr r ↦ rw r
]

length-take_ready :
    (q : List Slot)
    → length (map (λ (s : Slot). s.bytes) (take (ready_prefix q) q)) ≡ ready_prefix q
unfolding ready_prefix
length-take_ready [] = refl
length-take_ready (s ∷ q) = ground (arith, length-take_ready q)

answered-outgoing :
    (out : List Bytes) (q : List Slot)
    → ready_prefix q ≡ 0
    → answered (map some out ++ map entry q) ≡ out
unfolding ready_prefix
answered-outgoing [] [] h = refl
answered-outgoing [] (s ∷ q) h = ground arith
answered-outgoing (b ∷ out) q h = ap (◌∷◌ b) (answered-outgoing out q h)

-- Filling a slot that is there fills its entry.
entry-update :
    (q : List Slot) (i : ℕ) (fill : Slot → Slot) (b : Bytes)
    → ((s : Slot) → entry (fill s) ≡ some b)
    → map entry (update_slot i fill q) ≡ set (map entry q) i (some b)
entry-update [] i fill b h = refl
entry-update (s ∷ q) zero fill b h = rw (h s)
entry-update (s ∷ q) (suc i) fill b h = ap (◌∷◌ (entry s)) (entry-update q i fill b h)

-- Changing what is no entry changes no entry.
pub entry-update_same :
    (q : List Slot) (i : ℕ) (f : Slot → Slot)
    → ((s : Slot) → entry (f s) ≡ entry s)
    → map entry (update_slot i f q) ≡ map entry q
entry-update_same [] i f h = refl
entry-update_same (s ∷ q) zero f h = rw (h s)
entry-update_same (s ∷ q) (suc i) f h = ap (◌∷◌ (entry s)) (entry-update_same q i f h)

-- The replies sent so far fill the slots below `respBase`, and the first slot of the queue waits.
pub record IsOrdered (c : Client) : Type 0 where
  pub counted : c.base ≡ length (outgoing c)
  pub waiting : ready_prefix c.queue ≡ 0

-- What has been sent is then all that may be sent.
pub answered-history : {c : Client} → IsOrdered c → answered (history c) ≡ outgoing c
answered-history {c} o = answered-outgoing (outgoing c) c.queue o.waiting

module _ (out : List Bytes) (q : List Slot) where
  -- The history when the ready slots of `q` are sent behind `out`.
  pub history-pop :
      map some (out ++ map (λ (s : Slot). s.bytes) (take (ready_prefix q) q))
        ++ map entry (drop (ready_prefix q) q)
      ≡ map some out ++ map entry q
  history-pop =
      rw (map-append some out (map (λ (s : Slot). s.bytes) (take (ready_prefix q) q)))
        (append_assoc (map some out) _ _ ∙ ap (◌++◌ (map some out)) (sym (entry-pop q)))

  pub length-pop :
      length out + ready_prefix q
      ≡ length (out ++ map (λ (s : Slot). s.bytes) (take (ready_prefix q) q))
  length-pop = omega (
    arith,
    length-append out (map (λ (s : Slot). s.bytes) (take (ready_prefix q) q)),
    length-take_ready q,
  )

  -- Filling the `i`-th slot of `q` in the history.
  pub history-update :
      (i : ℕ) (fill : Slot → Slot) (b : Bytes)
      → ((s : Slot) → entry (fill s) ≡ some b)
      → map some out ++ map entry (update_slot i fill q)
        ≡ set (map some out ++ map entry q) (length out + i) (some b)
  history-update i fill b h =
      rw (entry-update q i fill b h, ← length-map some out)
        (sym (set-append (map some out) (map entry q) i (some b)))
