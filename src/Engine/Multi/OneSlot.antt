-- ===== src/Engine/Multi/OneSlot.antt =====
-- The slot that `resolveMultiSlot` of pkg/engine/handler_tx.go finds for a transaction.
use pluster.Prelude.{
  ℕ, ◌≡◌, ◌⊎◌, inl, inr, refl, sym, ap, subst, ◌∙◌, Option, none, some, List, [], ◌∷◌, Bytes, All,
  ◌==◌, ==_iff, Bool-cases, Option-cases,
}
use pluster.Prelude.Index.{some_inj, none-some}
use pluster.Proto.Slot.{hash_slot}
use pluster.Proto.Request.{Request}
use pluster.Proto.Command.{get_first_key_from_request}
use pluster.Cluster.{Topology, get_node_for_slot}
use pluster.Engine.Multi.{
  resolved, unresolved, target_slot, serving_node, resolve_multi_slot, crossslot_multi,
}

-- The first key of a request is of a slot, if it has one.
abbrev pub InSlotOf : ℕ → Request → Type 0
InSlotOf slot req = (key : Bytes) → get_first_key_from_request req ≡ some key → hash_slot key ≡ slot

target_slot-some :
    (queue : List Request) (slot : ℕ) (out : Option ℕ)
    → target_slot (some slot) queue ≡ some out
    → (out ≡ some slot) × All (InSlotOf slot) queue
unfolding target_slot
target_slot-some [] slot out h = (cc, tt)
target_slot-some (req ∷ queue) slot out h = elim (Option-cases (get_first_key_from_request req)) [
  | inl n ↦
      let (p, q) = target_slot-some queue slot out (rw n at h) in
      (p, ((λ key e. absurd (none-some (sym n ∙ e))), q))
  | inr (k, n) ↦ elim (Bool-cases (hash_slot k == slot)) [
    | inl e ↦
        let (p, q) = target_slot-some queue slot out (rw (n, e) at h) in
        let at_slot = (==_iff (hash_slot k) slot).0 e in
        (p, ((λ key f. ap hash_slot (some_inj (sym f ∙ n)) ∙ at_slot), q))
    | inr e ↦ let no : none ≡ some out = rw (n, e) at h in cc
  ]
]

-- All keys of a queue are of one slot, or there is none.
abbrev pub OneSlot : Option ℕ → List Request → Type 0
OneSlot none queue = All (λ req. get_first_key_from_request req ≡ none) queue
OneSlot (some slot) queue = All (InSlotOf slot) queue

target_slot-OneSlot :
    (queue : List Request) (out : Option ℕ) → target_slot none queue ≡ some out → OneSlot out queue
unfolding target_slot
target_slot-OneSlot [] out h = let same : none ≡ out = cc in subst (λ o. OneSlot o []) same tt
target_slot-OneSlot (req ∷ queue) out h = elim (Option-cases (get_first_key_from_request req)) [
  | inl n ↦ with_first out (rw n at h) n (target_slot-OneSlot queue out (rw n at h))
  | inr (k, n) ↦
      let (p, q) = target_slot-some queue (hash_slot k) out (rw n at h) in
      subst (λ o. OneSlot o (req ∷ queue)) (sym p)
        ((λ key f. ap hash_slot (some_inj (sym f ∙ n))), q)
]
  where
    with_first :
        (o : Option ℕ)
        → target_slot none queue ≡ some o
        → get_first_key_from_request req ≡ none
        → OneSlot o queue
        → OneSlot o (req ∷ queue)
    with_first none h n a = (n, a)
    with_first (some slot) h n a = ((λ key f. absurd (none-some (sym n ∙ f))), a)

-- Where `resolveMultiSlot` gives an address, either no queued command has a key, or the first keys of
-- all queued commands that have one are of one slot, and the address is that of its master.
pub resolve_multi_slot-OneSlot :
    (t : Topology) (queue : List Request) (addr : Bytes)
    → resolve_multi_slot t queue ≡ resolved addr
    → All (λ req. get_first_key_from_request req ≡ none) queue
      ⊎ ((slot : ℕ) × All (InSlotOf slot) queue × (get_node_for_slot t slot ≡ some addr))
unfolding resolve_multi_slot
resolve_multi_slot-OneSlot t queue addr h = elim (Option-cases (target_slot none queue)) [
  | inl n ↦ let no : unresolved crossslot_multi ≡ resolved addr = rw n at h in cc
  | inr (none, n) ↦ inl (target_slot-OneSlot queue none n)
  | inr (some slot, n) ↦ inr (
    slot,
    target_slot-OneSlot queue (some slot) n,
    served slot (get_node_for_slot t slot) refl (rw n at h),
  )
]
  where
    served :
        (slot : ℕ) (o : Option Bytes)
        → get_node_for_slot t slot ≡ o
        → serving_node slot o ≡ resolved addr
        → get_node_for_slot t slot ≡ some addr
    served slot none p e = cc
    served slot (some a) p e = p ∙ cc
