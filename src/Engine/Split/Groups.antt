-- ===== src/Engine/Split/Groups.antt =====
-- The groups of `routeMultiKeyToMux`: which keys stand in them, and where.
use pluster.Prelude.{
  ℕ, suc, ◌<◌, ◌≡◌, ◌≢◌, inl, inr, refl, sym, ◌∙◌, ap, subst, Option, none, some, List, [], ◌∷◌,
  ◌++◌, append_assoc, append-nil, arith, Bytes, All, All-append, length, length-append, get_elem?,
  ◌==◌, ==_iff, Bool-cases, Option-cases,
}
use pluster.Prelude.Index.{In-append_left, In-append_last, get_elem?-behind}
use pluster.Proto.Slot.{hash_slot}
use pluster.Engine.Split.{SlotGroup, Grouped, grouped, no_node, add_to, add_key, group_keys}
use pluster.Engine.Split.Merge.Mget.{Indexes, Covered}

module _ (serving : ℕ → Option Bytes) (slot i : ℕ) (k : Bytes) where
  -- What a round of the loop does to the groups.
  pub data Added : List SlotGroup → List SlotGroup → Type 0 where
    opened :
        (addr : Bytes)
        → serving slot ≡ some addr
        → Added [] (record { slot = slot; addr = addr; indices = i ∷ []; keys = k ∷ [] } ∷ [])
    joined :
        (g : SlotGroup) (gs : List SlotGroup) → g.slot ≡ slot → Added (g ∷ gs) (add_to g i k ∷ gs)
    later :
        (g : SlotGroup) (gs gs' : List SlotGroup)
        → g.slot ≢ slot
        → Added gs gs'
        → Added (g ∷ gs) (g ∷ gs')

  -- What the round returns is what it has added.
  some-Added : (gs out gs' : List SlotGroup) → Added gs out → some out ≡ some gs' → Added gs gs'
  some-Added gs out gs' a e = let same : out ≡ gs' = cc in subst (Added gs) same a

  pub add_key-Added :
      (gs gs' : List SlotGroup) → add_key serving slot i k gs ≡ some gs' → Added gs gs'
  unfolding add_key
  add_key-Added [] gs' h = elim (Option-cases (serving slot)) [
    | inl e ↦ let no : none ≡ some gs' = rw e at h in cc
    | inr (addr, e) ↦ some-Added [] _ gs' (opened addr e) (rw e at h)
  ]
  add_key-Added (g ∷ gs) gs' h = elim (Bool-cases (g.slot == slot)) [
    | inl e ↦ some-Added (g ∷ gs) _ gs' (joined g gs ((==_iff g.slot slot).0 e)) (rw e at h)
    | inr e ↦ elim (Option-cases (add_key serving slot i k gs)) [
      | inl n ↦ let no : none ≡ some gs' = rw (e, n) at h in cc
      | inr (out, n) ↦
          some-Added (g ∷ gs) (g ∷ out) gs'
            (later g gs out (λ p. ground (arith, e, p)) (add_key-Added gs out n)) (rw (e, n) at h)
    ]
  ]

  -- A predicate that a new group has, and that a group keeps, holds of all groups.
  Added-All :
      (P : SlotGroup → Type 0) {gs gs' : List SlotGroup}
      → Added gs gs'
      → ((addr : Bytes)
          → serving slot ≡ some addr
          → P (record { slot = slot; addr = addr; indices = i ∷ []; keys = k ∷ [] }))
      → ((g : SlotGroup) → g.slot ≡ slot → P g → P (add_to g i k))
      → All P gs
      → All P gs'
  Added-All P (opened addr e) new old a = (new addr e, tt)
  Added-All P (joined g gs e) new old a = (old g e a.0, a.1)
  Added-All P (later g gs gs' e d) new old a = (a.0, Added-All P d new old a.1)

  Added-Covered : {gs gs' : List SlotGroup} → Added gs gs' → Covered i gs'
  Added-Covered (opened addr e) = inl (inl refl)
  Added-Covered (joined g gs e) = inl (In-append_last i g.indices)
  Added-Covered (later g gs gs' e d) = inr (Added-Covered d)

  Added_keeps_Covered :
      (j : ℕ) {gs gs' : List SlotGroup} → Added gs gs' → Covered j gs → Covered j gs'
  Added_keeps_Covered j (opened addr e) c = absurd c
  Added_keeps_Covered j (joined g gs e) (inl c) = inl (In-append_left j g.indices (i ∷ []) c)
  Added_keeps_Covered j (joined g gs e) (inr c) = inr c
  Added_keeps_Covered j (later g gs gs' e d) (inl c) = inl c
  Added_keeps_Covered j (later g gs gs' e d) (inr c) = inr (Added_keeps_Covered j d c)

-- A group of one slot, at the address that serves it.
abbrev pub InSlot : (ℕ → Option Bytes) → SlotGroup → Type 0
InSlot serving g = All (λ k. hash_slot k ≡ g.slot) g.keys × (serving g.slot ≡ some g.addr)

Indexes-append :
    (keys : List Bytes) (is : List ℕ) (ks : List Bytes) (i : ℕ) (k : Bytes)
    → Indexes keys is ks
    → get_elem? keys i ≡ some k
    → Indexes keys (is ++ i ∷ []) (ks ++ k ∷ [])
Indexes-append keys [] [] i k x e = (e, tt)
Indexes-append keys [] (y ∷ ks) i k x e = absurd x
Indexes-append keys (j ∷ is) [] i k x e = absurd x
Indexes-append keys (j ∷ is) (y ∷ ks) i k x e = (x.0, Indexes-append keys is ks i k x.1 e)

-- No two groups are of the same slot.
abbrev pub Distinct : List SlotGroup → Type 0
Distinct [] = Unit {0}
Distinct (g ∷ gs) = All (λ h. h.slot ≢ g.slot) gs × Distinct gs

Added-Distinct :
    {serving : ℕ → Option Bytes} {slot i : ℕ} {k : Bytes} {gs gs' : List SlotGroup}
    → Added serving slot i k gs gs'
    → Distinct gs
    → Distinct gs'
Added-Distinct (opened addr e) d = (tt, tt)
Added-Distinct (joined g gs e) d = d
Added-Distinct {serving = serving} {slot = slot} {i = i} {k = k} (later g gs gs' e a) d = (
  Added-All serving slot i k (λ h. h.slot ≢ g.slot) a (λ addr s p. e (sym p)) (λ h s n. n) d.0,
  Added-Distinct a d.1,
)

-- The groups of the first `n` keys.
pub record IsSplit (serving : ℕ → Option Bytes) (keys : List Bytes) (n : ℕ) (gs : List SlotGroup)
    : Type 0 where
  pub indexed : All (λ g. Indexes keys g.indices g.keys) gs
  pub covered : (j : ℕ) → j < n → Covered j gs
  pub in_slot : All (InSlot serving) gs
  pub distinct : Distinct gs

Added-IsSplit :
    (serving : ℕ → Option Bytes) (keys : List Bytes) (i : ℕ) (k : Bytes) (gs gs' : List SlotGroup)
    → get_elem? keys i ≡ some k
    → Added serving (hash_slot k) i k gs gs'
    → IsSplit serving keys i gs
    → IsSplit serving keys (suc i) gs'
Added-IsSplit serving keys i k gs gs' e a s = record {
  indexed =
      Added-All serving (hash_slot k) i k (λ g. Indexes keys g.indices g.keys) a (λ addr p. (e, tt))
        (λ g p x. Indexes-append keys g.indices g.keys i k x e) s.indexed;
  covered = λ j l. elim (Bool-cases (j == i)) [
    | inl same ↦
        let p : j ≡ i = (==_iff j i).0 same in rw p (Added-Covered serving (hash_slot k) i k a)
    | inr differ ↦
        Added_keeps_Covered serving (hash_slot k) i k j a (s.covered j (ground (arith, differ)))
  ];
  in_slot =
      Added-All serving (hash_slot k) i k (InSlot serving) a (λ addr p. ((refl, tt), p))
        (λ g p x. (All-append (λ k'. hash_slot k' ≡ g.slot) g.keys (k ∷ []) x.0 (sym p, tt), x.1))
        s.in_slot;
  distinct = Added-Distinct a s.distinct;
}

-- What the loop may end with: all keys split, or a slot without a node, which is that of a key.
abbrev pub Splits : (ℕ → Option Bytes) → List Bytes → Grouped → Type 0
Splits serving keys (grouped gs) = IsSplit serving keys (length keys) gs
Splits serving keys (no_node slot) =
    (i : ℕ) × (k : Bytes) × (get_elem? keys i ≡ some k)
    × (hash_slot k ≡ slot)
    × (serving slot ≡ none)

add_key-none :
    (serving : ℕ → Option Bytes) (slot i : ℕ) (k : Bytes) (gs : List SlotGroup)
    → add_key serving slot i k gs ≡ none
    → serving slot ≡ none
unfolding add_key
add_key-none serving slot i k [] h = elim (Option-cases (serving slot)) [
  | inl e ↦ e
  | inr (addr, e) ↦ let no = rw e at h in cc
]
add_key-none serving slot i k (g ∷ gs) h = elim (Bool-cases (g.slot == slot)) [
  | inl e ↦ let no : some (add_to g i k ∷ gs) ≡ none = rw e at h in cc
  | inr e ↦ elim (Option-cases (add_key serving slot i k gs)) [
    | inl n ↦ add_key-none serving slot i k gs n
    | inr (out, n) ↦ let no : some (g ∷ out) ≡ none = rw (e, n) at h in cc
  ]
]

group_keys_from :
    (serving : ℕ → Option Bytes) (keys front rest : List Bytes) (gs : List SlotGroup)
    → keys ≡ front ++ rest
    → IsSplit serving keys (length front) gs
    → Splits serving keys (group_keys serving (length front) rest gs)
unfolding group_keys
group_keys_from serving keys front [] gs p s =
    let n : length front ≡ length keys = ap length (sym (p ∙ append-nil front)) in
    subst (λ m. IsSplit serving keys m gs) n s
group_keys_from serving keys front (k ∷ rest) gs p s =
    let at_front : get_elem? keys (length front) ≡ some k = rw p (get_elem?-behind front k rest) in
    elim (Option-cases (add_key serving (hash_slot k) (length front) k gs)) [
      | inl e ↦
          rw (group_keys, e)
            (
              length front,
              k,
              at_front,
              refl,
              add_key-none serving (hash_slot k) (length front) k gs e,
            )
      | inr (gs', e) ↦
          let n : length (front ++ k ∷ []) ≡ suc (length front) =
            omega (arith, length-append front (k ∷ [])) in
          rw (group_keys, e)
            (subst (λ m. Splits serving keys (group_keys serving m rest gs')) n
              (group_keys_from serving keys (front ++ k ∷ []) rest gs'
                (p ∙ sym (append_assoc front (k ∷ []) rest))
                (subst (λ m. IsSplit serving keys m gs') (sym n)
                  (Added-IsSplit serving keys (length front) k gs gs' at_front
                    (add_key-Added serving (hash_slot k) (length front) k gs gs' e) s))))
    ]

-- The loop of `routeMultiKeyToMux` over the keys of a command ends in one of two ways. Either it
-- groups them: every key stands in a group, each group has the keys that its indices name, they hash
-- to its slot, its address is the one that serves the slot, and no two groups are of the same slot.
-- Or it names a slot that no node serves, and a key of that slot.
pub group_keys-Splits :
    (serving : ℕ → Option Bytes) (keys : List Bytes)
    → Splits serving keys (group_keys serving 0 keys [])
group_keys-Splits serving keys =
    group_keys_from serving keys [] keys [] refl
      (record { indexed = tt; covered = λ j l. absurd (omega arith); in_slot = tt; distinct = tt })
