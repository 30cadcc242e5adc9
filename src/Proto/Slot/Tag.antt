-- ===== src/Proto/Slot/Tag.antt =====
-- The hash tag of a key: which part of the key decides its slot.
use pluster.Prelude.{
  ℕ, ◌<◌, ◌%◌, ◌≡◌, ◌≢◌, refl, sym, ◌∙◌, Option, none, some, [], ◌∷◌, ◌++◌, arith, ◌==◌, Bytes, All,
  append-nil, append_assoc, if◌then◌else◌,
}
use pluster.Proto.Slot.{crc16, cluster_slots, hash_tag_from, hash_tag, hash_slot, tag_opened}

-- The slot of every key lies below 16384, the number of slots.
pub hash_slot_bounds : (key : Bytes) → hash_slot key < 16384
unfolding hash_slot
hash_slot_bounds key = omega arith

abbrev pub NoBrace : ℕ → Type 0
NoBrace b = (b ≢ b'{') × (b ≢ b'}')

abbrev pub NoOpen : ℕ → Type 0
NoOpen b = b ≢ b'{'

abbrev pub NoClose : ℕ → Type 0
NoClose b = b ≢ b'}'

-- Bytes other than braces are collected.
hash_tag_from-collect :
    (acc tag rest : Bytes)
    → All NoBrace tag
    → hash_tag_from (some acc) (tag ++ rest) ≡ hash_tag_from (some (acc ++ tag)) rest
unfolding hash_tag_from
hash_tag_from-collect acc [] rest h = rw append-nil
hash_tag_from-collect [] (b ∷ tag) rest h =
    ground (arith, hash_tag_from-collect (b ∷ []) tag rest h.1)
hash_tag_from-collect (x ∷ acc) (b ∷ tag) rest h = ground (
  arith,
  hash_tag_from-collect (x ∷ (acc ++ b ∷ [])) tag rest h.1,
  append_assoc (x ∷ acc) (b ∷ []) tag,
)

-- Before the first closing brace the loop returns nothing, whatever was opened.
hash_tag_from-skip :
    (opened : Option Bytes) (pre rest : Bytes)
    → All NoClose pre
    → hash_tag_from opened (pre ++ b'{' ∷ rest) ≡ hash_tag_from (some []) rest
unfolding hash_tag_from
hash_tag_from-skip none [] rest h = refl
hash_tag_from-skip (some []) [] rest h = refl
hash_tag_from-skip (some (x ∷ xs)) [] rest h = refl
hash_tag_from-skip none (b ∷ pre) rest h = hash_tag_from-skip (tag_opened none b) pre rest h.1
hash_tag_from-skip (some []) (b ∷ pre) rest h =
    hash_tag_from-skip (tag_opened (some []) b) pre rest h.1
hash_tag_from-skip (some (x ∷ xs)) (b ∷ pre) rest h =
    ground (arith, hash_tag_from-skip (tag_opened (some (x ∷ xs)) b) pre rest h.1)

hash_tag-tagged :
    (pre tag post : Bytes)
    → All NoClose pre
    → All NoBrace tag
    → tag ≢ []
    → hash_tag (pre ++ b'{' ∷ (tag ++ b'}' ∷ post)) ≡ tag
unfolding hash_tag
hash_tag-tagged pre [] post hp ht ne = absurd (ne refl)
hash_tag-tagged pre (x ∷ tag) post hp ht ne =
    hash_tag_from-skip none pre _ hp
    ∙ hash_tag_from-collect [] (x ∷ tag) (b'}' ∷ post) ht
    ∙ unfold hash_tag_from in refl

-- With no opening brace there is no tag.
hash_tag_from-none : (key : Bytes) → All NoOpen key → hash_tag_from none key ≡ []
unfolding hash_tag_from
hash_tag_from-none [] h = refl
hash_tag_from-none (b ∷ key) h = ground (arith, hash_tag_from-none key h.1)

NoBrace-NoOpen : (tag : Bytes) → All NoBrace tag → All NoOpen tag
NoBrace-NoOpen [] h = tt
NoBrace-NoOpen (b ∷ tag) h = (h.0.0, NoBrace-NoOpen tag h.1)

-- A key with no opening brace is hashed whole.
pub hash_slot_untagged : (key : Bytes) → All NoOpen key → hash_slot key ≡ crc16 key % cluster_slots
unfolding hash_slot
hash_slot_untagged key h = rw (hash_tag_from-none key h)

-- A key that holds a non-empty tag without braces in it, in braces, with no closing brace before
-- them, has the slot of the tag alone, whatever stands before the braces and after them. So all
-- keys with one tag have one slot.
pub hash_slot_tagged :
    (pre tag post : Bytes)
    → All NoClose pre
    → All NoBrace tag
    → tag ≢ []
    → hash_slot (pre ++ b'{' ∷ (tag ++ b'}' ∷ post)) ≡ hash_slot tag
hash_slot_tagged pre [] post hp ht ne = absurd (ne refl)
hash_slot_tagged pre (x ∷ tag) post hp ht ne =
    unfold hash_slot in
    rw (hash_tag-tagged pre (x ∷ tag) post hp ht ne)
      (sym (hash_slot_untagged (x ∷ tag) (NoBrace-NoOpen (x ∷ tag) ht)))

-- The rule of the Redis cluster specification: the bytes between the first opening brace and the
-- first closing brace behind it; the empty list if there is no such pair.
abbrev up_to_close : Bytes → Bytes → Bytes
up_to_close acc [] = []
up_to_close acc (b ∷ bs) = if b == b'}' then acc else up_to_close (acc ++ b ∷ []) bs

abbrev pub cluster_tag : Bytes → Bytes
cluster_tag [] = []
cluster_tag (b ∷ bs) = if b == b'{' then up_to_close [] bs else cluster_tag bs

hash_tag_from-up_to_close :
    (acc rest : Bytes) → All NoOpen rest → hash_tag_from (some acc) rest ≡ up_to_close acc rest
unfolding hash_tag_from
hash_tag_from-up_to_close acc [] h = refl
hash_tag_from-up_to_close [] (b ∷ rest) h =
    ground (arith, hash_tag_from-up_to_close (b ∷ []) rest h.1, hash_tag_from-none rest h.1)
hash_tag_from-up_to_close (x ∷ acc) (b ∷ rest) h =
    ground (arith, hash_tag_from-up_to_close (x ∷ (acc ++ b ∷ [])) rest h.1)

-- On a key with exactly one opening brace the code finds the tag of the cluster specification.
pub hash_tag-cluster_tag :
    (pre rest : Bytes)
    → All NoOpen pre
    → All NoOpen rest
    → hash_tag (pre ++ b'{' ∷ rest) ≡ cluster_tag (pre ++ b'{' ∷ rest)
unfolding hash_tag hash_tag_from
hash_tag-cluster_tag [] rest hp hr = hash_tag_from-up_to_close [] rest hr
hash_tag-cluster_tag (b ∷ pre) rest hp hr = ground (arith, hash_tag-cluster_tag pre rest hp.1 hr)

cluster_tag-opened :
    (pre rest : Bytes) → All NoOpen pre → cluster_tag (pre ++ b'{' ∷ rest) ≡ up_to_close [] rest
cluster_tag-opened [] rest h = refl
cluster_tag-opened (b ∷ pre) rest h = ground (arith, cluster_tag-opened pre rest h.1)

up_to_close-collect :
    (acc tag rest : Bytes) → All NoBrace tag → up_to_close acc (tag ++ b'}' ∷ rest) ≡ acc ++ tag
up_to_close-collect acc [] rest h = rw append-nil
up_to_close-collect acc (b ∷ tag) rest h =
    ground (arith, up_to_close-collect (acc ++ b ∷ []) tag rest h.1, append_assoc acc (b ∷ []) tag)

abbrev NoBraces : Bytes → Type 0
NoBraces = All NoBrace

-- On a key with two opening braces in a row, neither with a brace before it, behind them a
-- non-empty tag without braces and then a closing brace, the code takes the tag alone, and the
-- cluster specification takes the second opening brace with it.
pub hash_tag_nested :
    (pre tag post : Bytes)
    → NoBraces pre
    → NoBraces tag
    → tag ≢ []
    → (hash_tag (pre ++ b'{' ∷ b'{' ∷ (tag ++ b'}' ∷ post)) ≡ tag)
      × (cluster_tag (pre ++ b'{' ∷ b'{' ∷ (tag ++ b'}' ∷ post)) ≡ b'{' ∷ tag)
hash_tag_nested pre tag post hp ht ne = (
  rw (← append_assoc pre (b'{' ∷ []) (b'{' ∷ (tag ++ b'}' ∷ post)))
      (hash_tag-tagged (pre ++ b'{' ∷ []) tag post (before pre hp) ht ne),
  cluster_tag-opened pre _ (NoBrace-NoOpen pre hp) ∙ up_to_close-collect (b'{' ∷ []) tag post ht,
)
  where
    before : (p : Bytes) → NoBraces p → All NoClose (p ++ b'{' ∷ [])
    before [] h = (ground arith, tt)
    before (b ∷ p) h = (h.0.1, before p h.1)
