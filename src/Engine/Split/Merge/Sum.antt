-- ===== src/Engine/Split/Merge/Sum.antt =====
-- The merges of the commands that count keys, and of MSET.
use pluster.Prelude.{
  ℕ, zero, suc, ◌+◌, ◌-◌, ◌/◌, ◌%◌, ◌<◌, ◌≤◌, ◌≡◌, inl, inr, refl, ◌∙◌, ap, Option, List, [], ◌∷◌,
  ◌++◌, map, arith, Bytes, codes, length, length-append, ltb, Bool-cases, Option-cases, All,
  if◌then◌else◌,
}
use pluster.Proto.Outcome.{ok}
use pluster.Proto.Int64.{word, half_word, add64, decimal, format_int, is_negative}
use pluster.Proto.Slot.{hash_slot}
use pluster.Proto.Parse.{parse_value}
use pluster.Proto.Value.{Value, integer, is_error}
use pluster.Proto.Encode.{encode_value, encode_integer, encode_simple_string}
use pluster.Proto.Encode.Render.{IsEncodable, length-encode_value}
use pluster.Proto.Encode.RoundTrip.{parse_value-whole}
use pluster.Engine.Split.{SlotGroup, grouped, no_node, add_key, group_keys}
use pluster.Engine.Split.Groups.{Added, opened, joined, later, add_key-Added}
use pluster.Engine.Split.Merge.{parse_sub, merge_sum, merge_mset}

-- What a command counts of a list of keys, where `f` says what it counts of each.
abbrev pub total : (Bytes → ℕ) → List Bytes → ℕ
total f [] = 0
total f (k ∷ ks) = f k + total f ks

abbrev pub count_reply : (Bytes → ℕ) → SlotGroup → Bytes
count_reply f g = encode_value (integer (total f g.keys))

abbrev pub group_total : (Bytes → ℕ) → List SlotGroup → ℕ
group_total f [] = 0
group_total f (g ∷ gs) = total f g.keys + group_total f gs

length-decimal : (f n : ℕ) → length (decimal f n) ≤ f
unfolding decimal
length-decimal zero n = omega arith
length-decimal (suc f) n = elim (Bool-cases (ltb n 10)) [
  | inl e ↦ rw e (omega arith)
  | inr e ↦ rw e (
      omega (
        arith,
        length-append (decimal f (n / 10)) ((b'0' + n % 10) ∷ []),
        length-decimal f (n / 10),
      ))
]

length-format_int : (n : ℕ) → length (format_int n) ≤ 21
unfolding format_int
length-format_int n = elim (Bool-cases (is_negative n)) [
  | inl e ↦ rw e (omega (arith, length-decimal 20 (word - n)))
  | inr e ↦ rw e (omega (arith, length-decimal 20 n))
]

-- An integer is read back.
parse_value-integer :
    (n : ℕ)
    → n < word
    → parse_value (encode_value (integer n)) ≡ ok (integer n, length (encode_value (integer n)))
parse_value-integer n h =
    parse_value-whole (integer n) h
      (omega (arith, length-encode_value (integer n), length-format_int n))

merge_sum-replies :
    (f : Bytes → ℕ) (n : ℕ) (gs : List SlotGroup)
    → n + group_total f gs < word
    → merge_sum n (map (count_reply f) gs) ≡ ok (encode_integer (n + group_total f gs))
unfolding merge_sum parse_sub is_error
merge_sum-replies f n [] h = ap (λ t. ok (encode_integer t)) (omega arith)
merge_sum-replies f n (g ∷ gs) h =
    let e : add64 n (total f g.keys) ≡ n + total f g.keys = omega arith in
    rw (merge_sum, parse_value-integer (total f g.keys) (omega arith), e)
      (merge_sum-replies f (n + total f g.keys) gs (omega arith)
        ∙ ap (λ m. ok (encode_integer m)) (omega arith))

total-append : (f : Bytes → ℕ) (xs ys : List Bytes) → total f (xs ++ ys) ≡ total f xs + total f ys
total-append f [] ys = omega arith
total-append f (x ∷ xs) ys = omega (arith, total-append f xs ys)

Added-group_total :
    (f : Bytes → ℕ) {serving : ℕ → Option Bytes} {slot i : ℕ} {k : Bytes} {gs gs' : List SlotGroup}
    → Added serving slot i k gs gs'
    → group_total f gs' ≡ f k + group_total f gs
Added-group_total f (opened addr e) = omega arith
Added-group_total f {k = k} (joined g gs e) = omega (arith, total-append f g.keys (k ∷ []))
Added-group_total f (later g gs gs' e a) = omega (arith, Added-group_total f a)

group_keys-total :
    (f : Bytes → ℕ) (serving : ℕ → Option Bytes) (i : ℕ) (keys : List Bytes)
    (gs out : List SlotGroup)
    → group_keys serving i keys gs ≡ grouped out
    → group_total f out ≡ total f keys + group_total f gs
unfolding group_keys
group_keys-total f serving i [] gs out h =
    let same : gs ≡ out = cc in omega (arith, ap (group_total f) same)
group_keys-total f serving i (k ∷ ks) gs out h =
    elim (Option-cases (add_key serving (hash_slot k) i k gs)) [
      | inl e ↦ let no : no_node (hash_slot k) ≡ grouped out = rw (group_keys, e) at h in cc
      | inr (gs', e) ↦
          let h' : group_keys serving (suc i) ks gs' ≡ grouped out = rw (group_keys, e) at h in
          omega (
            arith,
            group_keys-total f serving (suc i) ks gs' out h',
            Added-group_total f (add_key-Added serving (hash_slot k) i k gs gs' e),
          )
    ]

-- Where a command that counts keys is split, and every node answers its part with what the keys of
-- the part count, the merge is what all keys of the command count, if that is below 2^64.
pub merge_sum-group_keys :
    (f : Bytes → ℕ) (serving : ℕ → Option Bytes) (keys : List Bytes) (gs : List SlotGroup)
    → group_keys serving 0 keys [] ≡ grouped gs
    → total f keys < word
    → merge_sum 0 (map (count_reply f) gs) ≡ ok (encode_integer (total f keys))
merge_sum-group_keys f serving keys gs h b =
    let e : 0 + group_total f gs ≡ total f keys =
      omega (arith, group_keys-total f serving 0 keys [] gs h) in
    merge_sum-replies f 0 gs (omega arith) ∙ ap (λ n. ok (encode_integer n)) e

-- The first answer of a list that is an error, or OK.
abbrev first_error : List Value → Bytes
first_error [] = encode_simple_string (codes "OK")
first_error (v ∷ vs) = let rest = first_error vs in if is_error v then encode_value v else rest

abbrev pub Whole : Value → Type 0
Whole v = IsEncodable v × (length (encode_value v) < half_word)

-- The merge of MSET answers with the first error that a node has answered with, in the order of the
-- parts, and with OK where there is none, if the answers are encodable and shorter than 2^63 bytes.
pub merge_mset-replies :
    (vs : List Value) → All Whole vs → merge_mset (map encode_value vs) ≡ ok (first_error vs)
unfolding merge_mset parse_sub is_error
merge_mset-replies [] w = refl
merge_mset-replies (v ∷ vs) (w, ws) = elim (Bool-cases (is_error v)) [
  | inl e ↦ rw (merge_mset, parse_value-whole v w.0 w.1, e) refl
  | inr e ↦ rw (merge_mset, parse_value-whole v w.0 w.1, e) (merge_mset-replies vs ws)
]
