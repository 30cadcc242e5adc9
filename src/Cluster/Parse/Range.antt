-- ===== src/Cluster/Parse/Range.antt =====
-- A range of slots as a node writes it, and the slots that it gives to the node.
use pluster.Prelude.{
  ℕ, ◌-◌, ◌<◌, ◌≡◌, ◌≢◌, refl, ap, ◌∙◌, true, false, ◌&&◌, not, Option, some, [], ◌∷◌, ◌++◌, arith,
  Bytes, codes, leb, ltb, ◌==◌, All, if◌then◌else◌,
}
use pluster.Proto.Int64.{half_word, decimal, lt64}
use pluster.Proto.Int64.RoundTrip.{IsDigit, decimal-digits, decimal-ne-nil}
use pluster.Proto.Value.{has_prefix}
use pluster.Proto.Slot.{cluster_slots}
use pluster.Engine.Mux.Traffic.{atoi_digits, atoi_ok}
use pluster.Router.Redirect.{atoi}
use pluster.Router.Scan.{format_uint}
use pluster.Router.Scan.Reply.{atoi_digits-decimal_20}
use pluster.Cluster.{Node}
use pluster.Cluster.Parse.{cut_at, slot_range, set_range, add_range}

atoi-digits :
    (xs : Bytes) (n : ℕ)
    → xs ≢ []
    → All IsDigit xs
    → atoi_digits 0 xs ≡ some n
    → n < half_word
    → atoi xs ≡ some n
unfolding atoi atoi_ok
atoi-digits [] n ne d h l = absurd (ne refl)
atoi-digits (c ∷ cs) n ne d h l =
    let minus : (c == b'-') ≡ false = ground arith in
    let plus : (c == b'+') ≡ false = ground arith in
    let fits : leb n (half_word - 1) ≡ true = ground arith in rw (atoi, minus, plus, h, fits) refl

atoi-format_uint : (n : ℕ) → n < half_word → atoi (format_uint n) ≡ some n
unfolding format_uint
atoi-format_uint n h =
    atoi-digits (decimal 20 n) n (decimal-ne-nil 19 n) (decimal-digits 20 n)
      (atoi_digits-decimal_20 n (omega arith)) h

cut_at-digits : (xs ys : Bytes) → All IsDigit xs → cut_at b'-' (xs ++ b'-' ∷ ys) ≡ some (xs, ys)
unfolding cut_at
cut_at-digits [] ys d = refl
cut_at-digits (x ∷ xs) ys d =
    let differs : (x == b'-') ≡ false = ground arith in
    rw (cut_at, differs, cut_at-digits xs ys d.1) refl

no_bracket : (xs ys : Bytes) → xs ≢ [] → All IsDigit xs → has_prefix (xs ++ ys) (codes "[") ≡ false
unfolding has_prefix
no_bracket [] ys ne d = absurd (ne refl)
no_bracket (x ∷ xs) ys ne d = let differs : (x == b'[') ≡ false = ground arith in rw differs refl

slot_range-range :
    (a b : ℕ)
    → a < half_word
    → b < half_word
    → slot_range (format_uint a ++ b'-' ∷ format_uint b) ≡ some (a, b)
unfolding slot_range format_uint
slot_range-range a b h k =
    let cut = cut_at-digits (decimal 20 a) (decimal 20 b) (decimal-digits 20 a) in
    let plain =
      no_bracket (decimal 20 a) (b'-' ∷ decimal 20 b) (decimal-ne-nil 19 a) (decimal-digits 20 a) in
    let first = atoi-format_uint a h in
    let last = atoi-format_uint b k in rw (slot_range, plain, cut, first, last) refl

-- A field of slots with two numbers below 2^63 and a dash between them gives a node the slots from
-- the first to the second number, and no other slot changes.
pub add_range-slots :
    (n : Node) (slots : ℕ → Option Bytes) (a b x : ℕ)
    → a < half_word
    → b < half_word
    → x < cluster_slots
    → (add_range n slots (slot_range (format_uint a ++ b'-' ∷ format_uint b))).1 x
      ≡ (if leb a x && leb x b then some n.addr else slots x)
unfolding set_range
add_range-slots n slots a b x h k l =
    ap (λ r. (add_range n slots r).1 x) (slot_range-range a b h k)
    ∙ ap (λ t. if t then some n.addr else slots x) within
  where
    within : (not (lt64 x a) && not (lt64 b x) && ltb x cluster_slots) ≡ (leb a x && leb x b)
    within = ground arith
