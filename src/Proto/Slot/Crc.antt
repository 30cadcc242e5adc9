-- ===== src/Proto/Slot/Crc.antt =====
-- The table-driven `CRC16` against the polynomial division that it stands for.
use pluster.Prelude.{
  ℕ, ◌+◌, ◌*◌, ◌/◌, ◌%◌, ◌<◌, ◌≤◌, bit_xor, ◌≡◌, refl, sym, ◌∙◌, ap, subst, Bool, true, false, not,
  ◌&&◌, ◌≢◌, [], ◌∷◌, arith, leb, ltb, ltb→lt, ◌==◌, if◌then◌else◌, Bytes, All, get_or,
}
use pluster.Prelude.Bits.{all_below, all_below_sound, bit_xor_byte, bit_xor-lt-pow2}
use pluster.Proto.Slot.{crc16tab, cluster_slots, crc_step, crc_from, crc16, hash_slot}

-- CRC-16/XMODEM by the book: polynomial 0x1021, no reflection, initial value 0. One bit of the
-- message leaves the 16-bit register at its high end.
abbrev pub shift_bit : ℕ → ℕ
shift_bit r = if leb 32768 r then bit_xor (r * 2 % 65536) 0x1021 else r * 2 % 65536

unfoldable pub shift_byte : ℕ → ℕ
shift_byte r =
    shift_bit (shift_bit (shift_bit (shift_bit (shift_bit (shift_bit (shift_bit (shift_bit r)))))))

-- A byte of the message goes in at the high end, and eight bits are divided out.
abbrev pub divide_from : ℕ → Bytes → ℕ
divide_from r [] = r
divide_from r (b ∷ bs) = divide_from (shift_byte (bit_xor r (b * 256))) bs

-- The rows 64 to 119 of `crc16tab` are not those of the polynomial.
abbrev pub damaged : ℕ → Bool
damaged hi = leb 64 hi && ltb hi 120

abbrev row_holds : ℕ → ℕ → Bool
row_holds hi lo = shift_byte (hi * 256 + lo) == bit_xor (lo * 256) (get_or crc16tab hi 0)

abbrev row_as_expected : ℕ → ℕ → Bool
row_as_expected hi lo = if damaged hi then not (row_holds hi lo) else row_holds hi lo

table_row : ℕ → Bool
table_row hi = all_below 256 (row_as_expected hi)

-- Rows `k * 64` to `k * 64 + 63`, for one evaluation.
row_group : ℕ → Bool
row_group k = all_below 64 (λ i. table_row (k * 64 + i))

row_group_0 : row_group 0 ≡ true
unfolding row_group table_row all_below shift_byte
row_group_0 = refl

row_group_1 : row_group 1 ≡ true
unfolding row_group table_row all_below shift_byte
row_group_1 = refl

row_group_2 : row_group 2 ≡ true
unfolding row_group table_row all_below shift_byte
row_group_2 = refl

row_group_3 : row_group 3 ≡ true
unfolding row_group table_row all_below shift_byte
row_group_3 = refl

row_groups : (k : ℕ) → k < 4 → row_group k ≡ true
row_groups k h = ground (arith, row_group_0, row_group_1, row_group_2, row_group_3)

table_rows : (hi : ℕ) → hi < 256 → table_row hi ≡ true
table_rows hi p = rw split at (
    all_below_sound 64 (λ i. table_row (hi / 64 * 64 + i)) (hi % 64)
      (unfold row_group in row_groups (hi / 64) (omega arith)) (omega arith))
  where
    split : hi / 64 * 64 + hi % 64 ≡ hi
    split = omega arith

table_lem : (hi lo : ℕ) → hi < 256 → lo < 256 → row_as_expected hi lo ≡ true
unfolding table_row
table_lem hi lo p q = all_below_sound 256 (λ l. row_as_expected hi l) lo (table_rows hi p) q

-- The entries of the table are 16-bit words.
entries_bound : all_below 256 (λ i. ltb (get_or crc16tab i 0) 65536) ≡ true
unfolding all_below
entries_bound = refl

crc_step-lt : (crc b : ℕ) → crc < 65536 → b < 256 → crc_step crc b < 65536
unfolding crc_step
crc_step-lt crc b p q = bit_xor-lt-pow2 16 _ _ (omega arith) (
    ltb→lt _ _ (
      all_below_sound 256 _ (bit_xor (crc / 256 % 256) b) entries_bound
        (bit_xor-lt-pow2 8 _ b (omega arith) q)))

test_iff :
    (d : Bool) (x y : ℕ)
    → (if d then not (x == y) else (x == y)) ≡ true
    → (d ≡ false → y ≡ x) × (d ≡ true → y ≢ x)
test_iff d x y h = ground arith

-- A round of `CRC16` is eight steps of the division, unless it reads one of the damaged rows;
-- then it is not.
pub crc_step-shift_byte :
    (crc b : ℕ)
    → crc < 65536
    → b < 256
    → (damaged (bit_xor (crc / 256) b) ≡ false
        → crc_step crc b ≡ shift_byte (bit_xor crc (b * 256)))
      × (damaged (bit_xor (crc / 256) b) ≡ true
          → crc_step crc b ≢ shift_byte (bit_xor crc (b * 256)))
unfolding crc_step
crc_step-shift_byte crc b p q =
    rw (bit_xor_byte crc b, high, low)
      (test_iff _ _ _ (
        table_lem (bit_xor (crc / 256) b) (crc % 256) (bit_xor-lt-pow2 8 _ b (omega arith) q)
          (omega arith)))
  where
    high : crc / 256 % 256 ≡ crc / 256
    high = omega arith

    low : crc * 256 % 65536 ≡ crc % 256 * 256
    low = omega arith

abbrev pub IsByte : ℕ → Type 0
IsByte b = b < 256

-- No round of the division of `bs` that starts at `r` leaves one of the damaged rows to be read.
abbrev pub AvoidsDamage : ℕ → Bytes → Type 0
AvoidsDamage r [] = Unit
AvoidsDamage r (b ∷ bs) =
    (damaged (bit_xor (r / 256) b) ≡ false) × AvoidsDamage (shift_byte (bit_xor r (b * 256))) bs

crc_from-divide_from :
    (crc : ℕ) (bs : Bytes)
    → crc < 65536
    → All IsByte bs
    → AvoidsDamage crc bs
    → crc_from crc bs ≡ divide_from crc bs
unfolding crc_from
crc_from-divide_from crc [] p h a = refl
crc_from-divide_from crc (b ∷ bs) p h a =
    let e = (crc_step-shift_byte crc b p h.0).0 a.0 in
    crc_from-divide_from (crc_step crc b) bs (crc_step-lt crc b p h.0) h.1
      (subst (λ r. AvoidsDamage r bs) (sym e) a.1)
    ∙ ap (λ r. divide_from r bs) e

-- On a byte string whose rounds read no damaged row the table-driven `CRC16` is the remainder that
-- bit-by-bit division by the polynomial 0x1021 leaves.
pub crc16-divide :
    (buf : Bytes) → All IsByte buf → AvoidsDamage 0 buf → crc16 buf ≡ divide_from 0 buf
unfolding crc16
crc16-divide buf h a = crc_from-divide_from 0 buf (omega arith) h a

abbrev differs : ℕ → Bool
differs b =
    if damaged b then not (hash_slot (b ∷ []) == divide_from 0 (b ∷ []) % cluster_slots) else true

one_byte_keys : all_below 120 (λ b. differs b) ≡ true
unfolding hash_slot shift_byte all_below
one_byte_keys = refl

-- The one-byte keys from "@" (64) to "w" (119) get another slot than the polynomial gives them.
pub hash_slot_damaged :
    (b : ℕ) → 64 ≤ b → b < 120 → hash_slot (b ∷ []) ≢ divide_from 0 (b ∷ []) % cluster_slots
hash_slot_damaged b lo hi =
    ground (arith, all_below_sound 120 (λ (c : ℕ). differs c) b one_byte_keys)
