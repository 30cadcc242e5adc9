-- ===== src/Tests/Slots.antt =====
-- Key slots of pkg/proto/crc16.go.
use pluster.Prelude.{◌≡◌, refl, codes, arith}
use pluster.Proto.Slot.{crc16}
use pluster.Proto.Slot.Crc.{crc16-divide, divide_from, shift_byte}

-- No round of this key reads a damaged row.
check_value : crc16 (codes "12!") ≡ divide_from 0 (codes "12!")
unfolding crc16 shift_byte
check_value = refl

crc16-divide_example : crc16 (codes "12") ≡ divide_from 0 (codes "12")
crc16-divide_example =
    crc16-divide (codes "12") (ground arith, (ground arith, tt))
      (unfold shift_byte in (refl, (refl, tt)))
