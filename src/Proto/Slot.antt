-- ===== src/Proto/Slot.antt =====
-- pkg/proto/crc16.go: CRC16 and the hash slot of a key.
pub mod Crc
pub mod Tag
use pluster.Prelude.{
  ℕ, ◌*◌, ◌/◌, ◌%◌, bit_xor, Option, none, some, List, [], ◌∷◌, ◌++◌, ◌==◌, if◌then◌else◌, Bytes,
  get_or,
}

-- `crc16tab`.
abbrev pub crc16tab : List ℕ
crc16tab =
    0x0000 ∷ 0x1021 ∷ 0x2042 ∷ 0x3063 ∷ 0x4084 ∷ 0x50a5 ∷ 0x60c6 ∷ 0x70e7 ∷ 0x8108 ∷ 0x9129 ∷ 0xa14a
    ∷ 0xb16b ∷ 0xc18c ∷ 0xd1ad ∷ 0xe1ce ∷ 0xf1ef ∷ 0x1231 ∷ 0x0210 ∷ 0x3273 ∷ 0x2252 ∷ 0x52b5
    ∷ 0x4294 ∷ 0x72f7 ∷ 0x62d6 ∷ 0x9339 ∷ 0x8318 ∷ 0xb37b ∷ 0xa35a ∷ 0xd3bd ∷ 0xc39c ∷ 0xf3ff
    ∷ 0xe3de ∷ 0x2462 ∷ 0x3443 ∷ 0x0420 ∷ 0x1401 ∷ 0x64e6 ∷ 0x74c7 ∷ 0x44a4 ∷ 0x5485 ∷ 0xa56a
    ∷ 0xb54b ∷ 0x8528 ∷ 0x9509 ∷ 0xe5ee ∷ 0xf5cf ∷ 0xc5ac ∷ 0xd58d ∷ 0x3653 ∷ 0x2672 ∷ 0x1611
    ∷ 0x0630 ∷ 0x76d7 ∷ 0x66f6 ∷ 0x5695 ∷ 0x46b4 ∷ 0xb75b ∷ 0xa77a ∷ 0x9719 ∷ 0x8738 ∷ 0xf7df
    ∷ 0xe7fe ∷ 0xd79d ∷ 0xc7bc ∷ 0x4864 ∷ 0x5845 ∷ 0x6826 ∷ 0x7807 ∷ 0x08e0 ∷ 0x18c1 ∷ 0x28a2
    ∷ 0x38c3 ∷ 0xc92c ∷ 0xd90d ∷ 0xe96e ∷ 0xf94f ∷ 0x89a8 ∷ 0x99c9 ∷ 0xa9aa ∷ 0xb98b ∷ 0x5a75
    ∷ 0x4a54 ∷ 0x7a37 ∷ 0x6a16 ∷ 0x1af1 ∷ 0x0ad0 ∷ 0x3ab3 ∷ 0x2a92 ∷ 0xdb6d ∷ 0xcb4c ∷ 0xfb2f
    ∷ 0xeb0e ∷ 0x9be9 ∷ 0x8bc8 ∷ 0xbbab ∷ 0xab8a ∷ 0x6c66 ∷ 0x7c47 ∷ 0x4c24 ∷ 0x5c05 ∷ 0x2ce2
    ∷ 0x3cc3 ∷ 0x0ca0 ∷ 0x1c81 ∷ 0xed6e ∷ 0xfd4f ∷ 0xcd2c ∷ 0xdd0d ∷ 0xad6a ∷ 0xbd4b ∷ 0x8d28
    ∷ 0x9d09 ∷ 0x7ef7 ∷ 0x6ed6 ∷ 0x5eb5 ∷ 0x4e94 ∷ 0x3e73 ∷ 0x2e52 ∷ 0x1e31 ∷ 0x0e10 ∷ 0xff9f
    ∷ 0xefbe ∷ 0xdfdd ∷ 0xcffc ∷ 0xbf1b ∷ 0xaf3a ∷ 0x9f59 ∷ 0x8f78 ∷ 0x9188 ∷ 0x81a9 ∷ 0xb1ca
    ∷ 0xa1eb ∷ 0xd10c ∷ 0xc12d ∷ 0xf14e ∷ 0xe16f ∷ 0x1080 ∷ 0x00a1 ∷ 0x30c2 ∷ 0x20e3 ∷ 0x5004
    ∷ 0x4025 ∷ 0x7046 ∷ 0x6067 ∷ 0x83b9 ∷ 0x9398 ∷ 0xa3fb ∷ 0xb3da ∷ 0xc33d ∷ 0xd31c ∷ 0xe37f
    ∷ 0xf35e ∷ 0x02b1 ∷ 0x1290 ∷ 0x22f3 ∷ 0x32d2 ∷ 0x4235 ∷ 0x5214 ∷ 0x6277 ∷ 0x7256 ∷ 0xb5ea
    ∷ 0xa5cb ∷ 0x95a8 ∷ 0x8589 ∷ 0xf56e ∷ 0xe54f ∷ 0xd52c ∷ 0xc50d ∷ 0x34e2 ∷ 0x24c3 ∷ 0x14a0
    ∷ 0x0481 ∷ 0x7466 ∷ 0x6447 ∷ 0x5424 ∷ 0x4405 ∷ 0xa7db ∷ 0xb7fa ∷ 0x8799 ∷ 0x97b8 ∷ 0xe75f
    ∷ 0xf77e ∷ 0xc71d ∷ 0xd73c ∷ 0x26d3 ∷ 0x36f2 ∷ 0x0691 ∷ 0x16b0 ∷ 0x6657 ∷ 0x7676 ∷ 0x4615
    ∷ 0x5634 ∷ 0xd94c ∷ 0xc96d ∷ 0xf90e ∷ 0xe92f ∷ 0x99c8 ∷ 0x89e9 ∷ 0xb98a ∷ 0xa9ab ∷ 0x5844
    ∷ 0x4865 ∷ 0x7806 ∷ 0x6827 ∷ 0x18c0 ∷ 0x08e1 ∷ 0x3882 ∷ 0x28a3 ∷ 0xcb7d ∷ 0xdb5c ∷ 0xeb3f
    ∷ 0xfb1e ∷ 0x8bf9 ∷ 0x9bd8 ∷ 0xabbb ∷ 0xbb9a ∷ 0x4a75 ∷ 0x5a54 ∷ 0x6a37 ∷ 0x7a16 ∷ 0x0af1
    ∷ 0x1ad0 ∷ 0x2ab3 ∷ 0x3a92 ∷ 0xfd2e ∷ 0xed0f ∷ 0xdd6c ∷ 0xcd4d ∷ 0xbdaa ∷ 0xad8b ∷ 0x9de8
    ∷ 0x8dc9 ∷ 0x7c26 ∷ 0x6c07 ∷ 0x5c64 ∷ 0x4c45 ∷ 0x3ca2 ∷ 0x2c83 ∷ 0x1ce0 ∷ 0x0cc1 ∷ 0xef1f
    ∷ 0xff3e ∷ 0xcf5d ∷ 0xdf7c ∷ 0xaf9b ∷ 0xbfba ∷ 0x8fd9 ∷ 0x9ff8 ∷ 0x6e17 ∷ 0x7e36 ∷ 0x4e55
    ∷ 0x5e74 ∷ 0x2e93 ∷ 0x3eb2 ∷ 0x0ed1 ∷ 0x1ef0 ∷ []

abbrev pub cluster_slots : ℕ
cluster_slots = 16384

-- One round of the loop of `CRC16`; `crc` is a uint16, so the shift drops its high byte.
unfoldable pub crc_step : ℕ → ℕ → ℕ
crc_step crc b = bit_xor (crc * 256 % 65536) (get_or crc16tab (bit_xor (crc / 256 % 256) b) 0)

unfoldable pub crc_from : ℕ → Bytes → ℕ
unfolding crc_step
crc_from crc [] = crc
crc_from crc (b ∷ bs) = crc_from (crc_step crc b) bs

-- `CRC16`.
unfoldable pub crc16 : Bytes → ℕ
unfolding crc_from
crc16 buf = crc_from 0 buf

-- What the loop of `hashTag` returns at a byte: `key[s+1 : i]`, if that is not empty. `opened`
-- holds the bytes of `key[s+1 : i]` while `s >= 0`, and is `none` while `s` is -1.
abbrev pub tag_closed : Option Bytes → ℕ → Option Bytes
tag_closed (some (x ∷ xs)) b = if b == b'}' then some (x ∷ xs) else none
tag_closed _ b = none

-- The `s` of the next round, if the loop goes on.
abbrev pub tag_opened : Option Bytes → ℕ → Option Bytes
tag_opened none b = if b == b'{' then some [] else none
tag_opened (some xs) b =
    if b == b'{' then some [] else if b == b'}' then none else some (xs ++ b ∷ [])

unfoldable pub hash_tag_from : Option Bytes → Bytes → Bytes
hash_tag_from opened [] = []
hash_tag_from opened (b ∷ bs) = elim (tag_closed opened b) [
  | some tag ↦ tag
  | none ↦ hash_tag_from (tag_opened opened b) bs
]

-- `hashTag`; the empty list is Go's nil.
unfoldable pub hash_tag : Bytes → Bytes
unfolding hash_tag_from
hash_tag key = hash_tag_from none key

-- The argument of `CRC16` in `HashSlot`.
abbrev pub hashed_part : Bytes → Bytes → Bytes
hashed_part [] key = key
hashed_part (x ∷ xs) key = x ∷ xs

-- `HashSlot`.
unfoldable pub hash_slot : Bytes → ℕ
unfolding crc16 hash_tag
hash_slot key = crc16 (hashed_part (hash_tag key) key) % cluster_slots
