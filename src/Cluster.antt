-- ===== src/Cluster.antt =====
-- pkg/bullmq/cluster.go: CRC16 and the Redis Cluster slot of a key.
mod Xor
pub mod Division
pub mod Table
pub mod Slots
use Prim.Native.Nat.{bit_and, bit_xor}
use bullmq_go.Prelude.{
  ℕ, ◌+◌, ◌-◌, ◌*◌, ◌/◌, ◌%◌, Bytes, ◌==◌, ltb, Bool, true, false, List, [], ◌∷◌, ◌++◌, Option,
  none, some, if◌then◌else◌, get_or, take, drop,
}

abbrev pub redis_cluster_slots : ℕ
redis_cluster_slots = 16384

unfoldable pub crc16tab : List ℕ
crc16tab =
    0x0000 ∷ 0x1021 ∷ 0x2042 ∷ 0x3063 ∷ 0x4084 ∷ 0x50a5 ∷ 0x60c6 ∷ 0x70e7 ∷ 0x8108 ∷ 0x9129 ∷ 0xa14a
    ∷ 0xb16b ∷ 0xc18c ∷ 0xd1ad ∷ 0xe1ce ∷ 0xf1ef ∷ 0x1231 ∷ 0x0210 ∷ 0x3273 ∷ 0x2252 ∷ 0x52b5
    ∷ 0x4294 ∷ 0x72f7 ∷ 0x62d6 ∷ 0x9339 ∷ 0x8318 ∷ 0xb37b ∷ 0xa35a ∷ 0xd3bd ∷ 0xc39c ∷ 0xf3ff
    ∷ 0xe3de ∷ 0x2462 ∷ 0x3443 ∷ 0x0420 ∷ 0x1401 ∷ 0x64e6 ∷ 0x74c7 ∷ 0x44a4 ∷ 0x5485 ∷ 0xa56a
    ∷ 0xb54b ∷ 0x8528 ∷ 0x9509 ∷ 0xe5ee ∷ 0xf5cf ∷ 0xc5ac ∷ 0xd58d ∷ 0x3653 ∷ 0x2672 ∷ 0x1611
    ∷ 0x0630 ∷ 0x76d7 ∷ 0x66f6 ∷ 0x5695 ∷ 0x46b4 ∷ 0xb75b ∷ 0xa77a ∷ 0x9719 ∷ 0x8738 ∷ 0xf7df
    ∷ 0xe7fe ∷ 0xd79d ∷ 0xc7bc ∷ 0x48c4 ∷ 0x58e5 ∷ 0x6886 ∷ 0x78a7 ∷ 0x0840 ∷ 0x1861 ∷ 0x2802
    ∷ 0x3823 ∷ 0xc9cc ∷ 0xd9ed ∷ 0xe98e ∷ 0xf9af ∷ 0x8948 ∷ 0x9969 ∷ 0xa90a ∷ 0xb92b ∷ 0x5af5
    ∷ 0x4ad4 ∷ 0x7ab7 ∷ 0x6a96 ∷ 0x1a71 ∷ 0x0a50 ∷ 0x3a33 ∷ 0x2a12 ∷ 0xdbfd ∷ 0xcbdc ∷ 0xfbbf
    ∷ 0xeb9e ∷ 0x9b79 ∷ 0x8b58 ∷ 0xbb3b ∷ 0xab1a ∷ 0x6ca6 ∷ 0x7c87 ∷ 0x4ce4 ∷ 0x5cc5 ∷ 0x2c22
    ∷ 0x3c03 ∷ 0x0c60 ∷ 0x1c41 ∷ 0xedae ∷ 0xfd8f ∷ 0xcdec ∷ 0xddcd ∷ 0xad2a ∷ 0xbd0b ∷ 0x8d68
    ∷ 0x9d49 ∷ 0x7e97 ∷ 0x6eb6 ∷ 0x5ed5 ∷ 0x4ef4 ∷ 0x3e13 ∷ 0x2e32 ∷ 0x1e51 ∷ 0x0e70 ∷ 0xff9f
    ∷ 0xefbe ∷ 0xdfdd ∷ 0xcffc ∷ 0xbf1b ∷ 0xaf3a ∷ 0x9f59 ∷ 0x8f78 ∷ 0x9188 ∷ 0x81a9 ∷ 0xb1ca
    ∷ 0xa1eb ∷ 0xd10c ∷ 0xc12d ∷ 0xf14e ∷ 0xe16f ∷ 0x1080 ∷ 0x00a1 ∷ 0x30c2 ∷ 0x20e3 ∷ 0x5004
    ∷ 0x4025 ∷ 0x7046 ∷ 0x6067 ∷ 0x83b9 ∷ 0x9398 ∷ 0xa3fb ∷ 0xb3da ∷ 0xc33d ∷ 0xd31c ∷ 0xe37f
    ∷ 0xf35e ∷ 0x02b1 ∷ 0x1290 ∷ 0x22f3 ∷ 0x32d2 ∷ 0x4235 ∷ 0x5214 ∷ 0x6277 ∷ 0x7256 ∷ 0xb5ea
    ∷ 0xa5cb ∷ 0x95a8 ∷ 0x8589 ∷ 0xf56e ∷ 0xe54f ∷ 0xd52c ∷ 0xc50d ∷ 0x34e2 ∷ 0x24c3 ∷ 0x14a0
    ∷ 0x0481 ∷ 0x7466 ∷ 0x6447 ∷ 0x5424 ∷ 0x4405 ∷ 0xa7db ∷ 0xb7fa ∷ 0x8799 ∷ 0x97b8 ∷ 0xe75f
    ∷ 0xf77e ∷ 0xc71d ∷ 0xd73c ∷ 0x26d3 ∷ 0x36f2 ∷ 0x0691 ∷ 0x16b0 ∷ 0x6657 ∷ 0x7676 ∷ 0x4615
    ∷ 0x5634 ∷ 0xd94c ∷ 0xc96d ∷ 0xf90e ∷ 0xe92f ∷ 0x99c8 ∷ 0x89e9 ∷ 0xb98a ∷ 0xa9ab ∷ 0x5844
    ∷ 0x4865 ∷ 0x7806 ∷ 0x6827 ∷ 0x18c0 ∷ 0x08e1 ∷ 0x3882 ∷ 0x28a3 ∷ 0xcb7d ∷ 0xdb5c ∷ 0xeb3f
    ∷ 0xfb1e ∷ 0x8bf9 ∷ 0x9bd8 ∷ 0xabbb ∷ 0xbb9a ∷ 0x4a75 ∷ 0x5a54 ∷ 0x6a37 ∷ 0x7a16 ∷ 0x0af1
    ∷ 0x1ad0 ∷ 0x2ab3 ∷ 0x3a92 ∷ 0xfd2e ∷ 0xed0f ∷ 0xdd6c ∷ 0xcd4d ∷ 0xbdaa ∷ 0xad8b ∷ 0x9de8
    ∷ 0x8dc9 ∷ 0x7c26 ∷ 0x6c07 ∷ 0x5c64 ∷ 0x4c45 ∷ 0x3ca2 ∷ 0x2c83 ∷ 0x1ce0 ∷ 0x0cc1 ∷ 0xef1f
    ∷ 0xff3e ∷ 0xcf5d ∷ 0xdf7c ∷ 0xaf9b ∷ 0xbfba ∷ 0x8fd9 ∷ 0x9ff8 ∷ 0x6e17 ∷ 0x7e36 ∷ 0x4e55
    ∷ 0x5e74 ∷ 0x2e93 ∷ 0x3eb2 ∷ 0x0ed1 ∷ 0x1ef0 ∷ []

-- One round of CalculateCRC16 on uint16 values: the shift to the left drops the high byte.
unfoldable pub crc16_round : ℕ → ℕ → ℕ
unfolding crc16tab
crc16_round crc b =
    bit_xor (crc * 256 % 65536) (get_or crc16tab (bit_and (bit_xor (crc / 256) b) 0x00FF) 0)

unfoldable pub crc16_from : ℕ → Bytes → ℕ
unfolding crc16_round
crc16_from crc [] = crc
crc16_from crc (b ∷ bytes) = crc16_from (crc16_round crc b) bytes

unfoldable pub calculate_crc16 : Bytes → ℕ
unfolding crc16_from
calculate_crc16 bytes = crc16_from 0 bytes

-- The index of the first such byte; `i` is the index of the first byte given.
unfoldable pub find_byte : ℕ → ℕ → Bytes → Option ℕ
find_byte b i [] = none
find_byte b i (c ∷ s) = if c == b then some i else find_byte b (i + 1) s

-- The part of a key that is hashed: between the first { and the next }, if it is not empty.
unfoldable pub hash_tag : Bytes → Option Bytes
unfolding find_byte
hash_tag key = elim (find_byte b'{' 0 key) [
  | none ↦ none
  | some start ↦ elim (find_byte b'}' (start + 1) (drop (start + 1) key)) [
    | none ↦ none
    | some end ↦
        if ltb (start + 1) end then some (take (end - (start + 1)) (drop (start + 1) key)) else none
  ]
]

unfoldable pub get_cluster_slot : Bytes → ℕ
get_cluster_slot key =
    let hash_key : Bytes = elim (hash_tag key) [ none ↦ key | some tag ↦ tag ] in
    calculate_crc16 hash_key % redis_cluster_slots

abbrev pub zeros : List Bytes → List ℕ
zeros [] = []
zeros (k ∷ ks) = 0 ∷ zeros ks

-- The loop of ValidateHashTags: the slots of the rest of the slice, up to the first that differs.
unfoldable pub compare_slots : ℕ → List Bytes → Bool × List ℕ
unfolding get_cluster_slot
compare_slots first [] = (true, [])
compare_slots first (key ∷ keys) =
    let slot = get_cluster_slot key in
    let (same, slots) = compare_slots first keys in
    if slot == first then (same, slot ∷ slots) else (false, slot ∷ zeros keys)

-- A nil slice is the empty list.
unfoldable pub validate_hash_tags : List Bytes → Bool × ℕ × List ℕ
unfolding compare_slots
validate_hash_tags [] = (true, 0, [])
validate_hash_tags (key ∷ keys) =
    let first = get_cluster_slot key in
    let (same, slots) = compare_slots first (key ∷ keys) in (same, first, slots)

pub record ClusterInfo : Type 0 where
  pub slot : ℕ
  pub keys : List Bytes
  pub tag : Bytes

-- slotMap[slot] = append(slotMap[slot], key); the tag is that of the slot's first key.
unfoldable pub add_key : Bytes → List ClusterInfo → List ClusterInfo
unfolding hash_tag get_cluster_slot
add_key key [] =
    record {
      slot = get_cluster_slot key;
      keys = key ∷ [];
      tag = elim (hash_tag key) [ none ↦ [] | some tag ↦ tag ];
    }
    ∷ []
add_key key (info ∷ infos) =
    if info.slot == get_cluster_slot key
    then record info { keys = info.keys ++ key ∷ [] } ∷ infos
    else info ∷ add_key key infos

abbrev pub add_keys : List ClusterInfo → List Bytes → List ClusterInfo
add_keys infos [] = infos
add_keys infos (key ∷ keys) = add_keys (add_key key infos) keys

-- In the order of the slots' first keys; Go's map has no order.
unfoldable pub analyze_cluster_keys : List Bytes → List ClusterInfo
unfolding add_key
analyze_cluster_keys keys = add_keys [] keys
