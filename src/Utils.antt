-- ===== src/Utils.antt =====
-- projects/mpitofino/common/utils.h and utils.cc: the Internet checksum of RFC 1071, on the bytes of
-- a packet. The hosts are little-endian.
pub mod Checksum
use mpitofino.Prelude.{
  ℕ, zero, suc, ◌+◌, ◌-◌, ◌*◌, ◌/◌, ◌%◌, ◌^◌, Option, none, some, List, [], ◌∷◌, ltb, if◌then◌else◌,
}

-- The first loop, on a `uint32_t`: two bytes a round, and a byte that is left over.
unfoldable pub sum_words : ℕ → List ℕ → ℕ
sum_words sum [] = sum
sum_words sum (a ∷ []) = (sum + a) % 2 ^ 32
sum_words sum (a ∷ b ∷ bytes) = sum_words ((sum + (a + b * 256)) % 2 ^ 32) bytes

-- The second loop: `while (sum >> 16) sum = (sum & 0xffff) + (sum >> 16)`.
unfoldable pub fold_carries : ℕ → ℕ → Option ℕ
fold_carries zero sum = none
fold_carries (suc fuel) sum =
    let rest = fold_carries fuel (sum % 65536 + sum / 65536) in
    if ltb sum 65536 then some sum else rest

-- `~sum` as a `uint16_t`, for a sum below 65536.
unfoldable pub internet_checksum : List ℕ → Option ℕ
internet_checksum bytes = elim (fold_carries 3 (sum_words 0 bytes)) [
  | none ↦ none
  | some sum ↦ some (65535 - sum)
]
