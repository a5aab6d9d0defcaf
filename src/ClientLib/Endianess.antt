-- ===== src/ClientLib/Endianess.antt =====
-- `convert_endianess_32` of client_lib/mpitofino.cc: the conversion of a buffer to and from the byte
-- order of the switch, with its vectorised loop.
pub mod Laws
use mpitofino.Prelude.{
  ℕ, zero, suc, ◌+◌, ◌-◌, ◌*◌, ◌/◌, ◌%◌, Bool, true, false, ◌||◌, not, ltb, ◌==◌, if◌then◌else◌,
  Result, ok, err, Exception, runtime_error, List, [], ◌∷◌,
}

-- The shifts and masks of the scalar loops.
unfoldable pub swap_word : ℕ → ℕ
swap_word v =
    v % 256 * 16777216 + v / 256 % 256 * 65536 + v / 65536 % 256 * 256 + v / 16777216 % 256

-- The words from a pointer on, those behind the end of the buffer included.
abbrev pub Words : Type 0
Words = ℕ → ℕ

abbrev pub store : Words → ℕ → ℕ → Words
store m i v j = if i == j then v else m j

-- `_shuffle`, whose two halves are for the two lanes.
abbrev pub shuffle_mask : List ℕ
shuffle_mask =
    3 ∷ 2 ∷ 1 ∷ 0 ∷ 7 ∷ 6 ∷ 5 ∷ 4 ∷ 11 ∷ 10 ∷ 9 ∷ 8 ∷ 15 ∷ 14 ∷ 13 ∷ 12 ∷ 3 ∷ 2 ∷ 1 ∷ 0 ∷ 7 ∷ 6 ∷ 5
    ∷ 4 ∷ 11 ∷ 10 ∷ 9 ∷ 8 ∷ 15 ∷ 14 ∷ 13 ∷ 12 ∷ []

-- The byte of a word at `k % 4`, the lowest first.
unfoldable pub byte_of : ℕ → ℕ → ℕ
byte_of v k =
    if k % 4 == 0
    then v % 256
    else if k % 4 == 1
    then v / 256 % 256
    else if k % 4 == 2
    then v / 65536 % 256
    else v / 16777216 % 256

-- The words that bytes make, the lowest byte first.
unfoldable pub words_of : List ℕ → List ℕ
words_of (b0 ∷ b1 ∷ b2 ∷ b3 ∷ bytes) = (b0 + b1 * 256 + b2 * 65536 + b3 * 16777216) ∷ words_of bytes
words_of bytes = []

-- `_mm256_stream_si256`: words to `dst + i`.
unfoldable pub store_all : List ℕ → ℕ → Words → Words
store_all [] i dst = dst
store_all (w ∷ ws) i dst = store_all ws (i + 1) (store dst i w)

module _ (src : Words) where
  -- `_mm256_shuffle_epi8` on the eight words from `src + i` on, from its byte `p` on: the byte comes
  -- from the same lane of 16 bytes, at the place that the mask names.
  unfoldable pub shuffled : List ℕ → ℕ → ℕ → List ℕ
  shuffled [] i p = []
  shuffled (s ∷ mask) i p =
      byte_of (src (i + (p / 16 * 16 + s) / 4)) (p / 16 * 16 + s) ∷ shuffled mask i (p + 1)

  -- `dst[i] = …` for `n` words from `i` on.
  unfoldable pub convert_words : ℕ → ℕ → Words → Words
  convert_words zero i dst = dst
  convert_words (suc n) i dst = convert_words n (i + 1) (store dst i (swap_word (src i)))

  -- The first loop: until `dst + i` is aligned to 32 bytes; `left` is `count - i`.
  unfoldable pub convert_head : ℕ → ℕ → ℕ → Words → ℕ × Words
  convert_head dst_addr zero i dst = (i, dst)
  convert_head dst_addr (suc left) i dst =
      let rest = convert_head dst_addr left (i + 1) (store dst i (swap_word (src i))) in
      if (dst_addr + 4 * i) % 32 == 0 then (i, dst) else rest

  -- The second loop: eight words a round while `i < count`.
  unfoldable pub convert_blocks : ℕ → ℕ → ℕ → Words → ℕ × Words
  convert_blocks count zero i dst = (i, dst)
  convert_blocks count (suc fuel) i dst =
      let rest =
        convert_blocks count fuel (i + 8)
          (store_all (words_of (shuffled shuffle_mask i 0)) i dst) in
      if ltb i count then rest else (i, dst)

  -- `if (i != count) { i -= 8; … }`: the third loop.
  unfoldable pub convert_tail : ℕ → ℕ × Words → Words
  convert_tail count (i, dst) =
      if i == count then dst else convert_words (count - (i - 8)) (i - 8) dst

  -- A round of the second loop advances `i`, so `count` rounds are enough.
  unfoldable pub convert_endianess_32 : ℕ → ℕ → ℕ → Words → Result Words
  convert_endianess_32 src_addr dst_addr count dst =
      if not (src_addr % 4 == 0) || not (dst_addr % 4 == 0)
      then err runtime_error
      else (let (i, dst1) = convert_head dst_addr count 0 dst in
          ok (convert_tail count (convert_blocks count count i dst1)))
