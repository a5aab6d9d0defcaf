-- ===== src/AsicDriver/Bitmaps.antt =====
-- The bits by which the chip tells the workers of a pipe apart: `node_bitmap_low` and `_high` of
-- `on_st_repo_channels`, which hold the next worker's bit, and `full_bitmap_low` and `_high`, the bits
-- given away. Each is a `uint32_t`.
use mpitofino.Prelude.{
  ℕ, zero, suc, ◌+◌, ◌-◌, ◌*◌, ◌%◌, ◌^◌, ◌≡◌, ◌≤◌, ◌<◌, refl, Bool, true, false, ◌&&◌, ltb, ◌==◌,
  ==→eq, if◌then◌else◌, tested_below, tested_below-true, bit_or, arith,
}

pub record Bitmap : Type 0 where
  pub node_low : ℕ
  pub node_high : ℕ
  pub full_low : ℕ
  pub full_high : ℕ

abbrev pub first_bitmap : Bitmap
first_bitmap = record { node_low = 1; node_high = 0; full_low = 0; full_high = 0 }

-- The update of the worker bitmap, and the shift to the next worker.
unfoldable pub advance : Bitmap → Bitmap
advance b = record {
  full_low = bit_or b.full_low b.node_low;
  full_high = bit_or b.full_high b.node_high;
  node_high = if b.node_low == 2147483648 then 1 else b.node_high * 2 % 2 ^ 32;
  node_low = b.node_low * 2 % 2 ^ 32;
}

-- The bitmaps of a pipe that has so many workers.
unfoldable pub bitmap_after : ℕ → Bitmap
bitmap_after zero = first_bitmap
bitmap_after (suc n) = advance (bitmap_after n)

-- The two halves as one word.
abbrev pub node_bits : Bitmap → ℕ
node_bits b = b.node_low + b.node_high * 2 ^ 32

abbrev pub full_bits : Bitmap → ℕ
full_bits b = b.full_low + b.full_high * 2 ^ 32

-- Both tests agree.
abbrev agree : Bool → Bool → Bool
agree true b = b
agree false true = false
agree false false = true

node_test : ℕ → Bool
node_test n = node_bits (bitmap_after n) == 2 ^ n

full_test : ℕ → Bool
full_test n = full_bits (bitmap_after n) == 2 ^ n - 1

room_test : ℕ → Bool
room_test n =
    agree (ltb (bitmap_after n).full_high 4294967295) (ltb n 64)
    && (agree (ltb (bitmap_after n).full_high 536870911) (ltb n 61)
        && agree ((bitmap_after n).full_low == 0) (n == 0))

node_table : tested_below node_test 64 ≡ true
unfolding tested_below node_test bitmap_after advance
node_table = refl

full_table : tested_below full_test 65 ≡ true
unfolding tested_below full_test bitmap_after advance
full_table = refl

room_table : tested_below room_test 65 ≡ true
unfolding tested_below room_test bitmap_after advance
room_table = refl

agree-eq : (a b : Bool) → agree a b ≡ true → a ≡ b
agree-eq true true h = refl
agree-eq true false h = cc
agree-eq false true h = cc
agree-eq false false h = refl

-- The worker number `n` of a pipe, of at most 64, has the bit `n` of a 64-bit word.
pub node_bits-bitmap_after : (n : ℕ) → n < 64 → node_bits (bitmap_after n) ≡ 2 ^ n
unfolding node_test
node_bits-bitmap_after n h = ==→eq _ _ (tested_below-true node_test 64 n h node_table)

-- The bits given away to at most 64 workers are the lowest ones.
pub full_bits-bitmap_after : (n : ℕ) → n ≤ 64 → full_bits (bitmap_after n) ≡ 2 ^ n - 1
unfolding full_test
full_bits-bitmap_after n h = ==→eq _ _ (tested_below-true full_test 65 n (omega arith) full_table)

-- The tests of the driver on the bitmaps count the workers.
module _ (n : ℕ) (h : n ≤ 64) where
  room : room_test n ≡ true
  room = tested_below-true room_test 65 n (omega arith) room_table

  pub full_high-ltb : ltb (bitmap_after n).full_high 4294967295 ≡ ltb n 64
  unfolding room_test
  full_high-ltb = agree-eq _ _ (ground (arith, room))

  pub full_high-ltb_reserved : ltb (bitmap_after n).full_high 536870911 ≡ ltb n 61
  unfolding room_test
  full_high-ltb_reserved = agree-eq _ _ (ground (arith, room))

  pub full_low-eq_zero : ((bitmap_after n).full_low == 0) ≡ (n == 0)
  unfolding room_test
  full_low-eq_zero = agree-eq _ _ (ground (arith, room))
