-- ===== src/ClientLib/Endianess/Laws.antt =====
-- What the conversion writes, and how far.
use mpitofino.Prelude.{
  List, [], ◌∷◌, ℕ, zero, suc, ◌+◌, ◌-◌, ◌*◌, ◌/◌, ◌%◌, ◌^◌, ◌≤◌, ◌<◌, ◌≡◌, ◌≢◌, refl, sym, inl,
  inr, false, ltb, min, ◌∙◌, ap, ◌>>=◌, lt→ltb, ge→ltb, Returns-imp, Returns-bind, subst, ltb→lt,
  ◌==◌, if◌then◌else◌, Bool-cases, Returns, arith, ==→eq,
}
use mpitofino.ClientLib.Endianess.{
  swap_word, Words, store, shuffle_mask, byte_of, words_of, shuffled, store_all, convert_words,
  convert_head, convert_blocks, convert_tail, convert_endianess_32,
}

-- Two conversions give the word back.
pub swap_word-swap_word : (v : ℕ) → v < 2 ^ 32 → swap_word (swap_word v) ≡ v
unfolding swap_word
swap_word-swap_word v h = omega arith

ne_of_test : {n m : ℕ} → (n == m) ≡ false → n ≢ m
ne_of_test {n} {m} h e = ground arith

-- The same four bytes in the other order.
pub record IsSwapped (v w : ℕ) : Type 0 where
  pub small : w < 2 ^ 32
  pub lowest : w % 256 ≡ v / 16777216 % 256
  pub low : w / 256 % 256 ≡ v / 65536 % 256
  pub high : w / 65536 % 256 ≡ v / 256 % 256
  pub highest : w / 16777216 ≡ v % 256

pub swap_word-IsSwapped : (v : ℕ) → IsSwapped v (swap_word v)
unfolding swap_word
swap_word-IsSwapped v = record {
  small = omega arith;
  lowest = omega arith;
  low = omega arith;
  high = omega arith;
  highest = omega arith;
}

-- The words from an address to the next multiple of 32.
abbrev to_boundary : ℕ → ℕ
to_boundary addr = (32 - addr % 32) % 32 / 4

-- Where the conversion stops writing: the unaligned start, then whole blocks of eight words.
abbrev pub write_end : ℕ → ℕ → ℕ
write_end dst_addr count =
    min count (to_boundary dst_addr) + (count - min count (to_boundary dst_addr) + 7) / 8 * 8

module _ (src dst : Words) where
  -- The words before `i` are converted, and those from `i` on as they were.
  abbrev pub Converted : ℕ → Words → Type 0
  Converted i m = (j : ℕ) → m j ≡ (if ltb j i then swap_word (src j) else dst j)

  Converted-store :
      (i : ℕ) (m : Words) → Converted i m → Converted (i + 1) (store m i (swap_word (src i)))
  Converted-store i m h j = elim (Bool-cases (i == j)) [
    | inl e ↦ ground (arith, ==→eq i j e)
    | inr e ↦ ground (arith, h j)
  ]

  Converted-store_again :
      (k i : ℕ) (m : Words) → i < k → Converted k m → Converted k (store m i (swap_word (src i)))
  Converted-store_again k i m b h j = elim (Bool-cases (i == j)) [
    | inl e ↦ ground (arith, ==→eq i j e)
    | inr e ↦ ground (arith, h j)
  ]

  convert_words-Converted :
      (n i : ℕ) (m : Words) → Converted i m → Converted (i + n) (convert_words src n i m)
  unfolding convert_words
  convert_words-Converted zero i m h = λ j. ground (arith, h j)
  convert_words-Converted (suc n) i m h =
      λ j. ground (arith, convert_words-Converted n (i + 1) _ (Converted-store i m h) j)

  convert_words-Converted_again :
      (n k i : ℕ) (m : Words) → i + n ≤ k → Converted k m → Converted k (convert_words src n i m)
  unfolding convert_words
  convert_words-Converted_again zero k i m b h = h
  convert_words-Converted_again (suc n) k i m b h =
      convert_words-Converted_again n k (i + 1) _ (omega arith)
        (Converted-store_again k i m (omega arith) h)

  -- The first loop stops at the end, or where the destination is aligned.
  convert_head-Converted :
      (dst_addr left i : ℕ) (m : Words)
      → dst_addr % 4 ≡ 0
      → Converted i m
      → let (i', m') = convert_head src dst_addr left i m in
        Converted i' m' × (i' ≡ i + min left (to_boundary (dst_addr + 4 * i)))
  unfolding convert_head
  convert_head-Converted dst_addr zero i m a h = (h, omega arith)
  convert_head-Converted dst_addr (suc left) i m a h =
      elim (Bool-cases ((dst_addr + 4 * i) % 32 == 0)) [
        | inl e ↦ rw e (h, omega (arith, ==→eq _ _ e))
        | inr e ↦
            let ih = convert_head-Converted dst_addr left (i + 1) _ a (Converted-store i m h) in
            let unaligned : (dst_addr + 4 * i) % 32 ≢ 0 = ne_of_test e in
            rw e (ih.0, omega (arith, ih.1, unaligned))
      ]

  -- The swapped words from `i` on.
  swapped : ℕ → ℕ → List ℕ
  swapped zero i = []
  swapped (suc n) i = swap_word (src i) ∷ swapped n (i + 1)

  store_all-swapped : (n i : ℕ) (m : Words) → store_all (swapped n i) i m ≡ convert_words src n i m
  unfolding store_all convert_words swapped
  store_all-swapped zero i m = refl
  store_all-swapped (suc n) i m = store_all-swapped n (i + 1) (store m i (swap_word (src i)))

  -- A word whose bytes come in the other order.
  lane :
      (j k : ℕ)
      → j ≡ k
      → byte_of (src j) 3
          + byte_of (src j) 2 * 256
          + byte_of (src j) 1 * 65536
          + byte_of (src j) 0 * 16777216
        ≡ swap_word (src k)
  unfolding byte_of swap_word
  lane j k e = rw e (omega arith)

  cons_eq : (a b : ℕ) (l m : List ℕ) → a ≡ b → l ≡ m → a ∷ l ≡ b ∷ m
  cons_eq a b l m e f = cc (e, f)

  -- The mask of the second loop reverses the bytes of each of its eight words.
  words_of-shuffled : (i : ℕ) → words_of (shuffled src shuffle_mask i 0) ≡ swapped 8 i
  unfolding words_of shuffled swapped byte_of
  words_of-shuffled i = cons_eq _ _ _ _ (lane (i + 0) i (omega arith)) (
      cons_eq _ _ _ _ (lane (i + 1) (i + 1) (omega arith)) (
        cons_eq _ _ _ _ (lane (i + 2) (i + 1 + 1) (omega arith)) (
          cons_eq _ _ _ _ (lane (i + 3) (i + 1 + 1 + 1) (omega arith)) (
            cons_eq _ _ _ _ (lane (i + 4) (i + 1 + 1 + 1 + 1) (omega arith)) (
              cons_eq _ _ _ _ (lane (i + 5) (i + 1 + 1 + 1 + 1 + 1) (omega arith)) (
                cons_eq _ _ _ _ (lane (i + 6) (i + 1 + 1 + 1 + 1 + 1 + 1) (omega arith)) (
                  cons_eq _ _ _ _ (lane (i + 7) (i + 1 + 1 + 1 + 1 + 1 + 1 + 1) (omega arith))
                    refl)))))))

  store_all-convert_words :
      (i : ℕ) (m : Words)
      → store_all (words_of (shuffled src shuffle_mask i 0)) i m ≡ convert_words src 8 i m
  store_all-convert_words i m =
      ap (λ ws. store_all ws i m) (words_of-shuffled i) ∙ store_all-swapped 8 i m

  -- The second loop rounds up to eight words.
  convert_blocks-Converted :
      (count fuel i : ℕ) (m : Words)
      → count ≤ i + fuel
      → Converted i m
      → let (i', m') = convert_blocks src count fuel i m in
        Converted i' m' × (i' ≡ i + (count - i + 7) / 8 * 8)
  unfolding convert_blocks
  convert_blocks-Converted count zero i m b h = (h, omega arith)
  convert_blocks-Converted count (suc fuel) i m b h = elim (Bool-cases (ltb i count)) [
    | inl e ↦
        let ih = convert_blocks-Converted count fuel (i + 8) _ (omega arith) (
          subst (Converted (i + 8)) (sym (store_all-convert_words i m))
            (convert_words-Converted 8 i m h)) in
        rw e (ih.0, omega (arith, ih.1, ltb→lt i count e))
    | inr e ↦ rw e (h, ground arith)
  ]

  convert_tail-Converted :
      (count i : ℕ) (m : Words)
      → count ≤ i
      → Converted i m
      → Converted i (convert_tail src count (i, m))
  unfolding convert_tail
  convert_tail-Converted count i m b h = elim (Bool-cases (i == count)) [
    | inl e ↦ rw e h
    | inr e ↦ rw e (convert_words-Converted_again (count - (i - 8)) i (i - 8) m (omega arith) h)
  ]

  -- From and to addresses that are multiples of four, the conversion succeeds: every word below
  -- `write_end` is the byte-swapped source word, and no word from there on changes.
  pub convert_endianess_32-Converted :
      (src_addr dst_addr count : ℕ)
      → src_addr % 4 ≡ 0
      → dst_addr % 4 ≡ 0
      → Returns
          (Converted (write_end dst_addr count))
          (convert_endianess_32 src src_addr dst_addr count dst)
  unfolding convert_endianess_32
  convert_endianess_32-Converted src_addr dst_addr count a b =
      let head = convert_head-Converted dst_addr count 0 dst b (λ j. ground arith) in
      let start = (convert_head src dst_addr count 0 dst).0 in
      let blocks =
        convert_blocks-Converted count count start (convert_head src dst_addr count 0 dst).1
          (omega arith) head.0 in
      rw (a, b)
        (subst
          (λ n. Converted n (
            convert_tail src count
              (convert_blocks src count count start (convert_head src dst_addr count 0 dst).1)))
          (omega (arith, head.1, blocks.1))
          (convert_tail-Converted count _ _ (omega (arith, blocks.1)) blocks.0))

  -- From and to addresses that are multiples of four, the conversion succeeds: every word below
  -- write_end has the four bytes of the source word in the other order, and no word from there on
  -- changes.
  pub convert_endianess_32-IsSwapped :
      (src_addr dst_addr count : ℕ)
      → src_addr % 4 ≡ 0
      → dst_addr % 4 ≡ 0
      → Returns
          (λ out.
            ((j : ℕ) → j < write_end dst_addr count → IsSwapped (src j) (out j))
            × ((j : ℕ) → write_end dst_addr count ≤ j → out j ≡ dst j))
          (convert_endianess_32 src src_addr dst_addr count dst)
  convert_endianess_32-IsSwapped src_addr dst_addr count a b =
      Returns-imp (Converted (write_end dst_addr count)) _
        (convert_endianess_32 src src_addr dst_addr count dst)
        (convert_endianess_32-Converted src_addr dst_addr count a b)
        (λ out h. (
          (λ j lt.
              subst (IsSwapped (src j))
                (sym (h j ∙ rw (lt→ltb j (write_end dst_addr count) lt) refl))
                (swap_word-IsSwapped (src j))),
          (λ j le. h j ∙ rw (ge→ltb j (write_end dst_addr count) le) refl),
        ))

  -- Every word of the buffer is converted.
  pub convert_endianess_32-word :
      (src_addr dst_addr count : ℕ)
      → src_addr % 4 ≡ 0
      → dst_addr % 4 ≡ 0
      → Returns
          (λ out. (j : ℕ) → j < count → out j ≡ swap_word (src j))
          (convert_endianess_32 src src_addr dst_addr count dst)
  convert_endianess_32-word src_addr dst_addr count a b =
      Returns-imp (Converted (write_end dst_addr count))
        (λ out. (j : ℕ) → j < count → out j ≡ swap_word (src j))
        (convert_endianess_32 src src_addr dst_addr count dst)
        (convert_endianess_32-Converted src_addr dst_addr count a b)
        (λ out h j lt. h j ∙ rw (lt→ltb j (write_end dst_addr count) (omega arith)) refl)

  -- Into a destination at a multiple of 32 bytes, from a source at a multiple of four, whose length
  -- is no multiple of eight words, the conversion writes at least one word behind the end of the
  -- buffer: the word at count is overwritten.
  pub convert_endianess_32-overrun :
      (src_addr dst_addr count : ℕ)
      → src_addr % 4 ≡ 0
      → dst_addr % 32 ≡ 0
      → count % 8 ≢ 0
      → Returns
          (λ out. out count ≡ swap_word (src count))
          (convert_endianess_32 src src_addr dst_addr count dst)
  convert_endianess_32-overrun src_addr dst_addr count a b c =
      Returns-imp (Converted (write_end dst_addr count)) (λ out. out count ≡ swap_word (src count))
        (convert_endianess_32 src src_addr dst_addr count dst)
        (convert_endianess_32-Converted src_addr dst_addr count a (omega (arith, b)))
        (λ out h. h count ∙ rw (lt→ltb count (write_end dst_addr count) (omega (arith, b, c))) refl)

-- What one process converts for the switch, another converts back: for 32-bit words, from and to
-- addresses that are multiples of four, both conversions succeed and the words of the buffer are the
-- original ones.
pub convert_endianess_32_twice :
    (src wire dst : Words) (src_addr wire_addr dst_addr count : ℕ)
    → ((j : ℕ) → src j < 2 ^ 32)
    → src_addr % 4 ≡ 0
    → wire_addr % 4 ≡ 0
    → dst_addr % 4 ≡ 0
    → Returns
        (λ out. (j : ℕ) → j < count → out j ≡ src j)
        (convert_endianess_32 src src_addr wire_addr count wire >>= λ sent.
          convert_endianess_32 sent wire_addr dst_addr count dst)
convert_endianess_32_twice src wire dst src_addr wire_addr dst_addr count w a b c =
    Returns-bind (λ sent. (j : ℕ) → j < count → sent j ≡ swap_word (src j))
      (λ out. (j : ℕ) → j < count → out j ≡ src j)
      (convert_endianess_32 src src_addr wire_addr count wire) _
      (convert_endianess_32-word src wire src_addr wire_addr count a b)
      (λ sent h.
        Returns-imp (λ out. (j : ℕ) → j < count → out j ≡ swap_word (sent j))
          (λ out. (j : ℕ) → j < count → out j ≡ src j)
          (convert_endianess_32 sent wire_addr dst_addr count dst)
          (convert_endianess_32-word sent dst wire_addr dst_addr count b c)
          (λ out k j lt. k j lt ∙ ap swap_word (h j lt) ∙ swap_word-swap_word (src j) (w j)))
