-- ===== src/Utils/Checksum.antt =====
-- The Internet checksum of `utils.cc`: it always ends, and a packet that carries it sums up to zero.
use mpitofino.Prelude.{
  ℕ, zero, suc, ◌+◌, ◌-◌, ◌*◌, ◌/◌, ◌%◌, ◌^◌, ◌≡◌, ◌≤◌, ◌<◌, ◌↔◌, ◌≢◌, refl, ◌∙◌, ap, inl, inr,
  Option, none, some, List, [], ◌∷◌, ◌++◌, length, All, arith, ltb, ltb→lt, Bool-cases, subst,
}
use mpitofino.Utils.{sum_words, fold_carries, internet_checksum}

abbrev pub AreBytes : List ℕ → Type 0
AreBytes bytes = All (λ b. b < 256) bytes

-- The sum of the words without a bound on its size.
abbrev pub word_sum : List ℕ → ℕ
word_sum [] = 0
word_sum (a ∷ []) = a
word_sum (a ∷ b ∷ bytes) = a + b * 256 + word_sum bytes

word_sum-bound : (bytes : List ℕ) → AreBytes bytes → word_sum bytes ≤ length bytes * 65535
word_sum-bound [] h = omega arith
word_sum-bound (a ∷ []) h = omega (arith, h.0)
word_sum-bound (a ∷ b ∷ bytes) h = omega (arith, h.0, h.1.0, word_sum-bound bytes h.1.1)

sum_words-word_sum :
    (bytes : List ℕ) (sum : ℕ)
    → sum + word_sum bytes < 2 ^ 32
    → sum_words sum bytes ≡ sum + word_sum bytes
unfolding sum_words
sum_words-word_sum [] sum h = omega arith
sum_words-word_sum (a ∷ []) sum h = omega arith
sum_words-word_sum (a ∷ b ∷ bytes) sum h =
    let fits : (sum + (a + b * 256)) % 2 ^ 32 ≡ sum + (a + b * 256) = omega arith in
    rw fits (sum_words-word_sum bytes (sum + (a + b * 256)) (omega arith) ∙ omega arith)

-- The sum in one's complement: what is left of `sum` once its carries were added at the low end.
pub record IsFolded (sum folded : ℕ) : Type 0 where
  pub small : folded < 65536
  pub same : folded % 65535 ≡ sum % 65535
  pub zero_iff : (folded ≡ 0) ↔ (sum ≡ 0)

abbrev Folds : ℕ → Option ℕ → Type 0
Folds sum none = ⊥
Folds sum (some folded) = IsFolded sum folded

Folds-round :
    (sum : ℕ) (o : Option ℕ) → 65536 ≤ sum → Folds (sum % 65536 + sum / 65536) o → Folds sum o
Folds-round sum none le h = h
Folds-round sum (some f) le h = record {
  small = h.small;
  same = omega (arith, h.same);
  zero_iff = ((λ e. absurd (omega (arith, h.zero_iff.0 e))), λ e. absurd (omega arith));
}

-- The rounds that the loop can need: none, one, or two.
abbrev FuelFor : ℕ → ℕ → Type 0
FuelFor zero sum = ⊥
FuelFor (suc zero) sum = sum < 65536
FuelFor (suc (suc zero)) sum = sum < 131071
FuelFor (suc (suc (suc fuel))) sum = sum < 2 ^ 32

FuelFor-round :
    (fuel sum : ℕ) → 65536 ≤ sum → FuelFor (suc fuel) sum → FuelFor fuel (sum % 65536 + sum / 65536)
FuelFor-round zero sum le h = absurd (omega arith)
FuelFor-round (suc zero) sum le h = omega arith
FuelFor-round (suc (suc zero)) sum le h = omega arith
FuelFor-round (suc (suc (suc fuel))) sum le h = omega arith

fold_carries-Folds : (fuel sum : ℕ) → FuelFor fuel sum → Folds sum (fold_carries fuel sum)
unfolding fold_carries
fold_carries-Folds zero sum h = absurd h
fold_carries-Folds (suc fuel) sum h = elim (Bool-cases (ltb sum 65536)) [
  | inl t ↦ rw t (record { small = ltb→lt sum 65536 t; same = refl; zero_iff = (λ e. e, λ e. e) })
  | inr f ↦
      let le : 65536 ≤ sum = ground arith in
      rw f (
        Folds-round sum (fold_carries fuel (sum % 65536 + sum / 65536)) le
          (fold_carries-Folds fuel (sum % 65536 + sum / 65536) (FuelFor-round fuel sum le h)))
]

-- What the checksum of a packet is: the complement of the folded sum.
abbrev pub Complements : ℕ → Option ℕ → Type 0
Complements sum none = ⊥
Complements sum (some c) = (c < 65536) × IsFolded sum (65535 - c)

module _ (bytes : List ℕ) (h : AreBytes bytes) (short : length bytes ≤ 65536) where
  sum_words-zero : sum_words 0 bytes ≡ word_sum bytes
  sum_words-zero = sum_words-word_sum bytes 0 (omega (arith, word_sum-bound bytes h)) ∙ omega arith

  -- Of at most 65536 bytes the checksum always exists. It is the complement of a number below 65536
  -- that is the sum of the little-endian words modulo 65535, where a last byte that is left over counts
  -- as a word, and that is 0 only if the sum is.
  pub internet_checksum-Complements : Complements (word_sum bytes) (internet_checksum bytes)
  unfolding internet_checksum
  internet_checksum-Complements = complement (fold_carries 3 (sum_words 0 bytes)) (
      subst (λ sum. Folds sum (fold_carries 3 (sum_words 0 bytes))) sum_words-zero
        (fold_carries-Folds 3 (sum_words 0 bytes)
          (omega (arith, sum_words-zero, word_sum-bound bytes h))))
    where
      complement :
          (o : Option ℕ)
          → Folds (word_sum bytes) o
          → Complements (word_sum bytes) (elim o [ none ↦ none | some sum ↦ some (65535 - sum) ])
      complement none f = f
      complement (some sum) f =
          let e : 65535 - (65535 - sum) ≡ sum = omega (arith, f.small) in (omega arith, rw e f)

-- A 16-bit field in the middle of a packet.
abbrev pub with_field : List ℕ → ℕ → List ℕ → List ℕ
with_field front field back = front ++ field % 256 ∷ field / 256 ∷ back

word_sum-with_field :
    (front back : List ℕ) (field : ℕ)
    → length front % 2 ≡ 0
    → word_sum (with_field front field back) ≡ word_sum (with_field front 0 back) + field
word_sum-with_field [] back field e = omega arith
word_sum-with_field (a ∷ []) back field e = absurd (omega arith)
word_sum-with_field (a ∷ b ∷ front) back field e =
    omega (arith, word_sum-with_field front back field (omega arith))

AreBytes-with_field :
    (front back : List ℕ) (field : ℕ)
    → AreBytes front
    → AreBytes back
    → field < 65536
    → AreBytes (with_field front field back)
AreBytes-with_field [] back field f b h = (omega arith, (omega arith, b))
AreBytes-with_field (a ∷ front) back field f b h =
    (f.0, AreBytes-with_field front back field f.1 b h)

length-with_field :
    (front back : List ℕ) (field : ℕ)
    → length (with_field front field back) ≡ length (with_field front 0 back)
length-with_field [] back field = refl
length-with_field (a ∷ front) back field = ap suc (length-with_field front back field)

-- A sum to which the complement was added folds to all ones.
folded-ones :
    (sum c folded : ℕ)
    → c < 65536
    → IsFolded sum (65535 - c)
    → IsFolded (sum + c) folded
    → folded ≡ 65535
folded-ones sum c folded lt before after =
    let nonzero : sum + c ≢ 0 = λ e. absurd (omega (arith, before.zero_iff.1 (omega arith))) in
    let positive : folded ≢ 0 = λ e. nonzero (after.zero_iff.0 e) in
    omega (arith, before.same, after.same, after.small, positive)

-- The checksum of a packet whose checksum field is still zero, and what it does for the packet.
abbrev pub Verifies : List ℕ → List ℕ → Type 0
Verifies front back =
    (c : ℕ) × (internet_checksum (with_field front 0 back) ≡ some c)
    × (c < 65536)
    × (internet_checksum (with_field front c back) ≡ some 0)

module _ (front back : List ℕ) (even : length front % 2 ≡ 0) where
  cleared :
      (c : ℕ)
      → c < 65536
      → IsFolded (word_sum (with_field front 0 back)) (65535 - c)
      → (o : Option ℕ) → Complements (word_sum (with_field front c back)) o
      → o ≡ some 0
  cleared c lt d none h = absurd h
  cleared c lt d (some v) h =
      let all : 65535 - v ≡ 65535 =
        folded-ones (word_sum (with_field front 0 back)) c (65535 - v) lt d
          (subst (λ sum. IsFolded sum (65535 - v)) (word_sum-with_field front back c even) h.1) in
      ap some (omega (arith, h.0))

  complement_found :
      (o : Option ℕ)
      → Complements (word_sum (with_field front 0 back)) o
      → (c : ℕ) × (o ≡ some c)
        × (c < 65536)
        × IsFolded (word_sum (with_field front 0 back)) (65535 - c)
  complement_found none h = absurd h
  complement_found (some c) h = (c, refl, h.0, h.1)

-- A packet of at most 65536 bytes whose checksum field, at an even place, is zero: its checksum always
-- exists, and the packet with this checksum in the field has the checksum zero, which is what a
-- receiver tests.
pub internet_checksum-Verifies :
    (front back : List ℕ)
    → AreBytes front
    → AreBytes back
    → length front % 2 ≡ 0
    → length (with_field front 0 back) ≤ 65536
    → Verifies front back
internet_checksum-Verifies front back f b even short =
    let blank : AreBytes (with_field front 0 back) =
      AreBytes-with_field front back 0 f b (omega arith) in
    let (c, found, lt, folded) =
      complement_found front back even (internet_checksum (with_field front 0 back))
        (internet_checksum-Complements (with_field front 0 back) blank short) in
    (
      c,
      found,
      lt,
      cleared front back even c lt folded (internet_checksum (with_field front c back)) (
          internet_checksum-Complements (with_field front c back)
            (AreBytes-with_field front back c f b lt)
            (omega (arith, short, length-with_field front back c))),
    )
