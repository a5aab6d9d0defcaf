-- ===== src/SimpleTypes/MacLaws.antt =====
-- MAC addresses as 48-bit numbers in network order.
use mpitofino.Prelude.{
  ℕ, suc, ◌+◌, ◌*◌, ◌%◌, ◌<◌, ◌^◌, ◌≡◌, ◌↔◌, true, ltb, arith, List, [], ◌∷◌, ◌∙◌, ap, ap₂,
}
use native.Mathlib.Decide.{dec_lt}
use native.Mathlib.Nat.{mul-le-mul_right, suc-mul}
use mpitofino.SimpleTypes.{MacAddr, mac_bytes, IsMac, mac_eq, mac_lt, mac_add, bytes_lt}

abbrev pub mac_value : MacAddr → ℕ
mac_value m =
    m.b5 + m.b4 * 256 + m.b3 * 65536 + m.b2 * 16777216 + m.b1 * 4294967296 + m.b0 * 1099511627776

-- `base + offset` is addition modulo 2^48, whatever the carries: for addresses of six bytes and a
-- 32-bit offset.
pub mac_value-mac_add :
    (m : MacAddr) (offset : ℕ)
    → IsMac m
    → offset < 2 ^ 32
    → mac_value (mac_add m offset) ≡ (mac_value m + offset) % 2 ^ 48
unfolding mac_add
mac_value-mac_add m offset v h = omega arith

pub mac_add-IsMac : (m : MacAddr) (offset : ℕ) → IsMac (mac_add m offset)
unfolding mac_add
mac_add-IsMac m offset = omega arith

-- One more byte in front: `w` is the weight of the place.
bytes_lt_step :
    (w x y a b : ℕ) (xs ys : List ℕ)
    → a < w
    → b < w
    → bytes_lt xs ys ≡ ltb a b
    → bytes_lt (x ∷ xs) (y ∷ ys) ≡ ltb (x * w + a) (y * w + b)
unfolding bytes_lt
bytes_lt_step w x y a b xs ys ha hb h = elim (dec_lt x y) [
  | yes p ↦ ground (arith, mul-le-mul_right {m = suc x} {n = y} w p, suc-mul x w)
  | no p ↦ elim (dec_lt y x) [
    | yes q ↦ ground (arith, mul-le-mul_right {m = suc y} {n = x} w q, suc-mul y w)
    | no q ↦ let e : x ≡ y = omega arith in ground (arith, ap (λ (t : ℕ). t * w) e)
  ]
]

bytes_lt_last : (x y : ℕ) → bytes_lt (x ∷ []) (y ∷ []) ≡ ltb x y
unfolding bytes_lt
bytes_lt_last x y = ground arith

bytes_lt-value :
    (a b : MacAddr)
    → IsMac a
    → IsMac b
    → bytes_lt (mac_bytes a) (mac_bytes b) ≡ ltb (mac_value a) (mac_value b)
bytes_lt-value a b va vb =
    bytes_lt_step 1099511627776 a.b0 b.b0 _ _ _ _ (omega arith) (omega arith) (
      bytes_lt_step 4294967296 a.b1 b.b1 _ _ _ _ (omega arith) (omega arith) (
        bytes_lt_step 16777216 a.b2 b.b2 _ _ _ _ (omega arith) (omega arith) (
          bytes_lt_step 65536 a.b3 b.b3 _ _ _ _ (omega arith) (omega arith)
            (bytes_lt_step 256 a.b4 b.b4 _ _ _ _ va.r5 vb.r5 (bytes_lt_last a.b5 b.b5)))))
    ∙ ap₂ ltb (omega arith) (omega arith)

-- For addresses of six bytes, the byte-wise order is the order of the 48-bit numbers.
pub mac_lt-value :
    (a b : MacAddr) → IsMac a → IsMac b → mac_lt a b ≡ ltb (mac_value a) (mac_value b)
unfolding mac_lt
mac_lt-value a b va vb = bytes_lt-value a b va vb

pub mac_eq_iff : (a b : MacAddr) → (mac_eq a b ≡ true) ↔ (a ≡ b)
unfolding mac_eq
mac_eq_iff a b = ((λ h. ground arith), (λ e. ground arith))
