-- ===== src/SimpleTypes.antt =====
-- projects/mpitofino/common/simple_types.h: the addresses that every other part passes around.
-- A byte is a number below 256. `unsigned` is 32 bits wide and the hosts are little-endian.
pub mod MacLaws
pub mod IpLaws
pub mod MacText
pub mod IpText
mod Tests
use mpitofino.Prelude.{
  ℕ, ◌+◌, ◌*◌, ◌/◌, ◌%◌, ◌<◌, ◌^◌, ◌≡◌, Bool, true, false, not, ◌&&◌, List, [], ◌∷◌, ltb, ◌==◌,
  if◌then◌else◌,
}

pub record MacAddr : Type 0 where
  pub b0 : ℕ
  pub b1 : ℕ
  pub b2 : ℕ
  pub b3 : ℕ
  pub b4 : ℕ
  pub b5 : ℕ

pub record IPv4Addr : Type 0 where
  pub b0 : ℕ
  pub b1 : ℕ
  pub b2 : ℕ
  pub b3 : ℕ

abbrev pub mac_bytes : MacAddr → List ℕ
mac_bytes m = m.b0 ∷ m.b1 ∷ m.b2 ∷ m.b3 ∷ m.b4 ∷ m.b5 ∷ []

abbrev pub ip_bytes : IPv4Addr → List ℕ
ip_bytes a = a.b0 ∷ a.b1 ∷ a.b2 ∷ a.b3 ∷ []

-- `memcmp(a, b, n) == 0` on two arrays of the same length.
unfoldable pub same_bytes : List ℕ → List ℕ → Bool
same_bytes [] ys = true
same_bytes (x ∷ xs) [] = true
same_bytes (x ∷ xs) (y ∷ ys) = x == y && same_bytes xs ys

unfoldable pub mac_eq : MacAddr → MacAddr → Bool
unfolding same_bytes
mac_eq a b = same_bytes (mac_bytes a) (mac_bytes b)

unfoldable pub ip_eq : IPv4Addr → IPv4Addr → Bool
unfolding same_bytes
ip_eq a b = same_bytes (ip_bytes a) (ip_bytes b)

-- The loop of `operator<` on MAC addresses.
unfoldable pub bytes_lt : List ℕ → List ℕ → Bool
bytes_lt [] ys = false
bytes_lt (x ∷ xs) [] = false
bytes_lt (x ∷ xs) (y ∷ ys) =
    let rest = bytes_lt xs ys in if ltb x y then true else if ltb y x then false else rest

unfoldable pub mac_lt : MacAddr → MacAddr → Bool
unfolding bytes_lt
mac_lt a b = bytes_lt (mac_bytes a) (mac_bytes b)

-- `*reinterpret_cast<const uint32_t*>(addr)`.
abbrev pub ip_word : IPv4Addr → ℕ
ip_word a = a.b0 + a.b1 * 256 + a.b2 * 65536 + a.b3 * 16777216

unfoldable pub ip_lt : IPv4Addr → IPv4Addr → Bool
ip_lt a b = ltb (ip_word a) (ip_word b)

unfoldable pub is_0000 : IPv4Addr → Bool
is_0000 a = a.b0 == 0 && (a.b1 == 0 && (a.b2 == 0 && a.b3 == 0))

abbrev pub ip_0000 : IPv4Addr
ip_0000 = record { b0 = 0; b1 = 0; b2 = 0; b3 = 0 }

abbrev pub mac_zero : MacAddr
mac_zero = record { b0 = 0; b1 = 0; b2 = 0; b3 = 0; b4 = 0; b5 = 0 }

-- One round of the loop of `MacAddr::operator+`: `v = (offset & 0xff) + carry + addr[i]`.
abbrev pub add_value : ℕ → ℕ → ℕ → ℕ
add_value b offset carry = offset % 256 + carry + b

-- The loop runs from the last byte to the first; `offset >>= 8` and `carry = v >> 8` each round.
unfoldable pub mac_add : MacAddr → ℕ → MacAddr
mac_add m offset =
    let v5 = add_value m.b5 offset 0 in
    let v4 = add_value m.b4 (offset / 256) (v5 / 256) in
    let v3 = add_value m.b3 (offset / 256 / 256) (v4 / 256) in
    let v2 = add_value m.b2 (offset / 256 / 256 / 256) (v3 / 256) in
    let v1 = add_value m.b1 (offset / 256 / 256 / 256 / 256) (v2 / 256) in
    let v0 = add_value m.b0 (offset / 256 / 256 / 256 / 256 / 256) (v1 / 256) in
    record {
      b0 = v0 % 256;
      b1 = v1 % 256;
      b2 = v2 % 256;
      b3 = v3 % 256;
      b4 = v4 % 256;
      b5 = v5 % 256;
    }

-- `*reinterpret_cast<IPv4Addr*>(&word)` and `*reinterpret_cast<MacAddr*>(&word)`.
unfoldable pub ip_of_word : ℕ → IPv4Addr
ip_of_word w = record {
  b0 = w % 256;
  b1 = w / 256 % 256;
  b2 = w / 65536 % 256;
  b3 = w / 16777216 % 256;
}

unfoldable pub mac_of_word : ℕ → MacAddr
mac_of_word w = record {
  b0 = w % 256;
  b1 = w / 256 % 256;
  b2 = w / 65536 % 256;
  b3 = w / 16777216 % 256;
  b4 = w / 4294967296 % 256;
  b5 = w / 1099511627776 % 256;
}

-- What a `uint8_t` array can hold.
pub record IsMac (m : MacAddr) : Type 0 where
  pub r0 : m.b0 < 256
  pub r1 : m.b1 < 256
  pub r2 : m.b2 < 256
  pub r3 : m.b3 < 256
  pub r4 : m.b4 < 256
  pub r5 : m.b5 < 256

pub record IsIp (a : IPv4Addr) : Type 0 where
  pub r0 : a.b0 < 256
  pub r1 : a.b1 < 256
  pub r2 : a.b2 < 256
  pub r3 : a.b3 < 256
