-- ===== src/SimpleTypes/IpLaws.antt =====
-- IPv4 addresses as 32-bit words.
use mpitofino.Prelude.{ℕ, ◌<◌, ◌^◌, ◌≡◌, ◌↔◌, true, arith}
use mpitofino.SimpleTypes.{IPv4Addr, IsIp, ip_eq, ip_word, ip_of_word, is_0000, ip_0000}

pub ip_eq_iff : (a b : IPv4Addr) → (ip_eq a b ≡ true) ↔ (a ≡ b)
unfolding ip_eq
ip_eq_iff a b = ((λ h. ground arith), (λ e. ground arith))

pub ip_word-ip_of_word : (w : ℕ) → w < 2 ^ 32 → ip_word (ip_of_word w) ≡ w
unfolding ip_of_word
ip_word-ip_of_word w h = omega arith

pub ip_of_word-ip_word : (a : IPv4Addr) → IsIp a → ip_of_word (ip_word a) ≡ a
unfolding ip_of_word
ip_of_word-ip_word a v = ground arith

pub ip_of_word-IsIp : (w : ℕ) → IsIp (ip_of_word w)
unfolding ip_of_word
ip_of_word-IsIp w = omega arith

pub is_0000_iff : (a : IPv4Addr) → (is_0000 a ≡ true) ↔ (a ≡ ip_0000)
unfolding is_0000
is_0000_iff a = ((λ h. ground arith), (λ e. ground arith))
