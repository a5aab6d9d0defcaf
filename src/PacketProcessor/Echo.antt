-- ===== src/PacketProcessor/Echo.antt =====
-- ICMP echo requests, and what no packet can make the processor do.
use mpitofino.Prelude.{
  ℕ, ◌+◌, ◌*◌, ◌/◌, ◌%◌, ◌≡◌, ◌<◌, ◌≤◌, refl, ap, zero, suc, Option, none, some, List, [], ◌∷◌,
  ◌++◌, length, length-take, take, drop, min, ge→ltb, arith,
}
use mpitofino.SimpleTypes.{MacAddr, IPv4Addr, mac_bytes, ip_bytes, IsIp}
use mpitofino.Utils.{internet_checksum}
use mpitofino.Utils.Checksum.{AreBytes, Verifies, internet_checksum-Verifies}
use mpitofino.StateRepository.{StateRepository, get_collectives_module_mac_addr}
use mpitofino.PacketHeaders.{
  EthernetHdr, Ipv4Hdr, IcmpHdr, ipv4_bytes, u16_bytes, ethernet_at, ipv4_at, icmp_at,
}
use mpitofino.PacketProcessor.{
  Packet, parse_packet, parse_packet_ipv4, parse_packet_ipv4_icmp, echo_reply, sent_alone,
  send_packet,
}

-- An echo request in an Ethernet frame, octet for octet. The fields that the processor does not look
-- at are those of `ip` and `icmp`.
abbrev pub echo_request : MacAddr → MacAddr → Ipv4Hdr → IcmpHdr → List ℕ → List ℕ
echo_request dst src ip icmp payload =
    mac_bytes dst
    ++ mac_bytes src
    ++ 8 ∷ 0 ∷ ipv4_bytes (record ip { protocol = 1 })
    ++ 8 ∷ 0 ∷ u16_bytes icmp.checksum
    ++ u16_bytes icmp.id
    ++ u16_bytes icmp.seq
    ++ payload

-- An IPv4 header of 20 octets from `own` to `dst`, of protocol ICMP, for a datagram of `size` octets.
abbrev pub answer_header : IPv4Addr → IPv4Addr → ℕ → ℕ → List ℕ
answer_header own dst size checksum =
    69 ∷ 0 ∷ size / 256 ∷ size % 256 ∷ 52 ∷ 18 ∷ 0 ∷ 0 ∷ 16 ∷ 1 ∷ u16_bytes checksum
    ++ ip_bytes own
    ++ ip_bytes dst

-- An echo reply: type 0, code 0.
abbrev pub answer_message : IcmpHdr → List ℕ → ℕ → List ℕ
answer_message icmp payload checksum =
    0 ∷ 0 ∷ u16_bytes checksum ++ u16_bytes icmp.id ++ u16_bytes icmp.seq ++ payload

-- The reply for the switching table, and that both of its checksums are right.
abbrev pub EchoAnswer :
    StateRepository → MacAddr → IPv4Addr → IcmpHdr → List ℕ → Option Packet → Type 0
EchoAnswer r mac ip icmp payload reply =
    (header_checksum : ℕ) × (checksum : ℕ) × (reply
      ≡ some (
          255 ∷ 255 ∷ mac_bytes mac
          ++ mac_bytes (get_collectives_module_mac_addr r)
          ++ 8
            ∷ 0
            ∷ answer_header r.collectives_module_ip_addr ip (28 + length payload) header_checksum
          ++ answer_message icmp payload checksum))
    × (internet_checksum
          (answer_header r.collectives_module_ip_addr ip (28 + length payload) header_checksum)
        ≡ some 0)
    × (internet_checksum (answer_message icmp payload checksum) ≡ some 0)

abbrev pub EchoSent :
    StateRepository → MacAddr → IPv4Addr → IcmpHdr → List ℕ → Option (List Packet) → Type 0
EchoSent r mac ip icmp payload sent =
    (packet : Packet) × (sent ≡ some (send_packet packet ∷ []))
    × EchoAnswer r mac ip icmp payload (some packet)

take-min : {A : Type 0} (n m : ℕ) (xs : List A) → m ≡ min n (length xs) → take m xs ≡ take n xs
take-min zero m xs e = let z : m ≡ 0 = omega arith in rw z refl
take-min (suc n) zero [] e = refl
take-min (suc n) zero (x ∷ xs) e = absurd (omega arith)
take-min (suc n) (suc m) [] e = refl
take-min (suc n) (suc m) (x ∷ xs) e = ap (◌∷◌ x) (take-min n m xs (omega arith))

AreBytes-take : (n : ℕ) (bytes : List ℕ) → AreBytes bytes → AreBytes (take n bytes)
AreBytes-take zero bytes h = tt
AreBytes-take (suc n) [] h = tt
AreBytes-take (suc n) (b ∷ bytes) h = (h.0, AreBytes-take n bytes h.1)

module _ (r : StateRepository) (own : IsIp r.collectives_module_ip_addr) (src_eth_hdr : EthernetHdr)
    (src_ipv4_hdr : Ipv4Hdr) (dst : IsIp src_ipv4_hdr.src_addr) (hdr : IcmpHdr) (i : hdr.id < 65536)
    (q : hdr.seq < 65536) (payload : List ℕ) (bytes : AreBytes payload) where
  abbrev echoed : List ℕ
  echoed = take 980 payload

  echoed_short : length echoed ≤ 980
  echoed_short = omega (arith, length-take 980 payload)

  abbrev size : ℕ
  size = 28 + length echoed

  abbrev header_front : List ℕ
  header_front = 69 ∷ 0 ∷ size / 256 ∷ size % 256 ∷ 52 ∷ 18 ∷ 0 ∷ 0 ∷ 16 ∷ 1 ∷ []

  abbrev header_back : List ℕ
  header_back = ip_bytes r.collectives_module_ip_addr ++ ip_bytes src_ipv4_hdr.src_addr

  header_checked : Verifies header_front header_back
  header_checked =
      internet_checksum-Verifies header_front header_back (omega (arith, echoed_short))
        (omega (arith, own.r0, own.r1, own.r2, own.r3, dst.r0, dst.r1, dst.r2, dst.r3)) refl
        (omega arith)

  abbrev message_back : List ℕ
  message_back = u16_bytes hdr.id ++ u16_bytes hdr.seq ++ echoed

  message_checked : Verifies (0 ∷ 0 ∷ []) message_back
  message_checked =
      internet_checksum-Verifies (0 ∷ 0 ∷ []) message_back (omega arith)
        (omega arith, (omega arith, (omega arith, (omega arith, AreBytes-take 980 payload bytes))))
        refl (omega (arith, echoed_short))

  pub echo_reply-EchoAnswer :
      EchoAnswer r src_eth_hdr.src src_ipv4_hdr.src_addr hdr echoed
        (echo_reply r src_eth_hdr src_ipv4_hdr hdr payload)
  unfolding echo_reply
  echo_reply-EchoAnswer =
      let (hc, he, hl, hv) = header_checked in
      let (c, ce, cl, cv) = message_checked in
      let high : (size % 256 * 256 + size / 256) % 256 ≡ size / 256 = omega (arith, echoed_short) in
      let low : (size % 256 * 256 + size / 256) / 256 ≡ size % 256 = omega (arith, echoed_short) in
      (
        hc,
        c,
        rw (take-min 980 (min 980 (length payload)) payload refl, high, low, ce, he) refl,
        hv,
        cv,
      )

none-some : {A : Type 0} {a : A} → none ≡ some a → ⊥
none-some e = cc

sent_alone-EchoAnswer :
    (r : StateRepository) (mac : MacAddr) (ip : IPv4Addr) (icmp : IcmpHdr) (payload : List ℕ)
    (reply : Option Packet)
    → EchoAnswer r mac ip icmp payload reply
    → EchoSent r mac ip icmp payload (sent_alone reply)
sent_alone-EchoAnswer r mac ip icmp payload none h = absurd (none-some h.2)
sent_alone-EchoAnswer r mac ip icmp payload (some packet) h = (packet, refl, h)

-- An echo request of at least 60 octets, whatever its other fields, gets one reply: to the address and
-- the Ethernet address that it came from, with its identifier, its sequence number and the first 980
-- octets of its payload, the right length in the IPv4 header, and both checksums right. The module's
-- address, the source address and the payload are octets, the identifier and the sequence number are
-- 16 bits wide.
pub parse_packet-echo_request :
    (r : StateRepository) (dst src : MacAddr) (ip : Ipv4Hdr) (icmp : IcmpHdr) (payload : List ℕ)
    → IsIp r.collectives_module_ip_addr
    → IsIp ip.src_addr
    → icmp.id < 65536
    → icmp.seq < 65536
    → AreBytes payload
    → 18 ≤ length payload
    → EchoSent r src ip.src_addr icmp
        (take 980 payload)
        (parse_packet r (echo_request dst src ip icmp payload))
unfolding parse_packet parse_packet_ipv4 parse_packet_ipv4_icmp
parse_packet-echo_request r dst src ip icmp payload own from i q bytes h =
    let frame = echo_request dst src ip icmp payload in
    let id : icmp.id % 256 + icmp.id / 256 * 256 ≡ icmp.id = omega arith in
    let seq : icmp.seq % 256 + icmp.seq / 256 * 256 ≡ icmp.seq = omega arith in
    rw
      (
        ge→ltb (length frame) 60 (omega arith),
        parse_packet_ipv4,
        ge→ltb (length (drop 14 frame)) 20 (omega arith),
        parse_packet_ipv4_icmp,
        ge→ltb (length (drop 34 frame)) 8 (omega arith),
        id,
        seq,
      )
      (sent_alone-EchoAnswer r src ip.src_addr icmp (take 980 payload) _ (
        echo_reply-EchoAnswer r own (ethernet_at frame) (ipv4_at (drop 14 frame)) from
          (record (icmp_at (drop 34 frame)) { id = icmp.id; seq = icmp.seq }) i q payload bytes))
