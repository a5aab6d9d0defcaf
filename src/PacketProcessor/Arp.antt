-- ===== src/PacketProcessor/Arp.antt =====
-- ARP requests for the address of the collectives module.
use mpitofino.Prelude.{
  ℕ, ◌≡◌, ◌≤◌, refl, some, List, [], ◌∷◌, ◌++◌, length, drop, ge→ltb, if◌then◌else◌, Bool-cases,
  inl, inr, arith,
}
use mpitofino.SimpleTypes.{MacAddr, IPv4Addr, mac_bytes, ip_bytes, ip_eq}
use mpitofino.StateRepository.{StateRepository, get_collectives_module_mac_addr}
use mpitofino.PacketProcessor.{Packet, parse_packet, parse_packet_arp, arp_reply}

-- A request as a host sends it, octet for octet: broadcast, ethertype 0806, Ethernet and IPv4
-- addresses of 6 and 4 octets, operation 1, and padding to the least size of a frame.
abbrev pub arp_request : MacAddr → IPv4Addr → IPv4Addr → List ℕ → List ℕ
arp_request mac ip target padding =
    255 ∷ 255 ∷ 255 ∷ 255 ∷ 255 ∷ 255 ∷ mac_bytes mac
    ++ 8 ∷ 6 ∷ 0 ∷ 1 ∷ 8 ∷ 0 ∷ 6 ∷ 4 ∷ 0 ∷ 1 ∷ mac_bytes mac
    ++ ip_bytes ip
    ++ 0 ∷ 0 ∷ 0 ∷ 0 ∷ 0 ∷ 0 ∷ ip_bytes target
    ++ padding

-- The answer that the data plane gets: the pseudo header, the port 65535, and an ARP reply (operation
-- 2) from the owner of an address to the host that asked.
abbrev pub arp_answer : MacAddr → IPv4Addr → MacAddr → IPv4Addr → Packet
arp_answer own_mac own_ip mac ip =
    0 ∷ 0 ∷ 0 ∷ 0 ∷ 0 ∷ 0 ∷ 0 ∷ 0 ∷ 0 ∷ 0 ∷ 0 ∷ 0 ∷ 8 ∷ 0 ∷ 255 ∷ 255 ∷ mac_bytes mac
    ++ mac_bytes own_mac
    ++ 8 ∷ 6 ∷ 0 ∷ 1 ∷ 8 ∷ 0 ∷ 6 ∷ 4 ∷ 0 ∷ 2 ∷ mac_bytes own_mac
    ++ ip_bytes own_ip
    ++ mac_bytes mac
    ++ ip_bytes ip

-- A padded ARP request gets one answer, with the addresses of the collectives module, if it asks for
-- the module's address, and none otherwise.
pub parse_packet-arp_request :
    (r : StateRepository) (mac : MacAddr) (ip target : IPv4Addr) (padding : List ℕ)
    → 18 ≤ length padding
    → parse_packet r (arp_request mac ip target padding)
      ≡ some (
          if ip_eq target r.collectives_module_ip_addr
          then arp_answer (get_collectives_module_mac_addr r) r.collectives_module_ip_addr mac ip
            ∷ []
          else [])
unfolding parse_packet parse_packet_arp arp_reply
parse_packet-arp_request r mac ip target padding h =
    let frame = arp_request mac ip target padding in
    rw
      (
        ge→ltb (length frame) 60 (omega arith),
        parse_packet_arp,
        ge→ltb (length (drop 14 frame)) 28 (omega arith),
      )
      (elim (Bool-cases (ip_eq target r.collectives_module_ip_addr)) [
        | inl t ↦ rw t refl
        | inr f ↦ rw f refl
      ])
