-- ===== src/PacketProcessor/Discovery.antt =====
-- The packets of the topology discovery protocol.
use mpitofino.Prelude.{ℕ, ◌+◌, ◌*◌, ◌/◌, ◌%◌, ◌≡◌, ◌<◌, refl, some, List, [], ◌∷◌, ◌++◌, arith, All}
use mpitofino.SimpleTypes.{mac_bytes, ip_bytes, IsIp}
use mpitofino.Utils.{internet_checksum}
use mpitofino.Utils.Checksum.{Verifies, internet_checksum-Verifies}
use mpitofino.StateRepository.{StateRepository, get_collectives_module_mac_addr}
use mpitofino.PacketHeaders.{u16_bytes}
use mpitofino.PacketProcessor.{
  Packet, discovery_packet, announce, on_discovery_protocol_timer, port_row, send_packet,
}

-- The IPv4 header of an announcement: 34 octets of UDP from the collectives module to the broadcast
-- address.
abbrev pub announcement_header : StateRepository → ℕ → List ℕ
announcement_header r checksum =
    69 ∷ 0 ∷ 0 ∷ 34 ∷ 52 ∷ 18 ∷ 0 ∷ 0 ∷ 16 ∷ 17 ∷ u16_bytes checksum
    ++ ip_bytes r.collectives_module_ip_addr
    ++ ip_bytes r.collectives_module_broadcast_addr

-- The packet that leaves on `port`, octet for octet: broadcast, UDP from port 0x2000 to 0x2000 without
-- a checksum, the number of the port, and the control address of the switch.
abbrev pub announcement : StateRepository → ℕ → ℕ → Packet
announcement r port checksum =
    port / 256
      ∷ port % 256
      ∷ 255
      ∷ 255
      ∷ 255
      ∷ 255
      ∷ 255
      ∷ 255
      ∷ mac_bytes (get_collectives_module_mac_addr r)
    ++ 8 ∷ 0 ∷ announcement_header r checksum
    ++ 32 ∷ 0 ∷ 32 ∷ 0 ∷ 0 ∷ 14 ∷ 0 ∷ 0 ∷ port / 256 ∷ port % 256 ∷ ip_bytes r.control_ip_addr

abbrev pub IsAnnouncement : StateRepository → ℕ → Packet → Type 0
IsAnnouncement r port sent =
    (checksum : ℕ) × (sent ≡ send_packet (announcement r port checksum))
    × (internet_checksum (announcement_header r checksum) ≡ some 0)

-- Every fourth port of the pipes 0 and 3.
abbrev pub ports_of_switch : List ℕ
ports_of_switch =
    0 ∷ 4 ∷ 8 ∷ 12 ∷ 16 ∷ 20 ∷ 24 ∷ 28 ∷ 32 ∷ 36 ∷ 40 ∷ 44 ∷ 48 ∷ 52 ∷ 56 ∷ 60 ∷ 384 ∷ 388 ∷ 392
    ∷ 396 ∷ 400 ∷ 404 ∷ 408 ∷ 412 ∷ 416 ∷ 420 ∷ 424 ∷ 428 ∷ 432 ∷ 436 ∷ 440 ∷ 444 ∷ []

-- One packet for each port, in their order.
abbrev pub AreAnnouncements : StateRepository → List ℕ → List Packet → Type 0
AreAnnouncements r [] [] = Unit
AreAnnouncements r [] (packet ∷ packets) = ⊥
AreAnnouncements r (port ∷ ports) [] = ⊥
AreAnnouncements r (port ∷ ports) (packet ∷ packets) =
    IsAnnouncement r port packet × AreAnnouncements r ports packets

module _ (r : StateRepository) (own : IsIp r.collectives_module_ip_addr)
    (broadcast : IsIp r.collectives_module_broadcast_addr) where
  abbrev header_front : List ℕ
  header_front = 69 ∷ 0 ∷ 0 ∷ 34 ∷ 52 ∷ 18 ∷ 0 ∷ 0 ∷ 16 ∷ 17 ∷ []

  abbrev header_back : List ℕ
  header_back =
      ip_bytes r.collectives_module_ip_addr ++ ip_bytes r.collectives_module_broadcast_addr

  header_checked : Verifies header_front header_back
  header_checked =
      internet_checksum-Verifies header_front header_back (omega arith)
        (omega (
          arith, own.r0, own.r1, own.r2, own.r3, broadcast.r0, broadcast.r1, broadcast.r2,
          broadcast.r3,
        ))
        refl (omega arith)

  discovery_packet_lem :
      (port : ℕ)
      → port < 65536
      → (checksum : ℕ) × (discovery_packet r port ≡ some (announcement r port checksum))
        × (internet_checksum (announcement_header r checksum) ≡ some 0)
  unfolding discovery_packet
  discovery_packet_lem port h =
      let (c, e, l, v) = header_checked in
      let high : (port % 256 * 256 + port / 256) % 256 ≡ port / 256 = omega arith in
      let low : (port % 256 * 256 + port / 256) / 256 ≡ port % 256 = omega arith in
      (c, rw (high, low, e) refl, v)

  announce-AreAnnouncements :
      (ports : List ℕ)
      → All (λ port. port < 65536) ports
      → (packets : List Packet) × (announce r ports ≡ some packets)
        × AreAnnouncements r ports packets
  unfolding announce
  announce-AreAnnouncements [] h = ([], refl, tt)
  announce-AreAnnouncements (port ∷ ports) h =
      let (c, e, v) = discovery_packet_lem port h.0 in
      let (packets, es, rest) = announce-AreAnnouncements ports h.1 in
      (send_packet (announcement r port c) ∷ packets, rw (e, es) refl, ((c, refl, v), rest))

  -- With a module address and a broadcast address of octets, each tick of the timer sends one
  -- announcement for each of the 32 ports 0, 4, ... 60 and 384, 388, ... 444, in this order, with the port's own number, the switch's control address
  -- and a right header checksum.
  pub on_discovery_protocol_timer-AreAnnouncements :
      (packets : List Packet) × (on_discovery_protocol_timer r ≡ some packets)
      × AreAnnouncements r ports_of_switch packets
  unfolding on_discovery_protocol_timer port_row
  on_discovery_protocol_timer-AreAnnouncements =
      announce-AreAnnouncements ports_of_switch (omega arith)
