-- ===== src/PacketProcessor.antt =====
-- projects/mpitofino/sd/packet_processor.h and .cc: the packets that the switch redirects to the
-- control plane. A handler gives the packets that it passes to `sendto`; a packet is its bytes.
pub mod Arp
pub mod Echo
pub mod Discovery
mod Tests
use mpitofino.Prelude.{
  ℕ, zero, suc, ◌+◌, ◌-◌, ◌*◌, ◌/◌, ◌%◌, Bool, true, false, not, ◌&&◌, Option, none, some, List, [],
  ◌∷◌, ◌++◌, length, take, drop, replicate, min, ltb, ◌==◌, if◌then◌else◌, Result, ok, err,
  runtime_error, undefined_behaviour,
}
use mpitofino.SimpleTypes.{MacAddr, IPv4Addr, ip_eq}
use mpitofino.Utils.{internet_checksum}
use mpitofino.StateRepository.{StateRepository, get_collectives_module_mac_addr}
use mpitofino.PacketHeaders.{
  htons, CpOffloadHdr, cp_offload_bytes, EthernetHdr, ethernet_bytes, ethernet_at, ArpHdr,
  arp_bytes, arp_at, Ipv4Hdr, ipv4_bytes, ipv4_at, IcmpHdr, icmp_bytes, icmp_at, UdpHdr, udp_bytes,
  TdpHdr, tdp_bytes,
}

-- A step that needs a checksum; the loop in it always ends, so `none` never comes up.
infixl 5 ◌>>=◌
abbrev pub ◌>>=◌ : {A B : Type 0} → Option A → (A → Option B) → Option B
none >>= next = none
some value >>= next = next value

abbrev pub Packet : Type 0
Packet = List ℕ

-- A pseudo header in front makes the packet an Ethernet II frame for the driver.
abbrev pub send_packet : Packet → Packet
send_packet packet = replicate 12 0 ++ 8 ∷ 0 ∷ packet

-- Port 65535 stands for the switching table of the data plane.
abbrev pub use_switching_table : CpOffloadHdr
use_switching_table = record { port_id = htons 65535 }

unfoldable pub arp_reply : StateRepository → EthernetHdr → ArpHdr → Packet
arp_reply r src_eth_hdr hdr =
    cp_offload_bytes use_switching_table
    ++ ethernet_bytes (record {
      src = get_collectives_module_mac_addr r;
      dst = src_eth_hdr.src;
      type = htons 2054;
    })
    ++ arp_bytes (record {
      hardware_type = htons 1;
      protocol_type = htons 2048;
      hardware_address_length = 6;
      protocol_address_length = 4;
      operation = htons 2;
      sender_hardware_address = get_collectives_module_mac_addr r;
      sender_protocol_address = r.collectives_module_ip_addr;
      target_hardware_address = hdr.sender_hardware_address;
      target_protocol_address = hdr.sender_protocol_address;
    })

unfoldable pub parse_packet_arp : StateRepository → EthernetHdr → List ℕ → List Packet
parse_packet_arp r src_eth_hdr bytes =
    let hdr = arp_at bytes in
    if ltb (length bytes) 28
    then []
    else if htons hdr.operation == 1
        && ip_eq hdr.target_protocol_address r.collectives_module_ip_addr
    then send_packet (arp_reply r src_eth_hdr hdr) ∷ []
    else []

-- The IPv4 header of the packets that the processor makes, before its checksum is known.
abbrev pub ipv4_header : StateRepository → ℕ → ℕ → IPv4Addr → Ipv4Hdr
ipv4_header r protocol size dst = record {
  version_ihl = 69;
  tos = 0;
  total_length = htons size;
  identification = 4660;
  flags_fragment_offset = 0;
  ttl = 16;
  protocol = protocol;
  header_checksum = 0;
  src_addr = r.collectives_module_ip_addr;
  dst_addr = dst;
}

abbrev pub echo_header : IcmpHdr → IcmpHdr
echo_header hdr = record { type = 0; code = 0; checksum = 0; id = hdr.id; seq = hdr.seq }

-- The reply's payload starts at byte 44 of a buffer of 1024 bytes.
unfoldable pub echo_reply :
    StateRepository → EthernetHdr → Ipv4Hdr → IcmpHdr → List ℕ → Option Packet
echo_reply r src_eth_hdr src_ipv4_hdr hdr payload = do
  let echoed = take (min (1024 - 44) (length payload)) payload
  let icmp = echo_header hdr
  let ipv4 = ipv4_header r 1 (28 + length echoed) src_ipv4_hdr.src_addr
  checksum ← internet_checksum (icmp_bytes icmp ++ echoed)
  header_checksum ← internet_checksum (ipv4_bytes ipv4)
  some (
      cp_offload_bytes use_switching_table
      ++ ethernet_bytes (record {
        src = get_collectives_module_mac_addr r;
        dst = src_eth_hdr.src;
        type = htons 2048;
      })
      ++ ipv4_bytes (record ipv4 { header_checksum = header_checksum })
      ++ icmp_bytes (record icmp { checksum = checksum })
      ++ echoed)

abbrev pub sent_alone : Option Packet → Option (List Packet)
sent_alone none = none
sent_alone (some packet) = some (send_packet packet ∷ [])

unfoldable pub parse_packet_ipv4_icmp :
    StateRepository → EthernetHdr → Ipv4Hdr → List ℕ → Option (List Packet)
parse_packet_ipv4_icmp r src_eth_hdr src_ipv4_hdr bytes =
    let hdr = icmp_at bytes in
    if ltb (length bytes) 8
    then some []
    else if hdr.type == 8 && hdr.code == 0
    then sent_alone (echo_reply r src_eth_hdr src_ipv4_hdr hdr (drop 8 bytes))
    else some []

unfoldable pub parse_packet_ipv4 : StateRepository → EthernetHdr → List ℕ → Option (List Packet)
parse_packet_ipv4 r src_eth_hdr bytes =
    let hdr = ipv4_at bytes in
    if ltb (length bytes) 20
    then some []
    else if hdr.protocol == 1
    then parse_packet_ipv4_icmp r src_eth_hdr hdr (drop 20 bytes)
    else some []

unfoldable pub parse_packet : StateRepository → List ℕ → Option (List Packet)
parse_packet r bytes =
    let hdr = ethernet_at bytes in
    if ltb (length bytes) 60
    then some []
    else if htons hdr.type == 2054
    then some (parse_packet_arp r hdr (drop 14 bytes))
    else if htons hdr.type == 2048
    then parse_packet_ipv4 r hdr (drop 14 bytes)
    else some []

-- What `recvfrom` gave: an error, or the interface and the bytes of a packet.
pub data Captured : Type 0 where
  recv_failed : Captured
  captured : ℕ → List ℕ → Captured

-- The size of a failed call is read as a huge one, but the zeroed address belongs to no interface.
unfoldable pub on_com_fd_data :
    StateRepository → ℕ → Bool → Bool → Captured → Result (Option (List Packet))
on_com_fd_data r int_idx hangup readable recv_failed =
    if hangup
    then err runtime_error
    else if readable && int_idx == 0
    then err undefined_behaviour
    else ok (some [])
on_com_fd_data r int_idx hangup readable (captured ifindex bytes) =
    if hangup
    then err runtime_error
    else if not readable
    then ok (some [])
    else if length bytes == 16384
    then ok (some [])
    else if not (ifindex == int_idx)
    then ok (some [])
    else ok (parse_packet r bytes)

abbrev pub broadcast_mac : MacAddr
broadcast_mac = record { b0 = 255; b1 = 255; b2 = 255; b3 = 255; b4 = 255; b5 = 255 }

unfoldable pub discovery_packet : StateRepository → ℕ → Option Packet
discovery_packet r port_id = do
  let tdp = tdp_bytes (record { port = htons port_id; ctrl_ip = r.control_ip_addr })
  let udp = udp_bytes (record {
    src_port = htons 8192;
    dst_port = htons 8192;
    length = htons (8 + length tdp);
    checksum = 0;
  })
  let ipv4 = ipv4_header r 17 (20 + length (udp ++ tdp)) r.collectives_module_broadcast_addr
  header_checksum ← internet_checksum (ipv4_bytes ipv4)
  some (
      cp_offload_bytes (record { port_id = htons port_id })
      ++ ethernet_bytes (record {
        src = get_collectives_module_mac_addr r;
        dst = broadcast_mac;
        type = htons 2048;
      })
      ++ ipv4_bytes (record ipv4 { header_checksum = header_checksum })
      ++ udp
      ++ tdp)

-- The inner loop of the timer's handler: `left` rounds from `j` on.
unfoldable pub port_row : ℕ → ℕ → ℕ → List ℕ
port_row i zero j = []
port_row i (suc left) j = (i * 128 + j * 4) ∷ port_row i left (j + 1)

-- The outer loop takes `i` = 0 and 3.
abbrev pub discovery_ports : List ℕ
discovery_ports = port_row 0 16 0 ++ port_row 3 16 0

unfoldable pub announce : StateRepository → List ℕ → Option (List Packet)
announce r [] = some []
announce r (port_id ∷ ports) = do
  packet ← discovery_packet r port_id
  packets ← announce r ports
  some (send_packet packet ∷ packets)

unfoldable pub on_discovery_protocol_timer : StateRepository → Option (List Packet)
on_discovery_protocol_timer r = announce r discovery_ports
