-- ===== src/PacketHeaders.antt =====
-- projects/mpitofino/sd/packet_headers.h and common/packet_headers.h: the packed headers, each with its
-- bytes in memory and the header that a pointer to bytes is read as. The hosts are little-endian.
use mpitofino.Prelude.{ℕ, ◌+◌, ◌*◌, ◌/◌, ◌%◌, List, [], ◌∷◌, ◌++◌, get_or}
use mpitofino.SimpleTypes.{MacAddr, IPv4Addr, mac_bytes, ip_bytes}

-- `htons` and `ntohs`, on a 16-bit word.
abbrev pub htons : ℕ → ℕ
htons w = w % 256 * 256 + w / 256

abbrev pub u16_bytes : ℕ → List ℕ
u16_bytes w = w % 256 ∷ w / 256 ∷ []

abbrev pub byte_at : List ℕ → ℕ → ℕ
byte_at bytes i = get_or bytes i 0

abbrev pub u16_at : List ℕ → ℕ → ℕ
u16_at bytes i = byte_at bytes i + byte_at bytes (i + 1) * 256

abbrev pub mac_at : List ℕ → ℕ → MacAddr
mac_at bytes i = record {
  b0 = byte_at bytes i;
  b1 = byte_at bytes (i + 1);
  b2 = byte_at bytes (i + 2);
  b3 = byte_at bytes (i + 3);
  b4 = byte_at bytes (i + 4);
  b5 = byte_at bytes (i + 5);
}

abbrev pub ip_at : List ℕ → ℕ → IPv4Addr
ip_at bytes i = record {
  b0 = byte_at bytes i;
  b1 = byte_at bytes (i + 1);
  b2 = byte_at bytes (i + 2);
  b3 = byte_at bytes (i + 3);
}

-- `CPOffloadHdr`, which tells the data plane the port on which a packet leaves.
pub record CpOffloadHdr : Type 0 where
  pub port_id : ℕ

abbrev pub cp_offload_bytes : CpOffloadHdr → List ℕ
cp_offload_bytes h = u16_bytes h.port_id

pub record EthernetHdr : Type 0 where
  pub dst : MacAddr
  pub src : MacAddr
  pub type : ℕ

abbrev pub ethernet_bytes : EthernetHdr → List ℕ
ethernet_bytes h = mac_bytes h.dst ++ mac_bytes h.src ++ u16_bytes h.type

abbrev pub ethernet_at : List ℕ → EthernetHdr
ethernet_at bytes = record { dst = mac_at bytes 0; src = mac_at bytes 6; type = u16_at bytes 12 }

pub record ArpHdr : Type 0 where
  pub hardware_type : ℕ
  pub protocol_type : ℕ
  pub hardware_address_length : ℕ
  pub protocol_address_length : ℕ
  pub operation : ℕ
  pub sender_hardware_address : MacAddr
  pub sender_protocol_address : IPv4Addr
  pub target_hardware_address : MacAddr
  pub target_protocol_address : IPv4Addr

abbrev pub arp_bytes : ArpHdr → List ℕ
arp_bytes h =
    u16_bytes h.hardware_type
    ++ u16_bytes h.protocol_type
    ++ h.hardware_address_length ∷ h.protocol_address_length ∷ u16_bytes h.operation
    ++ mac_bytes h.sender_hardware_address
    ++ ip_bytes h.sender_protocol_address
    ++ mac_bytes h.target_hardware_address
    ++ ip_bytes h.target_protocol_address

abbrev pub arp_at : List ℕ → ArpHdr
arp_at bytes = record {
  hardware_type = u16_at bytes 0;
  protocol_type = u16_at bytes 2;
  hardware_address_length = byte_at bytes 4;
  protocol_address_length = byte_at bytes 5;
  operation = u16_at bytes 6;
  sender_hardware_address = mac_at bytes 8;
  sender_protocol_address = ip_at bytes 14;
  target_hardware_address = mac_at bytes 18;
  target_protocol_address = ip_at bytes 24;
}

pub record Ipv4Hdr : Type 0 where
  pub version_ihl : ℕ
  pub tos : ℕ
  pub total_length : ℕ
  pub identification : ℕ
  pub flags_fragment_offset : ℕ
  pub ttl : ℕ
  pub protocol : ℕ
  pub header_checksum : ℕ
  pub src_addr : IPv4Addr
  pub dst_addr : IPv4Addr

abbrev pub ipv4_bytes : Ipv4Hdr → List ℕ
ipv4_bytes h =
    h.version_ihl ∷ h.tos ∷ u16_bytes h.total_length
    ++ u16_bytes h.identification
    ++ u16_bytes h.flags_fragment_offset
    ++ h.ttl ∷ h.protocol ∷ u16_bytes h.header_checksum
    ++ ip_bytes h.src_addr
    ++ ip_bytes h.dst_addr

abbrev pub ipv4_at : List ℕ → Ipv4Hdr
ipv4_at bytes = record {
  version_ihl = byte_at bytes 0;
  tos = byte_at bytes 1;
  total_length = u16_at bytes 2;
  identification = u16_at bytes 4;
  flags_fragment_offset = u16_at bytes 6;
  ttl = byte_at bytes 8;
  protocol = byte_at bytes 9;
  header_checksum = u16_at bytes 10;
  src_addr = ip_at bytes 12;
  dst_addr = ip_at bytes 16;
}

pub record IcmpHdr : Type 0 where
  pub type : ℕ
  pub code : ℕ
  pub checksum : ℕ
  pub id : ℕ
  pub seq : ℕ

abbrev pub icmp_bytes : IcmpHdr → List ℕ
icmp_bytes h = h.type ∷ h.code ∷ u16_bytes h.checksum ++ u16_bytes h.id ++ u16_bytes h.seq

abbrev pub icmp_at : List ℕ → IcmpHdr
icmp_at bytes = record {
  type = byte_at bytes 0;
  code = byte_at bytes 1;
  checksum = u16_at bytes 2;
  id = u16_at bytes 4;
  seq = u16_at bytes 6;
}

pub record UdpHdr : Type 0 where
  pub src_port : ℕ
  pub dst_port : ℕ
  pub length : ℕ
  pub checksum : ℕ

abbrev pub udp_bytes : UdpHdr → List ℕ
udp_bytes h =
    u16_bytes h.src_port ++ u16_bytes h.dst_port ++ u16_bytes h.length ++ u16_bytes h.checksum

-- The topology discovery protocol: the port of the switch, and its address on the control network.
pub record TdpHdr : Type 0 where
  pub port : ℕ
  pub ctrl_ip : IPv4Addr

abbrev pub tdp_bytes : TdpHdr → List ℕ
tdp_bytes h = u16_bytes h.port ++ ip_bytes h.ctrl_ip

abbrev pub tdp_at : List ℕ → TdpHdr
tdp_at bytes = record { port = u16_at bytes 0; ctrl_ip = ip_at bytes 2 }
