-- ===== src/PacketProcessor/Tests.antt =====
-- The packet processor of a switch at 10.0.0.1: tests, and the theorems at concrete packets.
use mpitofino.Prelude.{◌≡◌, refl, some, List, [], ◌∷◌, if◌then◌else◌, replicate, take, arith}
use mpitofino.SimpleTypes.{MacAddr, IPv4Addr, mac_zero, IsIp, ip_eq}
use mpitofino.StateRepository.{StateRepository, get_collectives_module_mac_addr}
use mpitofino.Utils.{internet_checksum, sum_words, fold_carries}
use mpitofino.Utils.Checksum.{Complements, word_sum, internet_checksum-Complements}
use mpitofino.PacketHeaders.{Ipv4Hdr, IcmpHdr}
use mpitofino.PacketProcessor.{Packet, parse_packet, on_discovery_protocol_timer}
use mpitofino.PacketProcessor.Arp.{arp_request, arp_answer, parse_packet-arp_request}
use mpitofino.PacketProcessor.Echo.{echo_request, EchoSent, parse_packet-echo_request}
use mpitofino.PacketProcessor.Discovery.{
  AreAnnouncements, ports_of_switch, on_discovery_protocol_timer-AreAnnouncements,
}

abbrev own_ip : IPv4Addr
own_ip = record { b0 = 10; b1 = 0; b2 = 0; b3 = 1 }

abbrev host_ip : IPv4Addr
host_ip = record { b0 = 10; b1 = 0; b2 = 0; b3 = 2 }

abbrev host_mac : MacAddr
host_mac = record { b0 = 2; b1 = 0; b2 = 0; b3 = 0; b4 = 0; b5 = 9 }

abbrev switch : StateRepository
switch = record {
  channels = [];
  next_coll_qp_common = 0;
  subscribers_channels = [];
  calls = [];
  base_mac_addr = record { b0 = 2; b1 = 0; b2 = 0; b3 = 0; b4 = 0; b5 = 0 };
  collectives_module_ip_addr = own_ip;
  collectives_module_broadcast_addr = record { b0 = 10; b1 = 0; b2 = 0; b3 = 255 };
  control_ip_addr = record { b0 = 192; b1 = 168; b2 = 0; b3 = 1 };
}

own_ip-IsIp : IsIp own_ip
own_ip-IsIp = omega arith

host_ip-IsIp : IsIp host_ip
host_ip-IsIp = omega arith

broadcast-IsIp : IsIp switch.collectives_module_broadcast_addr
broadcast-IsIp = omega arith

-- The example of RFC 1071.
rfc_1071 : internet_checksum (0 ∷ 1 ∷ 242 ∷ 3 ∷ 244 ∷ 245 ∷ 246 ∷ 247 ∷ []) ≡ some 3362
unfolding internet_checksum sum_words fold_carries
rfc_1071 = refl

internet_checksum-Complements_example :
    Complements (word_sum (1 ∷ 2 ∷ 3 ∷ [])) (internet_checksum (1 ∷ 2 ∷ 3 ∷ []))
internet_checksum-Complements_example =
    internet_checksum-Complements (1 ∷ 2 ∷ 3 ∷ []) (omega arith) (omega arith)

parse_packet-arp_request_example :
    parse_packet switch (arp_request host_mac host_ip own_ip (replicate 18 0))
    ≡ some (
        if ip_eq own_ip own_ip
        then arp_answer (get_collectives_module_mac_addr switch) own_ip host_mac host_ip ∷ []
        else [])
parse_packet-arp_request_example =
    parse_packet-arp_request switch host_mac host_ip own_ip (replicate 18 0) (omega arith)

abbrev ping_ip : Ipv4Hdr
ping_ip = record {
  version_ihl = 69;
  tos = 0;
  total_length = 12288;
  identification = 7;
  flags_fragment_offset = 64;
  ttl = 64;
  protocol = 1;
  header_checksum = 0;
  src_addr = host_ip;
  dst_addr = own_ip;
}

abbrev ping : IcmpHdr
ping = record { type = 8; code = 0; checksum = 0; id = 500; seq = 256 }

parse_packet-echo_request_example :
    EchoSent switch host_mac host_ip ping
      (take 980 (replicate 20 5))
      (parse_packet switch (echo_request mac_zero host_mac ping_ip ping (replicate 20 5)))
parse_packet-echo_request_example =
    parse_packet-echo_request switch mac_zero host_mac ping_ip ping (replicate 20 5) own_ip-IsIp
      host_ip-IsIp (omega arith) (omega arith) (omega arith) (omega arith)

on_discovery_protocol_timer-AreAnnouncements_example :
    (packets : List Packet) × (on_discovery_protocol_timer switch ≡ some packets)
    × AreAnnouncements switch ports_of_switch packets
on_discovery_protocol_timer-AreAnnouncements_example =
    on_discovery_protocol_timer-AreAnnouncements switch own_ip-IsIp broadcast-IsIp
