-- ===== src/NodeDaemon/Topology.antt =====
-- How a node finds its switch, and what it tells the switch of itself.
use mpitofino.Prelude.{
  ℕ, ◌+◌, ◌*◌, ◌/◌, ◌%◌, ◌≡◌, ◌<◌, refl, Bool, true, false, ◌⊎◌, inl, inr, List, length, drop, ◌==◌,
  if◌then◌else◌, Result, ok, err, IfReturns, arith, Bool-cases, runtime_error, system_error,
}
use mpitofino.SimpleTypes.{MacAddr, IPv4Addr, IsMac, ip_eq, is_0000, mac_of_word}
use mpitofino.StateRepository.{StateRepository}
use mpitofino.PacketHeaders.{tdp_at, htons}
use mpitofino.PacketProcessor.{send_packet}
use mpitofino.PacketProcessor.Discovery.{announcement}
use mpitofino.NodeDaemon.{NodeDaemon, on_tdp_fd, mac_word}
use mpitofino.NodeDaemon.Tracking.{IsTracking}

abbrev pub found_switch : NodeDaemon → ℕ → IPv4Addr → NodeDaemon
found_switch d port ip = record d { switch_port = port; nearest_switch_ip = ip; connected = true }

-- What an announcement of `port` by the switch at `ip` leads to.
abbrev pub TdpOutcome : NodeDaemon → Bool → ℕ → IPv4Addr → Result NodeDaemon → Type 0
TdpOutcome d connects port ip result =
    ((ip_eq d.nearest_switch_ip ip ≡ true) × (result ≡ ok d))
    ⊎ (((is_0000 d.nearest_switch_ip ≡ true)
          × (result ≡ (if connects then ok (found_switch d port ip) else err system_error)))
        ⊎ ((ip_eq d.nearest_switch_ip ip ≡ false)
            × (is_0000 d.nearest_switch_ip ≡ false)
            × (result ≡ err runtime_error)))

-- The announcement of a 16-bit port number, as the switch sends it to the node: nothing changes if its
-- switch is the known one. If none is known yet, the node connects to this one and keeps its address
-- and the announced port, or throws if the switch refuses. Another switch than the known one is an
-- error.
pub on_tdp_fd-announcement :
    (d : NodeDaemon) (connects : Bool) (r : StateRepository) (port checksum : ℕ)
    → port < 65536
    → TdpOutcome d connects port r.control_ip_addr
        (on_tdp_fd d connects (drop 58 (send_packet (announcement r port checksum))))
unfolding on_tdp_fd
on_tdp_fd-announcement d connects r port checksum h =
    let value : (port / 256 + port % 256 * 256) % 256 * 256 + (port / 256 + port % 256 * 256) / 256
        ≡ port =
      omega arith in
    elim (Bool-cases (ip_eq d.nearest_switch_ip r.control_ip_addr)) [
      | inl t ↦ inl (t, rw t refl)
      | inr n ↦ elim (Bool-cases (is_0000 d.nearest_switch_ip)) [
        | inl t ↦ inr (inl (t, rw (n, t, value) refl))
        | inr m ↦ inr (inr (n, m, rw (n, m) refl))
      ]
    ]

-- An announcement that throws nothing, whatever its bytes, leaves the node's channels as they are: the
-- switch knows of exactly those that the clients use, if it did before.
pub on_tdp_fd-IsTracking :
    (d : NodeDaemon) (connects : Bool) (bytes : List ℕ)
    → IsTracking d
    → IfReturns IsTracking (on_tdp_fd d connects bytes)
unfolding on_tdp_fd
on_tdp_fd-IsTracking d connects bytes s =
    let ip = (tdp_at bytes).ctrl_ip in
    elim (Bool-cases (length bytes == 6)) [
      | inr n ↦ rw n s
      | inl l ↦ elim (Bool-cases (ip_eq d.nearest_switch_ip ip)) [
        | inl t ↦ rw (l, t) s
        | inr n ↦ elim (Bool-cases (is_0000 d.nearest_switch_ip)) [
          | inr m ↦ rw (l, n, m) tt
          | inl t ↦ rw (l, n, t) (linked connects)
        ]
      ]
    ]
  where
    linked :
        (b : Bool)
        → IfReturns IsTracking (
            if b
            then ok (found_switch d (htons (tdp_at bytes).port) (tdp_at bytes).ctrl_ip)
            else err system_error)
    linked false = tt
    linked true = record {
      unique = s.unique;
      view = s.view;
      linked = λ e. refl;
      used = λ tag e. refl;
    }

-- The switch reads the node's hardware address of six bytes from the 64-bit field of a request, whatever the two
-- bytes hold that the node has not written.
pub mac_of_word-mac_word :
    (m : MacAddr) (padding : ℕ) → IsMac m → mac_of_word (mac_word m padding) ≡ m
unfolding mac_of_word
mac_of_word-mac_word m padding v =
    let w = mac_word m padding in
    let e0 : w % 256 ≡ m.b0 = omega (arith, v.r0) in
    let e1 : w / 256 % 256 ≡ m.b1 = omega (arith, v.r0, v.r1) in
    let e2 : w / 65536 % 256 ≡ m.b2 = omega (arith, v.r0, v.r1, v.r2) in
    let e3 : w / 16777216 % 256 ≡ m.b3 = omega (arith, v.r0, v.r1, v.r2, v.r3) in
    let e4 : w / 4294967296 % 256 ≡ m.b4 = omega (arith, v.r0, v.r1, v.r2, v.r3, v.r4) in
    let e5 : w / 1099511627776 % 256 ≡ m.b5 = omega (arith, v.r0, v.r1, v.r2, v.r3, v.r4, v.r5) in
    rw (e0, e1, e2, e3, e4, e5) refl
