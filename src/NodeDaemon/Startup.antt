-- ===== src/NodeDaemon/Startup.antt =====
-- projects/mpitofino/nd/node_daemon.cc, the constructor of `NodeDaemon`: the interface of the high
-- performance network, the service socket and the socket for announcements.
use mpitofino.Prelude.{
  ℕ, suc, Bool, false, ◌&&◌, not, Option, none, some, List, [], ◌∷◌, ◌==◌, if◌then◌else◌, take,
  length, ltb, max, Result, ok, err, ◌>>=◌, ◌>>◌, or_throw, require, system_error,
  undefined_behaviour,
}
use mpitofino.SimpleTypes.{MacAddr, mac_zero, ip_0000}
use mpitofino.UnixSockets.{UnixSockets}
use mpitofino.NodeDaemon.{NodeDaemon}
use mpitofino.NodeDaemon.ServiceSocket.{open_service_socket}

-- An element of the list that `getifaddrs` gives: two of its flags, the family and the address, if it has
-- an address, and the memory from its name on.
pub record Ifaddrs : Type 0 where
  pub is_up : Bool
  pub is_loopback : Bool
  pub ifa_addr : Option (ℕ × ℕ)
  pub ifa_name : List ℕ

abbrev pub af_inet : ℕ
af_inet = 2

-- The address of an interface that the loop does not skip.
abbrev pub inet_addr : Option (ℕ × ℕ) → Option ℕ
inet_addr none = none
inet_addr (some (family, addr)) = if family == af_inet then some addr else none

unfoldable pub usable_addr : Ifaddrs → Option ℕ
usable_addr i = if i.is_up && not i.is_loopback then inet_addr i.ifa_addr else none

unfoldable pub strlen : List ℕ → ℕ
strlen [] = 0
strlen (c ∷ cs) = if c == 0 then 0 else suc (strlen cs)

-- The bytes before the first zero.
unfoldable pub c_string : List ℕ → List ℕ
c_string [] = []
c_string (c ∷ cs) = if c == 0 then [] else c ∷ c_string cs

-- `memcpy` of `max(strlen(name), IFNAMSIZ)` bytes to the 16 bytes of `ifr_name`, the last of which is
-- set to 0.
unfoldable pub copy_name : List ℕ → Result (List ℕ)
copy_name name =
    let n = max (strlen name) 16 in
    if ltb (length name) n
    then err undefined_behaviour
    else if ltb 16 n
    then err undefined_behaviour
    else ok (c_string (take 15 name))

-- The members before the first event.
abbrev pub first_state : ℕ × MacAddr → NodeDaemon
first_state hpn = record {
  hpn_node_ip = hpn.0;
  hpn_node_mac = hpn.1;
  nearest_switch_ip = ip_0000;
  switch_port = 0;
  connected = false;
  clients = [];
  to_switch = [];
  to_clients = [];
}

-- `hwaddr` is the ioctl SIOCGIFHWADDR.
module _ (hwaddr : List ℕ → Option MacAddr) where
  unfoldable pub query : List ℕ → Option ℕ → ℕ × MacAddr → Result (ℕ × MacAddr)
  query name none hpn = ok hpn
  query name (some addr) hpn = copy_name name >>= λ ifr_name.
      or_throw (hwaddr ifr_name) system_error >>= λ mac. ok (addr, mac)

  -- The loop over the interfaces: the last one that can be used stays.
  unfoldable pub choose_interface : List Ifaddrs → ℕ × MacAddr → Result (ℕ × MacAddr)
  choose_interface [] hpn = ok hpn
  choose_interface (i ∷ is) hpn =
      query i.ifa_name (usable_addr i) hpn >>= λ hpn'. choose_interface is hpn'

  -- `ifas` is the result of `getifaddrs`, and `tdp_bound` says whether the socket for announcements
  -- could be opened and bound.
  module _ (u : UnixSockets) where
    unfoldable pub construct :
        Option (List Ifaddrs)
        → Option (List ℕ)
        → Bool
        → u.State
        → Result (NodeDaemon × (List ℕ × ℕ) × u.State)
    construct ifas env tdp_bound s = or_throw ifas system_error >>= λ is.
        choose_interface is (0, mac_zero) >>= λ hpn. open_service_socket u env s >>= λ p.
        require tdp_bound system_error >> ok (first_state hpn, p.0, p.1)
