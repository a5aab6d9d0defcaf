-- ===== src/NodeDaemon/Tests.antt =====
-- A node with two clients of one channel: tests of the handlers, and the theorems at these states.
use mpitofino.Prelude.{
  ℕ, ◌≡◌, refl, sym, true, false, Option, none, some, List, [], ◌∷◌, ◌++◌, drop, Result, ok, err,
  ◌>>=◌, IfReturns, arith, replicate,
}
use mpitofino.Prelude.OrderedMap.{find, contains, place, insert}
use mpitofino.SimpleTypes.{MacAddr, IPv4Addr, ip_0000, mac_zero, is_0000, ip_eq, same_bytes}
use mpitofino.StateRepository.{StateRepository}
use mpitofino.Agent.{NdRequest, get_channel_request, unref_channel_request}
use mpitofino.PacketProcessor.{send_packet}
use mpitofino.PacketProcessor.Discovery.{announcement}
use mpitofino.NodeDaemon.{
  has_client, NodeDaemon, Client, ClientGetChannel, request, end_of_file, on_client_fd,
  on_client_get_channel, on_tdp_fd, find_client, set_client, erase_client, remove_client,
  unref_channels, other_users, send_to_switch, empty_response, response, response_key, on_switch_fd,
  on_client_conn,
}
use mpitofino.UnixSockets.Memory.{Memory, memory_sockets, bound_in, fresh}
use mpitofino.NodeDaemon.ServiceSocket.{
  run_dir, socket_name, runtime_dir, open_service_socket, try_paths, keep_ready, close_kept,
  try_path, replace_file, unlinked, bind_path, listen_on,
}
use mpitofino.NodeDaemon.Startup.{
  Ifaddrs, usable_addr, strlen, c_string, copy_name, query, choose_interface, first_state,
  construct,
}
use mpitofino.NodeDaemon.Runs.{Event, client_conn, client_fd, tdp_fd, step, run}
use mpitofino.NodeDaemon.Answers.{Handled, IsAnswered}
use mpitofino.NodeDaemon.Lifetime.{run-construct-IsTracking, run-construct-IsAnswered}
use mpitofino.NodeDaemon.Tracking.{IsTracking, switch_view, is_used}
use mpitofino.NodeDaemon.Topology.{TdpOutcome, on_tdp_fd-announcement}

abbrev switch_ip : IPv4Addr
switch_ip = record { b0 = 192; b1 = 168; b2 = 0; b3 = 1 }

abbrev client : ℕ → Client
client ptr = record { ptr = ptr; channels = []; pending_get_channel_responses = [] }

abbrev node : NodeDaemon
node = record {
  hpn_node_ip = 33554442;
  hpn_node_mac = mac_zero;
  nearest_switch_ip = switch_ip;
  switch_port = 4;
  connected = true;
  clients = client 10 ∷ client 20 ∷ [];
  to_switch = [];
  to_clients = [];
}

node-IsTracking : IsTracking node
unfolding switch_view is_used contains is_0000 has_client
node-IsTracking = record {
  unique = (refl, (refl, tt));
  view = λ tag. refl;
  linked = λ e. refl;
  used = λ tag e. refl;
}

abbrev ask : ClientGetChannel
ask = record { agg_group_client_ids = 1 ∷ 2 ∷ []; client_id = 1; type = 0; tag = 7; local_qp = 40 }

abbrev messages : Result NodeDaemon → List NdRequest
messages (ok d) = d.to_switch
messages (err e) = []

-- The switch is told only when the last user has left.
last_user_releases :
    messages (
      on_client_fd node 10 0 false (request ask) >>= λ d.
      on_client_fd d 20 0 true (request ask) >>= λ d.
      on_client_fd (record d { to_switch = [] }) 10 0 false end_of_file)
    ≡ unref_channel_request 7 ∷ []
unfolding on_client_fd on_client_get_channel find_client set_client erase_client remove_client
    unref_channels other_users send_to_switch is_0000 find contains insert place
last_user_releases = refl

abbrev lost : NodeDaemon
lost = record node { nearest_switch_ip = ip_0000; connected = false; clients = [] }

lost-IsTracking : IsTracking lost
unfolding switch_view is_used contains is_0000 has_client
lost-IsTracking = record { unique = tt; view = λ tag. refl; linked = λ e. sym e; used = λ tag e. e }

abbrev switch : StateRepository
switch = record {
  channels = [];
  next_coll_qp_common = 0;
  subscribers_channels = [];
  calls = [];
  base_mac_addr = mac_zero;
  collectives_module_ip_addr = ip_0000;
  collectives_module_broadcast_addr = ip_0000;
  control_ip_addr = switch_ip;
}

on_tdp_fd-announcement_example :
    TdpOutcome lost true 384 switch_ip
      (on_tdp_fd lost true (drop 58 (send_packet (announcement switch 384 0))))
on_tdp_fd-announcement_example = on_tdp_fd-announcement lost true switch 384 0 (omega arith)

-- "eth0" in memory that has been set to zero.
abbrev interface : ℕ → Ifaddrs
interface addr = record {
  is_up = true;
  is_loopback = false;
  ifa_addr = some (2, addr);
  ifa_name = 101 ∷ 116 ∷ 104 ∷ 48 ∷ replicate 12 0;
}

abbrev hwaddr : List ℕ → Option MacAddr
hwaddr name = some mac_zero

abbrev sockets : Memory
sockets = record { names = []; open_for = []; forbidden = λ e. false }

abbrev bound_sockets : Memory
bound_sockets = record sockets { names = (17, some 3) ∷ []; open_for = (3, true) ∷ [] }

abbrev interfaces : List Ifaddrs
interfaces = interface 1 ∷ record (interface 3) { is_loopback = true } ∷ []

abbrev started : NodeDaemon
started = first_state (1, mac_zero)

started_lem :
    construct hwaddr memory_sockets (some interfaces) none true sockets
    ≡ ok (started, (run_dir ++ socket_name, 3), bound_sockets)
unfolding construct choose_interface query usable_addr copy_name strlen c_string open_service_socket
    try_paths keep_ready close_kept try_path replace_file unlinked bind_path listen_on runtime_dir
    bound_in fresh
started_lem = refl

abbrev announced : List ℕ
announced = 192 ∷ 168 ∷ 0 ∷ 1 ∷ 0 ∷ 4 ∷ []

-- The latest first.
abbrev asking : List Event
asking = client_fd 10 0 false (request ask) ∷ tdp_fd true announced ∷ client_conn 10 ∷ []

run-construct-IsTracking_example : IfReturns IsTracking (run started asking)
run-construct-IsTracking_example =
    run-construct-IsTracking hwaddr memory_sockets interfaces none true sockets bound_sockets
      started (run_dir ++ socket_name, 3) asking started_lem

abbrev waiting : NodeDaemon
waiting = record started {
  nearest_switch_ip = record { b0 = 0; b1 = 1; b2 = 0; b3 = 4 };
  switch_port = 49320;
  connected = true;
  clients =
      record {
        ptr = 10;
        channels = (7, 40) ∷ [];
        pending_get_channel_responses = (18446744073709551623, empty_response) ∷ [];
      }
      ∷ [];
  to_switch =
      get_channel_request (record {
        agg_group_client_ids = 1 ∷ 2 ∷ [];
        client_id = 1;
        tag = 7;
        type = 0;
        client_qp = 40;
        client_ip = 1;
        client_mac = 0;
        switch_port = 49320;
      })
      ∷ [];
}

waiting_lem : run started asking ≡ ok waiting
unfolding run step on_client_conn on_tdp_fd on_client_fd on_client_get_channel has_client
    find_client set_client send_to_switch insert place contains is_0000 ip_eq same_bytes
waiting_lem = refl

run-construct-IsAnswered_example :
    Handled true
      (IsAnswered asking (response_key 1 7) empty_response waiting)
      (on_switch_fd waiting false (response 1 7 empty_response true))
run-construct-IsAnswered_example =
    run-construct-IsAnswered hwaddr memory_sockets interfaces none true sockets bound_sockets
      started waiting (run_dir ++ socket_name, 3) asking 1 7 empty_response true started_lem
      waiting_lem
