-- ===== src/NodeDaemon.antt =====
-- projects/mpitofino/nd/node_daemon.h and .cc: the daemon of a node, between the MPI processes of the
-- node and the switch. A client is known by its address, as in the switch daemon.
pub mod Tracking
pub mod Requests
pub mod Topology
pub mod ServiceSocket
pub mod Runs
pub mod Delivery
pub mod Answers
pub mod Startup
pub mod Interfaces
pub mod Lifetime
mod Tests
use mpitofino.Prelude.{
  ℕ, zero, suc, ◌+◌, ◌*◌, ◌^◌, ◌%◌, Bool, true, false, Option, none, some, List, [], ◌∷◌, ◌++◌,
  length, ltb, ◌==◌, if◌then◌else◌, Result, ok, err, ◌>>=◌, ◌>>◌, runtime_error, system_error,
  undefined_behaviour, require, or_throw,
}
use mpitofino.Prelude.OrderedMap.{Map, find, contains, insert, assign}
use mpitofino.SimpleTypes.{MacAddr, IPv4Addr, ip_eq, is_0000}
use mpitofino.PacketHeaders.{htons, tdp_at}
use mpitofino.Agent.{GetChannel, NdRequest, get_channel_request, unref_channel_request}

-- The messages of client_lib_nd.proto.
pub record ClientGetChannel : Type 0 where
  pub agg_group_client_ids : List ℕ
  pub client_id : ℕ
  pub type : ℕ
  pub tag : ℕ
  pub local_qp : ℕ

pub record ClientResponse : Type 0 where
  pub fabric_ip : ℕ
  pub fabric_qp : ℕ

-- `channels` maps a tag to the local queue pair.
pub record Client : Type 0 where
  pub ptr : ℕ
  pub channels : Map ℕ
  pub pending_get_channel_responses : Map ClientResponse

-- `to_switch` and `to_clients` record the messages that were sent, the latest first. `connected` says
-- whether `switch_wfd` holds a connection.
pub record NodeDaemon : Type 0 where
  pub hpn_node_ip : ℕ
  pub hpn_node_mac : MacAddr
  pub nearest_switch_ip : IPv4Addr
  pub switch_port : ℕ
  pub connected : Bool
  pub clients : List Client
  pub to_switch : List NdRequest
  pub to_clients : List (ℕ × ClientResponse)

unfoldable pub has_client : ℕ → List Client → Bool
has_client ptr [] = false
has_client ptr (c ∷ cs) = let rest = has_client ptr cs in if c.ptr == ptr then true else rest

unfoldable pub find_client : ℕ → List Client → Option Client
find_client ptr [] = none
find_client ptr (c ∷ cs) = let rest = find_client ptr cs in if c.ptr == ptr then some c else rest

-- A write through a `Client*`.
unfoldable pub set_client : ℕ → Map ℕ → Map ClientResponse → List Client → List Client
set_client ptr chs pending [] = []
set_client ptr chs pending (c ∷ cs) =
    let rest = set_client ptr chs pending cs in
    if c.ptr == ptr
    then record c { channels = chs; pending_get_channel_responses = pending } ∷ cs
    else c ∷ rest

unfoldable pub erase_client : ℕ → List Client → List Client
erase_client ptr [] = []
erase_client ptr (c ∷ cs) = let rest = erase_client ptr cs in if c.ptr == ptr then cs else c ∷ rest

-- A write to `switch_wfd`, which fails on the descriptor -1.
unfoldable pub send_to_switch : NdRequest → NodeDaemon → Result NodeDaemon
send_to_switch msg d =
    if d.connected then ok (record d { to_switch = msg ∷ d.to_switch }) else err system_error

-- The loop over the clients other than `ptr` in the handler of a disconnect.
unfoldable pub other_users : ℕ → ℕ → List Client → ℕ
other_users tag ptr [] = 0
other_users tag ptr (c ∷ cs) =
    let rest = other_users tag ptr cs in
    if c.ptr == ptr then rest else if contains tag c.channels then rest + 1 else rest

unfoldable pub unref_channels : ℕ → Map ℕ → NodeDaemon → Result NodeDaemon
unref_channels ptr [] d = ok d
unref_channels ptr ((tag, _) ∷ chs) d =
    (if other_users tag ptr d.clients == 0
      then send_to_switch (unref_channel_request tag) d
      else ok d)
    >>= unref_channels ptr chs

unfoldable pub remove_client : NodeDaemon → ℕ → Result NodeDaemon
remove_client d ptr = elim (find_client ptr d.clients) [
  | none ↦ ok d
  | some c ↦ unref_channels ptr c.channels d >>= λ d'.
      ok (record d' { clients = erase_client ptr d'.clients })
]

-- `memcpy` of six bytes into a `uint64_t`; `padding` is what the upper two bytes held before.
abbrev pub mac_word : MacAddr → ℕ → ℕ
mac_word m padding =
    m.b0
    + m.b1 * 256
    + m.b2 * 65536
    + m.b3 * 16777216
    + m.b4 * 4294967296
    + m.b5 * 1099511627776
    + padding * 281474976710656

abbrev pub switch_request : NodeDaemon → ℕ → ClientGetChannel → GetChannel
switch_request d padding msg = record {
  agg_group_client_ids = msg.agg_group_client_ids;
  client_id = msg.client_id;
  tag = msg.tag;
  type = msg.type;
  client_qp = msg.local_qp;
  client_ip = d.hpn_node_ip;
  client_mac = mac_word d.hpn_node_mac padding;
  switch_port = d.switch_port;
}

-- A pair of 64-bit numbers as one key, in the order of `std::tuple`.
abbrev pub response_key : ℕ → ℕ → ℕ
response_key client_id tag = client_id * 2 ^ 64 + tag

abbrev pub empty_response : ClientResponse
empty_response = record { fabric_ip = 0; fabric_qp = 0 }

unfoldable pub on_client_get_channel : NodeDaemon → ℕ → ℕ → ClientGetChannel → Result NodeDaemon
on_client_get_channel d ptr padding msg = elim (find_client ptr d.clients) [
  | none ↦ err undefined_behaviour
  | some c ↦
      if is_0000 d.nearest_switch_ip
      then ok d
      else (send_to_switch (get_channel_request (switch_request d padding msg)) d >>= λ d'.
          ok (record d' {
            clients =
                set_client ptr (insert msg.tag msg.local_qp c.channels)
                  (insert (response_key msg.client_id msg.tag) empty_response
                    c.pending_get_channel_responses)
                  d'.clients;
          }))
]

-- What a readable client gave: an empty datagram at the end of the connection, a request, or a datagram
-- that fills the buffer or that protobuf does not parse, for which the reception throws.
pub data ClientReceived : Type 0 where
  not_readable : ClientReceived
  end_of_file : ClientReceived
  malformed : ClientReceived
  request : ClientGetChannel → ClientReceived

unfoldable pub on_client_fd : NodeDaemon → ℕ → ℕ → Bool → ClientReceived → Result NodeDaemon
on_client_fd d ptr padding hangup not_readable = if hangup then remove_client d ptr else ok d
on_client_fd d ptr padding hangup end_of_file = remove_client d ptr
on_client_fd d ptr padding hangup malformed = err runtime_error
on_client_fd d ptr padding hangup (request msg) =
    on_client_get_channel d ptr padding msg >>= λ d'. if hangup then remove_client d' ptr else ok d'

-- `accept4`, with the new element of the list at an address that no other client has.
unfoldable pub on_client_conn : NodeDaemon → ℕ → NodeDaemon
on_client_conn d ptr = record d {
  clients =
      d.clients ++ record { ptr = ptr; channels = []; pending_get_channel_responses = [] } ∷ [];
}

-- `connects` says whether the switch accepts the connection.
unfoldable pub on_tdp_fd : NodeDaemon → Bool → List ℕ → Result NodeDaemon
on_tdp_fd d connects bytes =
    let tdp_hdr = tdp_at bytes in
    if length bytes == 6
    then if ip_eq d.nearest_switch_ip tdp_hdr.ctrl_ip
      then ok d
      else if is_0000 d.nearest_switch_ip
      then if connects
        then ok (record d {
          switch_port = htons tdp_hdr.port;
          nearest_switch_ip = tdp_hdr.ctrl_ip;
          connected = true;
        })
        else err system_error
      else err runtime_error
    else ok d

-- The first client that waits for this response gets it.
unfoldable pub forward_response : ℕ → ClientResponse → List Client → Option Client
forward_response key response [] = none
forward_response key response (c ∷ cs) =
    let rest = forward_response key response cs in
    if contains key c.pending_get_channel_responses
    then some (record c {
      pending_get_channel_responses = assign key response c.pending_get_channel_responses;
    })
    else rest

-- With a response comes whether the client that it is for can still be written to.
pub data SwitchReceived : Type 0 where
  nothing : SwitchReceived
  stream_ended : SwitchReceived
  response : ℕ → ℕ → ClientResponse → Bool → SwitchReceived

abbrev pub deliver : NodeDaemon → ClientResponse → Bool → Option Client → Result NodeDaemon
deliver d resp writable none = ok d
deliver d resp writable (some c) =
    require writable system_error
    >> ok (record d {
      clients = set_client c.ptr c.channels c.pending_get_channel_responses d.clients;
      to_clients = (c.ptr, resp) ∷ d.to_clients;
    })

-- At the end of the stream the handler reads through the null pointer that it received. A connection
-- that hangs up makes `disconnect_from_switch` throw.
unfoldable pub on_switch_fd : NodeDaemon → Bool → SwitchReceived → Result NodeDaemon
on_switch_fd d hangup nothing = if hangup then err runtime_error else ok d
on_switch_fd d hangup stream_ended = err undefined_behaviour
on_switch_fd d hangup (response client_id tag resp writable) =
    deliver d resp writable (forward_response (response_key client_id tag) resp d.clients) >>= λ d'.
    if hangup then err runtime_error else ok d'
