-- ===== src/Agent.antt =====
-- projects/mpitofino/sd/distributed_control_plane_agent.h and .cc: the switch daemon's server for
-- node daemons, which allocates collective channels and frees them.
pub mod Ownership
pub mod Invariant
pub mod Requests
pub mod Responses
pub mod Runs
pub mod Ports
mod Tests
use mpitofino.Prelude.{
  ℕ, zero, suc, ◌+◌, ◌*◌, ◌%◌, ◌≤◌, ◌<◌, ◌≡◌, Bool, true, false, Option, none, some, List, [], ◌∷◌,
  ◌++◌, ltb, ◌==◌, if◌then◌else◌, length, Exception, runtime_error, undefined_behaviour, Result, ok,
  err, ◌>>=◌, ◌>>◌, require, or_throw,
}
use mpitofino.Prelude.OrderedMap.{Map, find, contains, insert, erase, assign}
use mpitofino.SimpleTypes.{
  MacAddr, IPv4Addr, ip_0000, mac_zero, ip_word, ip_of_word, mac_of_word, is_0000,
}
use mpitofino.StateRepository.{
  StateRepository, CollectiveChannel, Participant, get_channel, add_channel, remove_channel,
  update_channel_participant, get_free_coll_qp_common, get_free_agg_unit,
  get_collectives_module_mac_addr,
}

-- `std::set<uint64_t>`
abbrev pub Tags : Type 0
Tags = Map (Unit {0})

-- A client is known by its address, which is what a `Client*` holds.
pub record Client : Type 0 where
  pub ptr : ℕ
  pub channels : Tags

pub record GetChannel : Type 0 where
  pub agg_group_client_ids : List ℕ
  pub client_id : ℕ
  pub tag : ℕ
  pub type : ℕ
  pub client_qp : ℕ
  pub client_ip : ℕ
  pub client_mac : ℕ
  pub switch_port : ℕ

pub record GetChannelResponse : Type 0 where
  pub client_id : ℕ
  pub tag : ℕ
  pub fabric_ip : ℕ
  pub fabric_qp : ℕ

-- `sent` records the responses that were written, each with its client, the latest first.
pub record Agent : Type 0 where
  pub st_repo : StateRepository
  pub clients : List Client
  pub pending_get_channel_responses : Map (List (ℕ × GetChannelResponse))
  pub sent : List (ℕ × GetChannelResponse)

unfoldable pub has_client : ℕ → List Client → Bool
has_client ptr [] = false
has_client ptr (c ∷ cs) = let rest = has_client ptr cs in if c.ptr == ptr then true else rest

unfoldable pub find_client : ℕ → List Client → Option Client
find_client ptr [] = none
find_client ptr (c ∷ cs) = let rest = find_client ptr cs in if c.ptr == ptr then some c else rest

-- A write through a `Client*`.
unfoldable pub set_channels : ℕ → Tags → List Client → List Client
set_channels ptr tags [] = []
set_channels ptr tags (c ∷ cs) =
    let rest = set_channels ptr tags cs in
    if c.ptr == ptr then record c { channels = tags } ∷ cs else c ∷ rest

unfoldable pub erase_client : ℕ → List Client → List Client
erase_client ptr [] = []
erase_client ptr (c ∷ cs) = let rest = erase_client ptr cs in if c.ptr == ptr then cs else c ∷ rest

-- The number of clients that own the channel, as `check_remove_channel` counts them.
unfoldable pub owners : ℕ → List Client → ℕ
owners tag [] = 0
owners tag (c ∷ cs) = (if contains tag c.channels then 1 else 0) + owners tag cs

unfoldable pub check_remove_channel : List Client → ℕ → StateRepository → Result StateRepository
check_remove_channel clients tag r = if owners tag clients == 0 then remove_channel r tag else ok r

unfoldable pub check_remove_channels : List Client → Tags → StateRepository → Result StateRepository
check_remove_channels clients [] r = ok r
check_remove_channels clients ((tag, _) ∷ tags) r =
    check_remove_channel clients tag r >>= check_remove_channels clients tags

-- `cnts.insert({p.ip, 0}).first->second++`, on a `uint8_t`. The key's order is that of its word.
abbrev pub bump_count : ℕ → Map ℕ → Map ℕ
bump_count k cnts =
    let cnts' = insert k 0 cnts in
    elim (find k cnts') [ none ↦ cnts' | some n ↦ assign k ((n + 1) % 256) cnts' ]

unfoldable pub count_ips : Map Participant → Map ℕ → Map ℕ
count_ips [] cnts = cnts
count_ips ((c, p) ∷ m) cnts =
    count_ips m (if is_0000 p.ip then cnts else bump_count (ip_word p.ip) cnts)

-- The low byte of `fabric_qp_common << 8` is zero, so `|` with a `uint8_t` adds it.
unfoldable pub get_next_fabric_qp : CollectiveChannel → IPv4Addr → ℕ
get_next_fabric_qp ch client_ip =
    ch.fabric_qp_common * 256
    + elim (find (ip_word client_ip) (count_ips ch.participants [])) [ none ↦ 0 | some n ↦ n ]

abbrev pub fresh_participant : ℕ → Participant
fresh_participant cid = record {
  client_id = cid;
  ip = ip_0000;
  local_qp = 0;
  fabric_qp = 0;
  mac = mac_zero;
  switch_port = 0;
}

unfoldable pub add_participants : List ℕ → Map Participant → Map Participant
add_participants [] m = m
add_participants (cid ∷ cids) m = add_participants cids (insert cid (fresh_participant cid) m)

abbrev pub new_channel : StateRepository → GetChannel → ℕ → ℕ → CollectiveChannel
new_channel r msg fabric_qp_common agg_unit = record {
  tag = msg.tag;
  fabric_ip = r.collectives_module_ip_addr;
  fabric_qp_common = fabric_qp_common;
  fabric_mac = get_collectives_module_mac_addr r;
  agg_unit = agg_unit;
  participants = add_participants msg.agg_group_client_ids [];
  type = msg.type;
}

-- The allocation of a channel that does not exist yet, from the answer of
-- `get_free_coll_qp_common`. That never runs out of fuel; its branch only closes the case.
unfoldable pub allocate_with :
    GetChannel → Option (StateRepository × Result ℕ) → Result StateRepository
allocate_with msg none = err undefined_behaviour
allocate_with msg (some (r, err e)) = err e
allocate_with msg (some (r, ok fabric_qp_common)) =
    get_free_agg_unit r >>= λ agg_unit. add_channel r (new_channel r msg fabric_qp_common agg_unit)

unfoldable pub allocate_channel : StateRepository → GetChannel → Result StateRepository
allocate_channel r msg = allocate_with msg (get_free_coll_qp_common r)

-- The first part of the handler: the channel, old or new, with the responses that wait for it.
unfoldable pub ensure_channel : Agent → GetChannel → Result Agent
ensure_channel a msg = elim (get_channel a.st_repo msg.tag) [
  | some ch ↦ ok a
  | none ↦ do
    r ← allocate_channel a.st_repo msg
    ok (record a {
      st_repo = r;
      pending_get_channel_responses = erase msg.tag a.pending_get_channel_responses;
    })
]

-- Writing to the socket of a client that is gone is an access through a dangling pointer.
unfoldable pub send_responses :
    List Client
    → List (ℕ × GetChannelResponse)
    → List (ℕ × GetChannelResponse)
    → Result (List (ℕ × GetChannelResponse))
send_responses clients [] sent = ok sent
send_responses clients ((pc, resp) ∷ pm) sent =
    let rest = send_responses clients pm ((pc, resp) ∷ sent) in
    if has_client pc clients then rest else err undefined_behaviour

abbrev pub or_empty : Option (List (ℕ × GetChannelResponse)) → List (ℕ × GetChannelResponse)
or_empty none = []
or_empty (some pm) = pm

unfoldable pub pending_for : ℕ → Map (List (ℕ × GetChannelResponse)) → List (ℕ × GetChannelResponse)
pending_for tag m = or_empty (find tag m)

-- `pm` after `push_back`.
unfoldable pub held_responses :
    Agent → ℕ → CollectiveChannel → GetChannelResponse → List (ℕ × GetChannelResponse)
held_responses a client ch resp =
    pending_for ch.tag a.pending_get_channel_responses ++ (client, resp) ∷ []

-- The last part: the response is held until there is one for each participant.
unfoldable pub hold_response : Agent → ℕ → CollectiveChannel → GetChannelResponse → Result Agent
hold_response a client ch resp =
    let pm = held_responses a client ch resp in
    let held = assign ch.tag pm (insert ch.tag [] a.pending_get_channel_responses) in
    if length pm == length ch.participants
    then (send_responses a.clients pm a.sent >>= λ sent. ok (record a {
      pending_get_channel_responses = erase ch.tag a.pending_get_channel_responses;
      sent = sent;
    }))
    else ok (record a { pending_get_channel_responses = held })

-- The part of `on_client_get_channel` from the client's parameters on, for a client that owns the
-- channel by now.
unfoldable pub answer_get_channel : Agent → ℕ → GetChannel → CollectiveChannel → Result Agent
answer_get_channel a client msg ch = do
  require (ltb msg.switch_port 512) runtime_error
  let client_ip = ip_of_word msg.client_ip
  let fabric_qp = get_next_fabric_qp ch client_ip
  r ←
      update_channel_participant a.st_repo msg.tag msg.client_id client_ip msg.client_qp
        (mac_of_word msg.client_mac) msg.switch_port fabric_qp
  hold_response (record a { st_repo = r }) client ch
      (record {
        client_id = msg.client_id;
        tag = ch.tag;
        fabric_ip = ip_word ch.fabric_ip;
        fabric_qp = fabric_qp;
      })

unfoldable pub on_client_get_channel : Agent → ℕ → GetChannel → Result Agent
on_client_get_channel a client msg = do
  a1 ← ensure_channel a msg
  ch ← or_throw (get_channel a1.st_repo msg.tag) undefined_behaviour
  c ← or_throw (find_client client a1.clients) undefined_behaviour
  answer_get_channel
      (record a1 { clients = set_channels client (insert ch.tag tt c.channels) a1.clients }) client
      msg ch

unfoldable pub on_client_unref_channel : Agent → ℕ → ℕ → Result Agent
on_client_unref_channel a client tag = do
  c ← or_throw (find_client client a.clients) undefined_behaviour
  let clients = set_channels client (erase tag c.channels) a.clients
  (if contains tag c.channels
      then (check_remove_channel clients tag a.st_repo >>= λ r.
          ok (record a { clients = clients; st_repo = r }))
      else ok a)

-- The branch of `on_client_fd` for a connection that has ended. The set of channels is moved out of
-- the client before the owners are counted.
unfoldable pub disconnect : Agent → ℕ → Result Agent
disconnect a client = elim (find_client client a.clients) [
  | none ↦ ok a
  | some c ↦
      let clients = set_channels client [] a.clients in
      check_remove_channels clients c.channels a.st_repo >>= λ r.
      ok (record a { clients = erase_client client clients; st_repo = r })
]

pub data NdRequest : Type 0 where
  get_channel_request : GetChannel → NdRequest
  unref_channel_request : ℕ → NdRequest
  not_set : NdRequest

unfoldable pub on_request : Agent → ℕ → NdRequest → Result Agent
on_request a client (get_channel_request msg) = on_client_get_channel a client msg
on_request a client (unref_channel_request tag) = on_client_unref_channel a client tag
on_request a client not_set = err runtime_error

-- What `recv_protobuf_message_simple_stream` gave, if the socket was readable: a message or the end.
pub data Received : Type 0 where
  not_readable : Received
  end_of_stream : Received
  message : NdRequest → Received

unfoldable pub on_client_fd : Agent → ℕ → Bool → Received → Result Agent
on_client_fd a client hangup not_readable = if hangup then disconnect a client else ok a
on_client_fd a client hangup end_of_stream = disconnect a client
on_client_fd a client hangup (message msg) =
    on_request a client msg >>= λ b. if hangup then disconnect b client else ok b

-- `accept4` and the new element of `clients`, at an address that no other client has.
unfoldable pub on_new_client : Agent → ℕ → Agent
on_new_client a ptr = record a { clients = a.clients ++ record { ptr = ptr; channels = [] } ∷ [] }
