-- ===== src/StateRepository.antt =====
-- projects/mpitofino/sd/state_repository.h and .cc: the switch daemon's central store of collective
-- channels, from which the other components are notified of changes.
pub mod Allocation
pub mod Channels
pub mod Updates
pub mod Config
mod Tests
use mpitofino.Prelude.{
  ℕ, zero, suc, ◌+◌, ◌-◌, ◌*◌, ◌%◌, ◌≤◌, ◌<◌, ◌≡◌, Bool, true, false, not, ◌&&◌, ◌||◌, Option, none,
  some, List, [], ◌∷◌, ◌++◌, map, ltb, ◌==◌, if◌then◌else◌, Exception, runtime_error,
  invalid_argument, Result, ok, err, ◌>>=◌, ◌>>◌, require, or_throw,
}
use mpitofino.Prelude.OrderedMap.{Map, find, contains, insert, erase, assign, values}
use mpitofino.SimpleTypes.{MacAddr, IPv4Addr, ip_0000, mac_zero, ip_eq, mac_eq, mac_add}

pub record Participant : Type 0 where
  pub client_id : ℕ
  pub ip : IPv4Addr
  pub local_qp : ℕ
  pub fabric_qp : ℕ
  pub mac : MacAddr
  pub switch_port : ℕ

pub record CollectiveChannel : Type 0 where
  pub tag : ℕ
  pub fabric_ip : IPv4Addr
  pub fabric_qp_common : ℕ
  pub fabric_mac : MacAddr
  pub agg_unit : ℕ
  pub participants : Map Participant
  pub type : ℕ

-- A subscriber is known by its handle, the address of its element in the list. `calls` records the
-- handles whose callbacks were run, the latest first.
pub record StateRepository : Type 0 where
  pub channels : Map CollectiveChannel
  pub next_coll_qp_common : ℕ
  pub subscribers_channels : List ℕ
  pub calls : List ℕ
  pub base_mac_addr : MacAddr
  pub collectives_module_ip_addr : IPv4Addr
  pub collectives_module_broadcast_addr : IPv4Addr
  pub control_ip_addr : IPv4Addr

-- `for (auto& s : l) s();`
unfoldable pub run_subscribers : List ℕ → List ℕ → List ℕ
run_subscribers [] log = log
run_subscribers (s ∷ l) log = run_subscribers l (s ∷ log)

abbrev pub notify_subscribers : StateRepository → StateRepository
notify_subscribers r = record r { calls = run_subscribers r.subscribers_channels r.calls }

unfoldable pub get_channel : StateRepository → ℕ → Option CollectiveChannel
get_channel r tag = find tag r.channels

unfoldable pub get_channels : StateRepository → List CollectiveChannel
get_channels r = values r.channels

unfoldable pub add_channel : StateRepository → CollectiveChannel → Result StateRepository
add_channel r channel =
    if contains channel.tag r.channels
    then err invalid_argument
    else ok (notify_subscribers (record r { channels = insert channel.tag channel r.channels }))

-- The test of `update_channel_participant`: some field is to change.
unfoldable pub participant_differs : Participant → IPv4Addr → ℕ → MacAddr → ℕ → ℕ → Bool
participant_differs p ip local_qp mac switch_port fabric_qp =
    not (ip_eq p.ip ip)
    || (not (p.local_qp == local_qp)
        || (not (mac_eq p.mac mac)
            || (not (p.switch_port == switch_port) || not (p.fabric_qp == fabric_qp))))

abbrev pub with_participant : CollectiveChannel → ℕ → Participant → CollectiveChannel
with_participant c client_id p = record c { participants = assign client_id p c.participants }

unfoldable pub update_channel_participant :
    StateRepository → ℕ → ℕ → IPv4Addr → ℕ → MacAddr → ℕ → ℕ → Result StateRepository
update_channel_participant r tag client_id ip local_qp mac switch_port fabric_qp = do
  c ← or_throw (find tag r.channels) invalid_argument
  p ← or_throw (find client_id c.participants) invalid_argument
  let p' = record p {
    ip = ip;
    local_qp = local_qp;
    mac = mac;
    switch_port = switch_port;
    fabric_qp = fabric_qp;
  }
  let c' = with_participant c client_id p'
  ok (
      if participant_differs p ip local_qp mac switch_port fabric_qp
      then notify_subscribers (record r { channels = assign tag c' r.channels })
      else r)

unfoldable pub remove_channel : StateRepository → ℕ → Result StateRepository
remove_channel r tag =
    if contains tag r.channels
    then ok (notify_subscribers (record r { channels = erase tag r.channels }))
    else err invalid_argument

-- Some channel has the number already.
unfoldable pub qp_taken : ℕ → Map CollectiveChannel → Bool
qp_taken qp [] = false
qp_taken qp ((t, c) ∷ m) = c.fabric_qp_common == qp || qp_taken qp m

unfoldable pub unit_taken : ℕ → Map CollectiveChannel → Bool
unit_taken unit [] = false
unit_taken unit ((t, c) ∷ m) = c.agg_unit == unit || unit_taken unit m

-- The loop of `get_free_coll_qp_common`, over `next_coll_qp_common` (a `uint16_t`, so it is never
-- above 0xffff and its increment wraps) and `cnt_wraps`. The result is the counter's last value
-- with the outcome; `none` means that the fuel ran out.
unfoldable pub find_free_qp : Map CollectiveChannel → ℕ → ℕ → ℕ → Option (ℕ × Result ℕ)
find_free_qp channels zero next cnt_wraps = none
find_free_qp channels (suc fuel) next cnt_wraps =
    let wrapped = ltb next 1 in
    let qp = if wrapped then 1 else next in
    let cnt = if wrapped then cnt_wraps + 1 else cnt_wraps in
    let next' = (qp + 1) % 65536 in
    let rest = find_free_qp channels fuel next' cnt in
    if ltb cnt_wraps 2
    then if qp_taken qp channels then rest else some (next', ok qp)
    else some (next, err runtime_error)

-- Two passes over the 16-bit numbers, and the test that ends them.
abbrev pub qp_fuel : ℕ
qp_fuel = 200000

unfoldable pub get_free_coll_qp_common : StateRepository → Option (StateRepository × Result ℕ)
get_free_coll_qp_common r = elim (find_free_qp r.channels qp_fuel r.next_coll_qp_common 0) [
  | none ↦ none
  | some (next, result) ↦ some (record r { next_coll_qp_common = next }, result)
]

-- The loop of `get_free_agg_unit`, with the rounds left before `unit` reaches 256.
unfoldable pub find_free_unit : Map CollectiveChannel → ℕ → ℕ → Result ℕ
find_free_unit channels zero unit = err runtime_error
find_free_unit channels (suc left) unit =
    let rest = find_free_unit channels left (unit + 1) in
    if unit_taken unit channels then rest else ok unit

unfoldable pub get_free_agg_unit : StateRepository → Result ℕ
get_free_agg_unit r = find_free_unit r.channels 256 0

-- The new element's address comes from the allocator.
unfoldable pub subscribe_channels : StateRepository → ℕ → StateRepository
subscribe_channels r handle = record r {
  subscribers_channels = r.subscribers_channels ++ (handle ∷ []);
}

unfoldable pub erase_handle : ℕ → List ℕ → List ℕ
erase_handle h [] = []
erase_handle h (s ∷ l) = if s == h then l else s ∷ erase_handle h l

unfoldable pub has_handle : ℕ → List ℕ → Bool
has_handle h [] = false
has_handle h (s ∷ l) = s == h || has_handle h l

unfoldable pub unsubscribe_channels : StateRepository → ℕ → Result StateRepository
unsubscribe_channels r handle =
    if has_handle handle r.subscribers_channels
    then ok (record r { subscribers_channels = erase_handle handle r.subscribers_channels })
    else err invalid_argument

unfoldable pub get_collectives_module_mac_addr : StateRepository → MacAddr
get_collectives_module_mac_addr r = mac_add r.base_mac_addr 1024
