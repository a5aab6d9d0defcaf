-- ===== src/AsicDriver/Tests.antt =====
-- A chip in memory, and a channel with a client on pipe 0 and one on pipe 3.
use mpitofino.Prelude.{
  ℕ, zero, suc, ◌+◌, ◌≡◌, refl, true, false, List, [], ◌∷◌, ◌++◌, err, ◌>>=◌, map, some, ◌∙◌,
  runtime_error, Returns, arith,
}
use mpitofino.Prelude.OrderedMap.{Map}
use mpitofino.SimpleTypes.{MacAddr, is_0000, same_bytes, mac_zero}
use mpitofino.StateRepository.{CollectiveChannel, Participant}
use mpitofino.AsicDriver.Tables.{
  Key, Data, unit_selector, select_agg_unit, switching_table, send, no_action, success, all_pipes,
}
use mpitofino.AsicDriver.Plan.{group_ports, pid_of, all_nodes_known}
use mpitofino.AsicDriver.Workers.{workers, OnSwitch}
use mpitofino.AsicDriver.Programmed.{Fits}
use mpitofino.AsicDriver.Follows.{Follows}
use mpitofino.AsicDriver.Driven.{Driven}
use mpitofino.AsicDriver.Memory.Cursor.{memory_cursor}
use mpitofino.AsicDriver.Refusals.{on_st_repo_channels-runtime_error}
use mpitofino.AsicDriver.Groups.{outer_clients, group_ports-shared_nodes}
use mpitofino.AsicDriver.Learning.{Digest, source_key, eth_switch_learn_cb, eth_switch_idle_cb}
use mpitofino.AsicDriver.Stations.{
  Learnt, Forgotten, eth_switch_learn_cb-Learnt, eth_switch_idle_cb-Forgotten,
  eth_switch_idle_cb-moved,
}
use mpitofino.AsicDriver.Tables.{check_complete, check_complete_true}
use mpitofino.AsicDriver.Iterator.{Cursor, on_st_repo_channels}
use mpitofino.AsicDriver.Row.{Row}
use mpitofino.AsicDriver.Memory.Listing.{look-yes, look-no}
use mpitofino.AsicDriver.Memory.{memory_switch, memory_switch-IsLawful}

abbrev client : ℕ → ℕ → Participant
client id port = record {
  client_id = id;
  ip = record { b0 = 10; b1 = 0; b2 = 0; b3 = id };
  local_qp = 100 + id;
  fabric_qp = 256 + id;
  mac = mac_zero;
  switch_port = port;
}

abbrev channel_of : ℕ → Map Participant → CollectiveChannel
channel_of unit participants = record {
  tag = unit;
  fabric_ip = record { b0 = 10; b1 = 10; b2 = 128; b3 = 1 };
  fabric_qp_common = 1;
  fabric_mac = mac_zero;
  agg_unit = unit;
  participants = participants;
  type = 0;
}

abbrev channel : CollectiveChannel
channel = channel_of 5 ((1, client 1 8) ∷ (2, client 2 400) ∷ [])

channel-Fits : Fits channel
unfolding workers
channel-Fits = record { on_switch = (omega arith, (omega arith, tt)); few = λ q lq. ground arith }

abbrev start : memory_switch.State
start =
    (
      (
        0,
        unit_selector (record { value = 1; mask = 1 }) 2 (record { value = 3; mask = 3 })
            (record { value = 0; mask = 0 }),
      ),
      select_agg_unit 9 1 0,
    )
    ∷ []

-- What an iterator holds before it is set.
abbrev cursor : Cursor memory_switch
cursor = memory_cursor (switching_table mac_zero, send 0)

-- So many clients on port 388, of pipe 3.
abbrev clients_from : ℕ → ℕ → Map Participant
clients_from zero id = []
clients_from (suc n) id = (id, client id 388) ∷ clients_from n (id + 1)

abbrev crowded : CollectiveChannel
crowded = channel_of 6 (clients_from 62 1)

crowded-known : all_nodes_known crowded.participants ≡ true
unfolding all_nodes_known is_0000 same_bytes
crowded-known = refl

clients_from-OnSwitch : (n id : ℕ) → OnSwitch (clients_from n id)
clients_from-OnSwitch zero id = tt
clients_from-OnSwitch (suc n) id = (omega arith, clients_from-OnSwitch n (id + 1))

crowded-workers : workers 3 crowded.participants ≡ 62
unfolding workers
crowded-workers = refl

on_st_repo_channels-runtime_error_example :
    on_st_repo_channels memory_switch cursor ((channel ∷ []) ++ crowded ∷ channel ∷ []) start
    ≡ err runtime_error
on_st_repo_channels-runtime_error_example =
    on_st_repo_channels-runtime_error memory_switch cursor memory_switch-IsLawful (channel ∷ [])
      (channel ∷ []) crowded 3 start ((λ known. channel-Fits), tt) crowded-known
      (clients_from-OnSwitch 62 1) (omega arith) (omega (arith, crowded-workers))

abbrev other_channel : CollectiveChannel
other_channel = channel_of 6 ((3, client 3 12) ∷ (4, client 4 16) ∷ [])

group_ports-shared_nodes_example :
    map pid_of (group_ports channel 1 channel.participants)
    ≡ map pid_of (group_ports other_channel 1 other_channel.participants)
unfolding outer_clients
group_ports-shared_nodes_example = group_ports-shared_nodes channel other_channel refl refl

abbrev station : MacAddr
station = record { b0 = 2; b1 = 0; b2 = 0; b3 = 0; b4 = 0; b5 = 7 }

abbrev digests : List Digest
digests = (station, 8) ∷ (mac_zero, 12) ∷ (station, 16) ∷ []

eth_switch_learn_cb-Learnt_example :
    Returns
      (Learnt memory_switch digests start)
      (eth_switch_learn_cb memory_switch digests success start)
eth_switch_learn_cb-Learnt_example =
    eth_switch_learn_cb-Learnt memory_switch memory_switch-IsLawful digests start

abbrev with_station : memory_switch.State
with_station =
    ((all_pipes, source_key (station, 8)), no_action (some 5000))
    ∷ ((all_pipes, switching_table station), send 8)
    ∷ start

with_station-source :
    memory_switch.get with_station all_pipes (source_key (station, 8))
    ≡ some (no_action (some 5000))
with_station-source = look-yes _ _ _ _ refl

with_station-station :
    memory_switch.get with_station all_pipes (switching_table station) ≡ some (send 8)
with_station-station = look-no _ _ _ _ (λ e. cc) ∙ look-yes _ _ _ _ refl

eth_switch_idle_cb-Forgotten_example :
    Returns
      (Forgotten memory_switch (station, 8) with_station)
      (eth_switch_idle_cb memory_switch (station, 8) with_station)
eth_switch_idle_cb-Forgotten_example =
    eth_switch_idle_cb-Forgotten memory_switch memory_switch-IsLawful (station, 8) with_station
      (no_action (some 5000)) (send 8) with_station-source with_station-station

eth_switch_idle_cb-moved_example :
    (eth_switch_learn_cb memory_switch ((station, 8) ∷ (station, 16) ∷ []) success start
      >>= eth_switch_idle_cb memory_switch (station, 8)
      >>= eth_switch_idle_cb memory_switch (station, 16))
    ≡ err runtime_error
eth_switch_idle_cb-moved_example =
    eth_switch_idle_cb-moved memory_switch memory_switch-IsLawful station 8 16 start
      (λ e. omega (arith, e))

abbrev completion : ℕ → Key × Data
completion unit = (
  check_complete unit (record { value = 1; mask = 1 }) (record { value = 0; mask = 0 }) false,
  check_complete_true 68,
)

-- The first and the last are stale.
abbrev row : Row
row = record { live = completion 4 ∷ completion 5 ∷ completion 6 ∷ []; behind_deleted = [] }
