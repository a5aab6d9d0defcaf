-- ===== src/SwitchDaemon/Tests.antt =====
-- An agent with one channel, to which a client connects and hangs up.
use mpitofino.Prelude.{ℕ, true, List, [], ◌∷◌}
use mpitofino.SimpleTypes.{ip_0000, mac_zero}
use mpitofino.StateRepository.{CollectiveChannel, Participant}
use mpitofino.Agent.{Agent, not_readable}
use mpitofino.Agent.Runs.{Event, new_client, client_fd}
use mpitofino.AsicDriver.Tables.{pre_node, register_value}
use mpitofino.AsicDriver.Iterator.{Cursor}
use mpitofino.AsicDriver.Driven.{Driven}
use mpitofino.AsicDriver.Memory.Cursor.{memory_cursor}
use mpitofino.AsicDriver.Memory.{memory_switch}

abbrev participant : ℕ → Participant
participant port = record {
  client_id = port;
  ip = record { b0 = 10; b1 = 0; b2 = 0; b3 = 7 };
  local_qp = 77;
  fabric_qp = 256;
  mac = mac_zero;
  switch_port = port;
}

abbrev channel : CollectiveChannel
channel = record {
  tag = 7;
  fabric_ip = ip_0000;
  fabric_qp_common = 1;
  fabric_mac = mac_zero;
  agg_unit = 3;
  participants = (8, participant 8) ∷ (400, participant 400) ∷ [];
  type = 0;
}

abbrev agent : Agent
agent = record {
  st_repo = record {
    channels = (7, channel) ∷ [];
    next_coll_qp_common = 2;
    subscribers_channels = 100 ∷ [];
    calls = [];
    base_mac_addr = mac_zero;
    collectives_module_ip_addr = ip_0000;
    collectives_module_broadcast_addr = ip_0000;
    control_ip_addr = ip_0000;
  };
  clients = [];
  pending_get_channel_responses = [];
  sent = [];
}

abbrev events : List Event
events = new_client 42 ∷ client_fd 42 true not_readable ∷ []

-- What an iterator holds before it is set.
abbrev cursor : Cursor memory_switch
cursor = memory_cursor (pre_node 0, register_value 0)

-- The same with a client that owns the channel.
abbrev served_agent : Agent
served_agent = record agent { clients = record { ptr = 10; channels = (7, tt) ∷ [] } ∷ [] }
