-- ===== src/Agent/Tests.antt =====
-- The agent on a switch with two client processes: tests of the handlers, and the theorems at the
-- states that they lead to.
use mpitofino.Prelude.{
  inr, ℕ, ◌≡◌, refl, false, List, [], ◌∷◌, Result, ok, err, Returns, IfReturns, undefined_behaviour,
  arith, length,
}
use mpitofino.Prelude.OrderedMap.{find, contains, place, insert, erase, assign}
use mpitofino.SimpleTypes.{ip_0000, mac_zero, is_0000, ip_eq, mac_eq, ip_of_word, mac_of_word}
use mpitofino.StateRepository.{
  StateRepository, CollectiveChannel, get_channel, add_channel, update_channel_participant,
  participant_differs, get_free_coll_qp_common, get_free_agg_unit, find_free_qp, find_free_unit,
  qp_taken, unit_taken, run_subscribers,
}
use mpitofino.Agent.{
  Agent, Client, GetChannel, GetChannelResponse, get_channel_request, message,
  on_client_get_channel, on_client_unref_channel, disconnect, check_remove_channels,
  check_remove_channel, on_client_fd, on_request, on_new_client, ensure_channel, allocate_channel,
  allocate_with, add_participants, answer_get_channel, hold_response, held_responses, pending_for,
  send_responses, has_client, find_client, set_channels, erase_client, owners, count_ips,
  get_next_fabric_qp, end_of_stream,
}
use mpitofino.Agent.Runs.{
  Event, new_client, client_fd, run, step, initial, run-IsSound, initial-IsSound,
}
use mpitofino.Agent.Invariant.{IsSound, on_client_unref_channel-IsSound, disconnect-IsSound}
use mpitofino.Agent.Responses.{HoldOutcome, hold_response_lem}

abbrev repository : StateRepository
repository = record {
  channels = [];
  next_coll_qp_common = 0;
  subscribers_channels = 100 ∷ [];
  calls = [];
  base_mac_addr = mac_zero;
  collectives_module_ip_addr = ip_of_word 16777226;
  collectives_module_broadcast_addr = ip_0000;
  control_ip_addr = ip_0000;
}

abbrev ask : ℕ → ℕ → GetChannel
ask client_id port = record {
  agg_group_client_ids = 1 ∷ 2 ∷ [];
  client_id = client_id;
  tag = 7;
  type = 0;
  client_qp = 40;
  client_ip = 33554442;
  client_mac = 5;
  switch_port = port;
}

abbrev events : List Event
events =
    new_client 10
    ∷ new_client 20
    ∷ client_fd 10 false (message (get_channel_request (ask 1 0)))
    ∷ client_fd 20 false (message (get_channel_request (ask 2 4)))
    ∷ []

abbrev start : Agent
start = initial repository

start-IsSound : IsSound start
start-IsSound = initial-IsSound repository refl refl

abbrev sent_count : Result Agent → ℕ
sent_count (ok a) = length a.sent
sent_count (err e) = 99

both_answered : sent_count (run start events) ≡ 2
unfolding run step on_client_fd on_request on_new_client on_client_get_channel ensure_channel
    allocate_channel allocate_with answer_get_channel hold_response held_responses pending_for
    send_responses has_client find_client set_channels add_participants count_ips get_next_fabric_qp
    find contains place insert erase assign get_channel add_channel update_channel_participant
    participant_differs get_free_coll_qp_common get_free_agg_unit find_free_qp find_free_unit
    qp_taken unit_taken run_subscribers ip_eq mac_eq is_0000 ip_of_word mac_of_word
both_answered = refl

run-IsSound_example : IfReturns IsSound (run start events)
run-IsSound_example = run-IsSound start events start-IsSound

-- One channel that one client owns.
abbrev channel : CollectiveChannel
channel = record {
  tag = 7;
  fabric_ip = ip_0000;
  fabric_qp_common = 1;
  fabric_mac = mac_zero;
  agg_unit = 0;
  participants = [];
  type = 0;
}

abbrev owner : Client
owner = record { ptr = 10; channels = (7, tt) ∷ [] }

abbrev busy : Agent
busy = record {
  st_repo = record repository { channels = (7, channel) ∷ [] };
  clients = owner ∷ [];
  pending_get_channel_responses = [];
  sent = [];
}

busy-IsSound : IsSound busy
unfolding owners contains
busy-IsSound = record {
  valid = record {
    consistent = record {
      units = (tt, tt);
      qps = (tt, tt);
      unit_range = (omega arith, tt);
      qp_range = ((omega arith, omega arith), tt);
    };
    keyed = (refl, tt);
    counter = omega arith;
  };
  owned = λ j. ground arith;
  unique = ((refl, tt), tt);
}

on_client_unref_channel-IsSound_example : Returns IsSound (on_client_unref_channel busy 10 7)
unfolding find_client
on_client_unref_channel-IsSound_example =
    on_client_unref_channel-IsSound busy 10 7 owner busy-IsSound refl

disconnect-IsSound_example : Returns IsSound (disconnect busy 10)
disconnect-IsSound_example = disconnect-IsSound busy 10 busy-IsSound

abbrev response : GetChannelResponse
response = record { client_id = 1; tag = 7; fabric_ip = 0; fabric_qp = 256 }

-- The channel of two participants, one of which has asked and gone.
abbrev pair : CollectiveChannel
pair = record channel { participants = add_participants (1 ∷ 2 ∷ []) [] }

hold_response_lem_example : HoldOutcome busy 10 pair response ((10, response) ∷ [])
unfolding find
hold_response_lem_example = hold_response_lem busy 10 pair response [] (inr (refl, refl))

-- Three participants, one of which disconnects after its request: the last one's request makes the
-- agent answer through the address of the client that is gone.
abbrev ask_of_three : ℕ → ℕ → GetChannel
ask_of_three client_id port = record (ask client_id port) { agg_group_client_ids = 1 ∷ 2 ∷ 3 ∷ [] }

abbrev events_with_loss : List Event
events_with_loss =
    new_client 10
    ∷ new_client 20
    ∷ new_client 30
    ∷ client_fd 10 false (message (get_channel_request (ask_of_three 1 0)))
    ∷ client_fd 20 false (message (get_channel_request (ask_of_three 2 4)))
    ∷ client_fd 10 false end_of_stream
    ∷ client_fd 30 false (message (get_channel_request (ask_of_three 3 8)))
    ∷ []

dangling : run start events_with_loss ≡ err undefined_behaviour
unfolding run step on_client_fd on_request on_new_client on_client_get_channel ensure_channel
    allocate_channel allocate_with answer_get_channel hold_response held_responses pending_for
    send_responses has_client find_client set_channels add_participants count_ips get_next_fabric_qp
    find contains place insert erase assign get_channel add_channel update_channel_participant
    participant_differs get_free_coll_qp_common get_free_agg_unit find_free_qp find_free_unit
    qp_taken unit_taken run_subscribers ip_eq mac_eq is_0000 ip_of_word mac_of_word disconnect
    erase_client owners check_remove_channel check_remove_channels
dangling = refl
