-- ===== src/StateRepository/Tests.antt =====
-- The repository with one channel of one participant.
use mpitofino.Prelude.{
  ◌≡◌, refl, false, true, ◌⊎◌, [], ◌∷◌, none, some, err, invalid_argument, ok, Returns, arith,
}
use mpitofino.Prelude.OrderedMap.{find, contains}
use mpitofino.SimpleTypes.{ip_0000, mac_zero, ip_of_word, mac_of_word}
use mpitofino.SimpleTypes.IpText.{
  ip_of_string, ip_of_groups, match_ip, group_then, any_then, digits_at, atoi,
}
use mpitofino.StateRepository.Config.{Config, codes, read_config_file}
use mpitofino.StateRepository.Config.File.{IsConfig, file_of, read_config_file-file_of}
use mpitofino.StateRepository.{
  StateRepository, CollectiveChannel, Participant, add_channel, remove_channel,
  update_channel_participant, get_free_coll_qp_common, get_free_agg_unit, find_free_qp,
  find_free_unit, qp_taken, unit_taken, subscribe_channels, unsubscribe_channels, has_handle,
  erase_handle,
}
use mpitofino.StateRepository.Channels.{IsValid}
use mpitofino.StateRepository.Allocation.{UnitOutcome, get_free_agg_unit-UnitOutcome}
use mpitofino.StateRepository.Updates.{
  Removed, Updated, Added, remove_channel_lem, update_channel_participant_lem, add_channel_lem,
}

abbrev participant : Participant
participant = record {
  client_id = 3;
  ip = ip_0000;
  local_qp = 0;
  fabric_qp = 0;
  mac = mac_zero;
  switch_port = 0;
}

abbrev channel : CollectiveChannel
channel = record {
  tag = 7;
  fabric_ip = ip_0000;
  fabric_qp_common = 65535;
  fabric_mac = mac_zero;
  agg_unit = 0;
  participants = (3, participant) ∷ [];
  type = 0;
}

abbrev repository : StateRepository
repository = record {
  channels = (7, channel) ∷ [];
  next_coll_qp_common = 65535;
  subscribers_channels = 100 ∷ [];
  calls = [];
  base_mac_addr = mac_zero;
  collectives_module_ip_addr = ip_0000;
  collectives_module_broadcast_addr = ip_0000;
  control_ip_addr = ip_0000;
}

repository-IsValid : IsValid repository
repository-IsValid = record {
  consistent = record {
    units = (tt, tt);
    qps = (tt, tt);
    unit_range = (omega arith, tt);
    qp_range = ((omega arith, omega arith), tt);
  };
  keyed = (refl, tt);
  counter = omega arith;
}

-- The counter wraps past 65535, which is taken, to 1.
wraps :
    get_free_coll_qp_common repository ≡ some (record repository { next_coll_qp_common = 2 }, ok 1)
unfolding get_free_coll_qp_common find_free_qp qp_taken
wraps = refl

second_unit : get_free_agg_unit repository ≡ ok 1
unfolding get_free_agg_unit find_free_unit unit_taken
second_unit = refl

unsubscribed : unsubscribe_channels (subscribe_channels repository 200) 200 ≡ ok repository
unfolding unsubscribe_channels subscribe_channels has_handle erase_handle
unsubscribed = refl

get_free_agg_unit-UnitOutcome_example :
    UnitOutcome repository.channels (get_free_agg_unit repository)
get_free_agg_unit-UnitOutcome_example = get_free_agg_unit-UnitOutcome repository

remove_channel_lem_example :
    ((contains 7 repository.channels ≡ false)
      × (remove_channel repository 7 ≡ err invalid_argument))
    ⊎ ((contains 7 repository.channels ≡ true)
        × Returns (Removed repository 7) (remove_channel repository 7))
remove_channel_lem_example = remove_channel_lem repository 7 repository-IsValid

update_channel_participant_lem_example :
    Returns
      (Updated repository 7 3 (ip_of_word 5) 40 (mac_of_word 9) 4 256 channel participant)
      (update_channel_participant repository 7 3 (ip_of_word 5) 40 (mac_of_word 9) 4 256)
unfolding find
update_channel_participant_lem_example =
    update_channel_participant_lem repository 7 3 (ip_of_word 5) 40 (mac_of_word 9) 4 256 channel
      participant repository-IsValid refl refl

add_channel_lem_example :
    ((contains 8 repository.channels ≡ true)
      × (add_channel repository (record channel { tag = 8 }) ≡ err invalid_argument))
    ⊎ ((contains 8 repository.channels ≡ false)
        × Returns
            (Added repository (record channel { tag = 8 }))
            (add_channel repository (record channel { tag = 8 })))
add_channel_lem_example = add_channel_lem repository (record channel { tag = 8 })

abbrev some_config : Config
some_config = record {
  cpu_interface_name = codes "eth0";
  base_mac_addr = record { b0 = 2; b1 = 0; b2 = 0; b3 = 10; b4 = 200; b5 = 255 };
  collectives_module_ip_addr = record { b0 = 10; b1 = 10; b2 = 128; b3 = 1 };
  collectives_module_broadcast_addr = record { b0 = 10; b1 = 10; b2 = 255; b3 = 255 };
  control_ip_addr = record { b0 = 192; b1 = 168; b2 = 1; b3 = 10 };
}

some_config-IsConfig : IsConfig some_config
some_config-IsConfig = record {
  name = record {
    chars = (
      (refl, omega arith),
      ((refl, omega arith), ((refl, omega arith), ((refl, omega arith), tt))),
    );
    some_char = omega arith;
  };
  short = omega arith;
  mac = omega arith;
  module_ip = omega arith;
  broadcast = omega arith;
  control = omega arith;
}

read_config_file-file_of_example :
    (read_config_file (some (file_of some_config)) none some_config ≡ ok some_config)
    × (read_config_file none (some (file_of some_config)) some_config ≡ ok some_config)
read_config_file-file_of_example =
    read_config_file-file_of some_config some_config none some_config-IsConfig

-- A number in the place of a dot.
seven_digits : ip_of_string (codes "1234567") ≡ ok (record { b0 = 1; b1 = 3; b2 = 5; b3 = 7 })
unfolding ip_of_string ip_of_groups match_ip group_then any_then digits_at atoi
seven_digits = refl
