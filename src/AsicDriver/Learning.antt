-- ===== src/AsicDriver/Learning.antt =====
-- The Ethernet switch of the driver: `eth_switch_learn_cb`, `eth_switch_idle_cb`,
-- `update_switching_table` and the entries of `initial_setup`.
use mpitofino.Prelude.{
  ℕ, zero, suc, ◌+◌, ◌*◌, true, none, some, List, [], ◌∷◌, ◌++◌, map, Result, ok, ◌>>=◌, bit_or,
}
use mpitofino.SimpleTypes.{MacAddr, mac_zero}
use mpitofino.AsicDriver.Tables.{
  Key, switching_table, switching_table_src, pre_node, pre_mgid, Data, send, bcast, collective,
  no_action, multicast_node, multicast_group, Switch, Status, check_bf_status, all_pipes,
}
use mpitofino.AsicDriver.Plan.{Write}
use mpitofino.AsicDriver.Sync.{write_entries}

-- What the chip reports of a frame: the source address, and the port it came in at.
abbrev pub Digest : Type 0
Digest = MacAddr × ℕ

abbrev pub mac_ones : MacAddr
mac_ones = record { b0 = 255; b1 = 255; b2 = 255; b3 = 255; b4 = 255; b5 = 255 }

abbrev pub source_key : Digest → Key
source_key d = switching_table_src d.0 mac_ones (record { value = d.1; mask = 511 })

-- It is idle after 5000 milliseconds.
abbrev pub source_write : Digest → Write
source_write d = record { pipe = all_pipes; key = source_key d; value = no_action (some 5000) }

-- `update_switching_table`, with the action as data.
abbrev pub switching_write : MacAddr → Data → Write
switching_write addr action = record {
  pipe = all_pipes;
  key = switching_table addr;
  value = action;
}

unfoldable pub learn_writes : List Digest → List Write
learn_writes [] = []
learn_writes (d ∷ ds) = source_write d ∷ switching_write d.0 (send d.1) ∷ learn_writes ds

-- `i * 128 + j * 4`, for `j` from 16 - `left` on.
unfoldable pub pipe_ports : ℕ → ℕ → ℕ → List ℕ
pipe_ports i zero j = []
pipe_ports i (suc left) j = (i * 128 + j * 4) ∷ pipe_ports i left (j + 1)

-- The front ports of the pipes 0 and 3.
abbrev pub flood_ports : List ℕ
flood_ports = pipe_ports 0 16 0 ++ pipe_ports 3 16 0

-- The ports to ignore when learning, under a mask, and the module's own address.
abbrev pub ignore_write : ℕ → ℕ → Write
ignore_write port mask = record {
  pipe = all_pipes;
  key = switching_table_src mac_zero mac_zero (record { value = port; mask = mask });
  value = no_action none;
}

unfoldable pub special_writes : MacAddr → List Write
special_writes module_mac =
    switching_write mac_ones bcast
    ∷ switching_write module_mac collective
    ∷ ignore_write 64 511
    ∷ ignore_write 68 511
    ∷ ignore_write 448 511
    ∷ ignore_write 452 511
    ∷ ignore_write 128 384
    ∷ ignore_write 256 384
    ∷ record {
      pipe = all_pipes;
      key = switching_table_src module_mac mac_ones (record { value = 0; mask = 0 });
      value = no_action none;
    }
    ∷ []

module _ (S : Switch) where
  -- `acknowledged` is the status of `bfRtLearnNotifyAck`.
  unfoldable pub eth_switch_learn_cb : List Digest → Status → S.State → Result S.State
  eth_switch_learn_cb ds acknowledged s =
      write_entries S (learn_writes ds) s >>= λ s1. check_bf_status (acknowledged, s1)

  -- A source entry that was not hit for a while, by its key.
  unfoldable pub eth_switch_idle_cb : Digest → S.State → Result S.State
  eth_switch_idle_cb d s = check_bf_status (S.entry_del s all_pipes (source_key d)) >>= λ s1.
      check_bf_status (S.entry_del s1 all_pipes (switching_table d.0))

  -- The nodes of a multicast group, whose numbers are `bits` and the ports.
  unfoldable pub add_nodes : ℕ → List ℕ → S.State → Result S.State
  add_nodes bits [] s = ok s
  add_nodes bits (port ∷ ports) s =
      check_bf_status
        (S.entry_add s all_pipes (pre_node (bit_or port bits)) (multicast_node 1 port))
      >>= add_nodes bits ports

  unfoldable pub add_group : ℕ → ℕ → List ℕ → S.State → Result S.State
  add_group group bits ports s = check_bf_status (
      S.entry_add s all_pipes (pre_mgid group)
        (multicast_group (map (λ p. bit_or p bits) ports) true ports))

  -- Without the registration of the callbacks.
  unfoldable pub initial_setup : MacAddr → S.State → Result S.State
  initial_setup module_mac s =
      add_nodes 0 flood_ports s
      >>= add_group 1 0 flood_ports
      >>= add_nodes 512 (flood_ports ++ 64 ∷ [])
      >>= add_group 2 512 (flood_ports ++ 64 ∷ [])
      >>= write_entries S (special_writes module_mac)
