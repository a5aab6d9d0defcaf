-- ===== src/AsicDriver/Sync.antt =====
-- `ASICDriver::on_st_repo_channels`: the tables of the chip follow the channels of the repository. A
-- state at which something is thrown is not kept: the daemon ends.
use mpitofino.Prelude.{
  ℕ, zero, suc, ◌+◌, ◌*◌, Bool, false, not, ◌&&◌, ◌||◌, List, [], ◌∷◌, ◌++◌, leb, ◌==◌,
  if◌then◌else◌, Result, ok, ◌>>=◌,
}
use mpitofino.Prelude.OrderedMap.{Map, insert}
use mpitofino.SimpleTypes.{ip_word}
use mpitofino.StateRepository.{CollectiveChannel, Participant}
use mpitofino.AsicDriver.Tables.{
  Key, unit_selector, check_complete, output_address, roce_ack_reflector, choose_action, pre_mgid,
  pre_node, agg_values, state_bitmaps_low, state_bitmaps_high, Data, select_agg_unit,
  multicast_group, register_value, Table, unit_selector_table, check_complete_table,
  output_address_table, roce_ack_reflector_table, choose_action_table, pre_mgid_table,
  pre_node_table, all_pipes, Switch, check_bf_status, table_add_or_mod,
}
use mpitofino.AsicDriver.Plan.{Write, all_nodes_known, mcast_grp, recirc_pipe, channel_writes}

unfoldable pub member : ℕ → List ℕ → Bool
member n [] = false
member n (m ∷ ms) = m == n || member n ms

-- `agg_units_in_use` and `mcast_groups_in_use`.
unfoldable pub units_in_use : List CollectiveChannel → List ℕ
units_in_use [] = []
units_in_use (rc ∷ rcs) =
    let rest = units_in_use rcs in
    if all_nodes_known rc.participants then rc.agg_unit ∷ rest else rest

unfoldable pub groups_in_use : List CollectiveChannel → List ℕ
groups_in_use [] = []
groups_in_use (rc ∷ rcs) =
    let rest = groups_in_use rcs in
    if all_nodes_known rc.participants then mcast_grp rc ∷ rest else rest

-- The search through all participants of all channels.
unfoldable pub has_endpoint : ℕ → ℕ → Map Participant → Bool
has_endpoint ip qp [] = false
has_endpoint ip qp ((_, part) ∷ ps) =
    (ip_word part.ip == ip && part.fabric_qp == qp) || has_endpoint ip qp ps

unfoldable pub keeps_endpoint : ℕ → ℕ → List CollectiveChannel → Bool
keeps_endpoint ip qp [] = false
keeps_endpoint ip qp (rc ∷ rcs) = has_endpoint ip qp rc.participants || keeps_endpoint ip qp rcs

-- Which entries the loops over the tables delete, by the channels and the multicast nodes that the
-- remaining groups use.
unfoldable pub is_stale : List CollectiveChannel → List ℕ → Key → Data → Bool
is_stale rcs nodes (unit_selector _ _ _ _) (select_agg_unit unit _ _) =
    not (member unit (units_in_use rcs))
is_stale rcs nodes (check_complete unit _ _ _) value = not (member unit (units_in_use rcs))
is_stale rcs nodes (output_address unit _) value = not (member unit (units_in_use rcs))
is_stale rcs nodes (roce_ack_reflector ip qp) value = not (keeps_endpoint ip qp rcs)
is_stale rcs nodes (choose_action _ unit _) value = not (member unit (units_in_use rcs))
is_stale rcs nodes (pre_mgid group) value = leb 16 group && not (member group (groups_in_use rcs))
is_stale rcs nodes (pre_node node) value = not (member node nodes)
is_stale rcs nodes key value = false

-- `agg_units_to_clear`, a set, from the entries of the unit selector that are deleted.
unfoldable pub collect_units :
    List CollectiveChannel → List (Key × Data) → Map (Unit {0}) → Map (Unit {0})
collect_units rcs [] units = units
collect_units rcs ((unit_selector _ _ _ _, select_agg_unit unit _ _) ∷ es) units =
    collect_units rcs es (if member unit (units_in_use rcs) then units else insert unit tt units)
collect_units rcs (e ∷ es) units = collect_units rcs es units

abbrev pub nodes_of : Data → List ℕ
nodes_of (multicast_group nodes _ _) = nodes
nodes_of value = []

-- `mcast_nodes_in_use`: the nodes of the groups that are not deleted.
unfoldable pub collect_nodes : List CollectiveChannel → List (Key × Data) → List ℕ
collect_nodes rcs [] = []
collect_nodes rcs ((key, value) ∷ es) =
    let rest = collect_nodes rcs es in
    if is_stale rcs [] key value then rest else nodes_of value ++ rest

module _ (S : Switch) where
  unfoldable pub write_entries : List Write → S.State → Result S.State
  write_entries [] s = ok s
  write_entries (w ∷ ws) s =
      check_bf_status (table_add_or_mod S s w.pipe w.key w.value) >>= write_entries ws

  unfoldable pub program_channels : List CollectiveChannel → S.State → Result S.State
  program_channels [] s = ok s
  program_channels (rc ∷ rcs) s =
      (if all_nodes_known rc.participants
        then (channel_writes rc >>= λ ws. write_entries ws s)
        else ok s)
      >>= program_channels rcs

  -- One loop over a list of entries that deletes the stale ones.
  unfoldable pub delete_stale :
      List CollectiveChannel → List ℕ → ℕ → List (Key × Data) → S.State → Result S.State
  delete_stale rcs nodes pipe [] s = ok s
  delete_stale rcs nodes pipe ((key, value) ∷ es) s =
      (if is_stale rcs nodes key value then check_bf_status (S.entry_del s pipe key) else ok s)
      >>= delete_stale rcs nodes pipe es

  abbrev pub clean_table : List CollectiveChannel → List ℕ → ℕ → Table → S.State → Result S.State
  clean_table rcs nodes pipe t s = delete_stale rcs nodes pipe (S.entries s pipe t) s

  abbrev pub Clean : Type 0
  Clean = List CollectiveChannel → List ℕ → ℕ → Table → S.State → Result S.State

  abbrev pub set_register : Key → S.State → Result S.State
  set_register key s = check_bf_status (S.entry_mod s all_pipes key (register_value 0))

  -- The value registers of the stages from `j` on, at index `i`.
  unfoldable pub clear_values : ℕ → ℕ → ℕ → S.State → Result S.State
  clear_values i zero j s = ok s
  clear_values i (suc left) j s = set_register (agg_values j i) s >>= clear_values i left (j + 1)

  -- The registers of the indices from `i` on.
  unfoldable pub clear_indices : ℕ → ℕ → S.State → Result S.State
  clear_indices zero i s = ok s
  clear_indices (suc left) i s =
      clear_values i 32 0 s
      >>= set_register (state_bitmaps_low i)
      >>= set_register (state_bitmaps_high i)
      >>= clear_indices left (i + 1)

  unfoldable pub clear_units : Map (Unit {0}) → S.State → Result S.State
  clear_units [] s = ok s
  clear_units ((unit, _) ∷ units) s = clear_indices 256 (unit * 256) s >>= clear_units units

  -- With `clean` for a loop over a table.
  module _ (clean : Clean) where
    -- One round of the loop over the pipes 0 and 3.
    unfoldable pub clean_pipe : List CollectiveChannel → ℕ → S.State → Result S.State
    clean_pipe rcs pipe s =
        clean rcs [] pipe unit_selector_table s
        >>= clean rcs [] pipe check_complete_table
        >>= clean rcs [] (recirc_pipe pipe) output_address_table
        >>= clean rcs [] pipe roce_ack_reflector_table

    -- The stages from `j` on.
    unfoldable pub clean_actions : List CollectiveChannel → ℕ → ℕ → S.State → Result S.State
    clean_actions rcs zero j s = ok s
    clean_actions rcs (suc left) j s =
        clean rcs [] all_pipes (choose_action_table j) s >>= clean_actions rcs left (j + 1)

    -- The multicast groups, then the nodes that no group has.
    unfoldable pub clean_groups : List CollectiveChannel → S.State → Result S.State
    clean_groups rcs s =
        let nodes = collect_nodes rcs (S.entries s all_pipes pre_mgid_table) in
        clean rcs [] all_pipes pre_mgid_table s >>= clean rcs nodes all_pipes pre_node_table

    -- The deletion of excess channels. The units to clear are found on the way, pipe by pipe.
    unfoldable pub delete_excess : List CollectiveChannel → S.State → Result S.State
    delete_excess rcs s =
        let first = collect_units rcs (S.entries s 0 unit_selector_table) [] in
        clean_pipe rcs 0 s >>= λ s1.
        let units = collect_units rcs (S.entries s1 3 unit_selector_table) first in
        clean_pipe rcs 3 s1 >>= clean_actions rcs 32 0 >>= clean_groups rcs >>= clear_units units

    unfoldable pub follow_channels : List CollectiveChannel → S.State → Result S.State
    follow_channels rcs s = program_channels rcs s >>= delete_excess rcs
