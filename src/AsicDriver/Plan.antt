-- ===== src/AsicDriver/Plan.antt =====
-- The entries that `ASICDriver::on_st_repo_channels` writes for a channel, in their order.
use mpitofino.Prelude.{
  ℕ, zero, suc, ◌+◌, ◌-◌, ◌*◌, ◌/◌, ◌%◌, Bool, true, false, not, ◌&&◌, List, [], ◌∷◌, ◌++◌, map,
  ltb, ◌==◌, if◌then◌else◌, get_or, set, Result, ok, ◌>>=◌, ◌>>◌, require, runtime_error,
  undefined_behaviour,
}
use mpitofino.Prelude.OrderedMap.{Map}
use mpitofino.SimpleTypes.{ip_word, is_0000}
use mpitofino.StateRepository.{CollectiveChannel, Participant}
use mpitofino.AsicDriver.Tables.{
  Ternary, Key, unit_selector, check_complete, output_address, roce_ack_reflector, choose_action,
  pre_mgid, pre_node, Data, select_agg_unit, check_complete_true, check_complete_next_pipe,
  check_complete_distribute, output_address_set, roce_ack_reflect, agg_int_32_add, agg_int_32_clear,
  multicast_group, multicast_node, all_pipes,
}
use mpitofino.AsicDriver.Bitmaps.{Bitmap, first_bitmap, advance}

-- A call of `table_add_or_mod`.
pub record Write : Type 0 where
  pub pipe : ℕ
  pub key : Key
  pub value : Data

-- No client's request is missing.
unfoldable pub all_nodes_known : Map Participant → Bool
all_nodes_known [] = true
all_nodes_known ((_, part) ∷ ps) = if is_0000 part.ip then false else all_nodes_known ps

abbrev pub mcast_grp : CollectiveChannel → ℕ
mcast_grp rc = (16 + rc.agg_unit) % 65536

pub record GroupPort : Type 0 where
  pub pid : ℕ
  pub port : ℕ
  pub rid : ℕ

-- The recirculation port of a client's port, by its pipe: `sw_port & 0x180` is 128 times the pipe of a
-- port below 512. A client on another pipe is left out, and does not count in `pos`.
unfoldable pub group_ports : CollectiveChannel → ℕ → Map Participant → List GroupPort
group_ports rc pos [] = []
group_ports rc pos ((_, part) ∷ ps) =
    let pid = 4096 + 512 * (rc.agg_unit / 8) + (pos - 1) in
    let next = group_ports rc (pos + 1) ps in
    let same = group_ports rc pos ps in
    if part.switch_port / 128 % 4 == 0
    then record { pid = pid; port = part.switch_port + 128; rid = pos } ∷ next
    else if part.switch_port / 128 % 4 == 3
    then record { pid = pid; port = part.switch_port - 128; rid = pos } ∷ next
    else same

abbrev pub node_write : GroupPort → Write
node_write g = record {
  pipe = all_pipes;
  key = pre_node g.pid;
  value = multicast_node g.rid g.port;
}

abbrev pub pid_of : GroupPort → ℕ
pid_of g = g.pid

abbrev pub zero_of : GroupPort → ℕ
zero_of g = 0

-- The nodes of the channel's multicast group, then the group.
unfoldable pub group_writes : CollectiveChannel → List Write
group_writes rc =
    let ports = group_ports rc 1 rc.participants in
    map node_write ports
    ++ record {
      pipe = all_pipes;
      key = pre_mgid (mcast_grp rc);
      value = multicast_group (map pid_of ports) false (map zero_of ports);
    }
      ∷ []

abbrev pub exact : ℕ → Ternary
exact w = record { value = w; mask = 4294967295 }

abbrev pub any : Ternary
any = record { value = 0; mask = 0 }

-- The pipe through which a client's pipe recirculates.
abbrev pub recirc_pipe : ℕ → ℕ
recirc_pipe pipe = if pipe == 0 then 1 else if pipe == 3 then 2 else all_pipes

-- A client's entries: unit selector, output address, and ACK reflector.
unfoldable pub participant_writes : CollectiveChannel → ℕ → Participant → Bitmap → List Write
participant_writes rc pos part b =
    let pipe = part.switch_port / 128 in
    record {
      pipe = pipe;
      key =
          unit_selector (exact (ip_word part.ip)) (ip_word rc.fabric_ip)
            (record { value = part.fabric_qp; mask = 16777215 }) any;
      value = select_agg_unit rc.agg_unit b.node_low b.node_high;
    }
    ∷ record {
      pipe = recirc_pipe pipe;
      key = output_address rc.agg_unit pos;
      value = output_address_set rc.fabric_mac part.mac rc.fabric_ip part.ip part.local_qp;
    }
    ∷ record {
      pipe = pipe;
      key = roce_ack_reflector (ip_word part.ip) part.fabric_qp;
      value = roce_ack_reflect part.local_qp;
    }
    ∷ []

-- The four bitmaps, by their pipes.
abbrev pub Bitmaps : Type 0
Bitmaps = List Bitmap

abbrev pub bitmap_at : Bitmaps → ℕ → Bitmap
bitmap_at bs pipe = get_or bs pipe first_bitmap

abbrev pub first_bitmaps : Bitmaps
first_bitmaps = first_bitmap ∷ first_bitmap ∷ first_bitmap ∷ first_bitmap ∷ []

abbrev pub advance_at : ℕ → Bitmaps → Bitmaps
advance_at pipe bs = set bs pipe (advance (bitmap_at bs pipe))

abbrev pub has_room : Bitmaps → ℕ → Bool
has_room bs pipe = ltb (bitmap_at bs pipe).full_high (if pipe == 3 then 536870911 else 4294967295)

abbrev pub in_front : List Write → List Write × Bitmaps → List Write × Bitmaps
in_front ws r = (ws ++ r.0, r.1)

-- The loop over the participants. A port of a fifth pipe is an access behind the arrays.
unfoldable pub insert_participants :
    CollectiveChannel → ℕ → Bitmaps → Map Participant → Result (List Write × Bitmaps)
insert_participants rc pos bs [] = ok ([], bs)
insert_participants rc pos bs ((_, part) ∷ ps) =
    let pipe = part.switch_port / 128 in
    require (ltb pipe 4) undefined_behaviour
    >> require (has_room bs pipe) runtime_error
    >> (insert_participants rc (pos + 1) (advance_at pipe bs) ps >>= λ r.
        ok (in_front (participant_writes rc pos part (bitmap_at bs pipe)) r))

abbrev pub has_clients : Bitmaps → ℕ → Bool
has_clients bs pipe = not ((bitmap_at bs pipe).full_low == 0)

-- More than one pipe has clients.
unfoldable pub have_connected_pipes : Bitmaps → Bool
have_connected_pipes bs = ltb 1 (
    (if has_clients bs 0 then 1 else 0)
    + (if has_clients bs 1 then 1 else 0)
    + (if has_clients bs 2 then 1 else 0)
    + (if has_clients bs 3 then 1 else 0))

-- On pipe 3, what comes from a port of another pipe: the fabric's queue pairs of the channel, whatever
-- their low byte and whoever sends.
abbrev pub port_write : CollectiveChannel → ℕ → Bitmaps → Write
port_write rc port bs = record {
  pipe = 3;
  key =
      unit_selector any (ip_word rc.fabric_ip)
        (record { value = rc.fabric_qp_common * 256; mask = 16776960 })
        (record { value = port; mask = 511 });
  value = select_agg_unit rc.agg_unit (bitmap_at bs 3).node_low (bitmap_at bs 3).node_high;
}

-- The loop over the pipes below 3, from `pipe` on. Pipes with clients get a worker's bit on pipe 3.
unfoldable pub downstream_writes : CollectiveChannel → ℕ → ℕ → Bitmaps → List Write × Bitmaps
downstream_writes rc zero pipe bs = ([], bs)
downstream_writes rc (suc left) pipe bs =
    let skip = downstream_writes rc left (pipe + 1) bs in
    let taken = downstream_writes rc left (pipe + 1) (advance_at 3 bs) in
    if has_clients bs pipe then in_front (port_write rc 448 bs ∷ []) taken else skip

-- Both entries of a pipe in `check_complete`: all workers have sent, and the values were cleared.
unfoldable pub complete_writes : CollectiveChannel → Bool → Bitmaps → ℕ → List Write
complete_writes rc connected bs pipe =
    if has_clients bs pipe
    then record {
      pipe = pipe;
      key =
          check_complete rc.agg_unit (exact (bitmap_at bs pipe).full_low)
            (exact (bitmap_at bs pipe).full_high) false;
      value = check_complete_true (pipe * 128 + 68);
    }
      ∷ record {
        pipe = pipe;
        key = check_complete rc.agg_unit any any true;
        value =
            if connected && not (pipe == 3)
            then check_complete_next_pipe (448 + pipe * 4)
            else check_complete_distribute (mcast_grp rc);
      }
      ∷ []
    else []

abbrev pub all_complete_writes : CollectiveChannel → Bool → Bitmaps → List Write
all_complete_writes rc connected bs =
    complete_writes rc connected bs 0
    ++ complete_writes rc connected bs 1
    ++ complete_writes rc connected bs 2
    ++ complete_writes rc connected bs 3

-- The actions of the 32 aggregation stages, from stage `i` on.
unfoldable pub action_writes : CollectiveChannel → ℕ → ℕ → List Write
action_writes rc zero i = []
action_writes rc (suc left) i =
    record { pipe = all_pipes; key = choose_action i rc.agg_unit false; value = agg_int_32_add }
    ∷ record { pipe = all_pipes; key = choose_action i rc.agg_unit true; value = agg_int_32_clear }
    ∷ action_writes rc left (i + 1)

-- What follows the participants: the ports between the pipes if there are several, the entries of
-- `check_complete`, and the actions.
unfoldable pub closing_writes : CollectiveChannel → Bitmaps → List Write
closing_writes rc bs =
    let connected = have_connected_pipes bs in
    let down = if connected then downstream_writes rc 3 0 bs else ([], bs) in
    down.0
    ++ (if connected then port_write rc 452 down.1 ∷ [] else [])
    ++ all_complete_writes rc connected down.1
    ++ action_writes rc 32 0

-- All writes for a channel whose clients are all known.
unfoldable pub channel_writes : CollectiveChannel → Result (List Write)
channel_writes rc = insert_participants rc 1 first_bitmaps rc.participants >>= λ r.
    ok (group_writes rc ++ r.0 ++ closing_writes rc r.1)
