-- ===== src/AsicDriver/Served/Channel.antt =====
-- All writes for one channel, and what they leave at its keys.
use mpitofino.Prelude.{
  ℕ, ◌/◌, ◌≡◌, ◌<◌, refl, sym, ap, ◌∙◌, Bool, true, false, inl, inr, Option, some, List, [], ◌∷◌,
  ◌++◌, map, ok, bind-ok, All, All-append, Bool-cases, arith,
}
use mpitofino.StateRepository.{CollectiveChannel, Participant}
use mpitofino.AsicDriver.Tables.{
  Key, Data, choose_action, pre_mgid, output_address, all_pipes, multicast_group,
}
use mpitofino.AsicDriver.Plan.{
  Write, Bitmaps, first_bitmaps, group_ports, group_writes, mcast_grp, pid_of, zero_of, recirc_pipe,
  insert_participants, have_connected_pipes, port_write, downstream_writes, complete_writes,
  all_complete_writes, action_writes, closing_writes, channel_writes,
}
use mpitofino.AsicDriver.Programmed.{last_written}
use mpitofino.AsicDriver.Served.Named.{
  Named, All-insert_participants, All-downstream_writes, All-complete_writes, All-action_writes,
}
use mpitofino.AsicDriver.Served.Written.{
  last_written-append, last_written-rank, action_of, last_written-action_writes,
  last_written-group_writes,
}
use mpitofino.AsicDriver.Served.Addresses.{HasClient, address_of, last_written-insert_participants}

-- The parts of the writes for a channel: the group, the clients, the selectors of the ports between the
-- pipes, the completions and the actions.
pub record Parts (rc : CollectiveChannel) (ws : List Write) : Type 0 where
  pub clients : List Write × Bitmaps
  pub selectors : List Write
  pub completions : List Write
  pub inserted : insert_participants rc 1 first_bitmaps rc.participants ≡ ok clients
  pub whole :
      ws ≡ group_writes rc ++ clients.0 ++ (selectors ++ completions ++ action_writes rc 32 0)
  pub all_clients : All (Named rc 2 4) clients.0
  pub all_selectors : All (Named rc 2 2) selectors
  pub all_completions : All (Named rc 5 5) completions

module _ (rc : CollectiveChannel) where
  All-all_complete_writes :
      (connected : Bool) (bs : Bitmaps) → All (Named rc 5 5) (all_complete_writes rc connected bs)
  All-all_complete_writes connected bs =
      All-append (Named rc 5 5) _ (complete_writes rc connected bs 3)
        (All-append (Named rc 5 5) _ (complete_writes rc connected bs 2)
          (All-append (Named rc 5 5) (complete_writes rc connected bs 0)
            (complete_writes rc connected bs 1) (All-complete_writes rc connected bs 0)
            (All-complete_writes rc connected bs 1))
          (All-complete_writes rc connected bs 2))
        (All-complete_writes rc connected bs 3)

  record IsSplit (bs : Bitmaps) : Type 0 where
    selectors : List Write
    completions : List Write
    whole : closing_writes rc bs ≡ selectors ++ completions ++ action_writes rc 32 0
    all_selectors : All (Named rc 2 2) selectors
    all_completions : All (Named rc 5 5) completions

  closing_writes-IsSplit : (bs : Bitmaps) → IsSplit bs
  unfolding closing_writes
  closing_writes-IsSplit bs = elim (Bool-cases (have_connected_pipes bs)) [
    | inl e ↦
        let down = downstream_writes rc 3 0 bs in
        record {
          selectors = down.0 ++ port_write rc 452 down.1 ∷ [];
          completions = all_complete_writes rc true down.1;
          whole = rw e refl;
          all_selectors =
              All-append (Named rc 2 2) down.0 _ (All-downstream_writes rc 3 0 bs)
                ((tt, omega arith, omega arith), tt);
          all_completions = All-all_complete_writes true down.1;
        }
    | inr e ↦ record {
      selectors = [];
      completions = all_complete_writes rc false bs;
      whole = rw e refl;
      all_selectors = tt;
      all_completions = All-all_complete_writes false bs;
    }
  ]

  pub channel_writes-Parts : (ws : List Write) → channel_writes rc ≡ ok ws → Parts rc ws
  unfolding channel_writes
  channel_writes-Parts ws h =
      let (r, (inserted, e)) =
        bind-ok (insert_participants rc 1 first_bitmaps rc.participants) _ ws h in
      let closing = closing_writes-IsSplit r.1 in
      record {
        clients = r;
        selectors = closing.selectors;
        completions = closing.completions;
        inserted = inserted;
        whole = cc (sym e) ∙ ap (λ vs. group_writes rc ++ r.0 ++ vs) closing.whole;
        all_clients = rw inserted at (All-insert_participants rc 1 first_bitmaps rc.participants);
        all_selectors = closing.all_selectors;
        all_completions = closing.all_completions;
      }

  module _ (ws : List Write) (p : Parts rc ws) where
    -- The parts, one after the other.
    staged :
        (q : ℕ) (j : Key) (old : Option Data)
        → last_written ws q j old
          ≡ last_written (action_writes rc 32 0) q j (
              last_written p.completions q j (
                last_written p.selectors q j
                  (last_written p.clients.0 q j (last_written (group_writes rc) q j old))))
    staged q j old =
        let actions = action_writes rc 32 0 in
        ap (λ vs. last_written vs q j old) p.whole
        ∙ last_written-append (group_writes rc ++ p.clients.0)
            (p.selectors ++ p.completions ++ actions) q j old
        ∙ last_written-append (p.selectors ++ p.completions) actions q j _
        ∙ ap (last_written actions q j) (
            last_written-append p.selectors p.completions q j _
            ∙ ap (λ o. last_written p.completions q j (last_written p.selectors q j o))
                (last_written-append (group_writes rc) p.clients.0 q j old))

    -- What comes before the actions does not matter to them.
    pub last_written-action :
        (i : ℕ) (clear : Bool) (old : Option Data)
        → i < 32
        → last_written ws all_pipes (choose_action i rc.agg_unit clear) old ≡ some (action_of clear)
    last_written-action i clear old lt =
        staged all_pipes (choose_action i rc.agg_unit clear) old
        ∙ last_written-action_writes rc 32 0 i clear _ (omega arith) (omega arith)

    -- What comes after the clients does not touch their output addresses.
    pub last_written-address :
        (pos : ℕ) (part : Participant) (old : Option Data)
        → HasClient 1 rc.participants pos part
        → last_written ws
            (recirc_pipe (part.switch_port / 128))
            (output_address rc.agg_unit pos)
            old
          ≡ some (address_of rc part)
    last_written-address pos part old at =
        let q = recirc_pipe (part.switch_port / 128) in
        let j = output_address rc.agg_unit pos in
        staged q j old
        ∙ last_written-rank rc 6 6 (action_writes rc 32 0) q j _ (All-action_writes rc 32 0)
            (inl (omega arith))
        ∙ last_written-rank rc 5 5 p.completions q j _ p.all_completions (inl (omega arith))
        ∙ last_written-rank rc 2 2 p.selectors q j _ p.all_selectors (inr (omega arith))
        ∙ last_written-insert_participants rc 1 first_bitmaps rc.participants p.clients pos part _
            p.inserted at

    pub last_written-group :
        (old : Option Data)
        → last_written ws all_pipes (pre_mgid (mcast_grp rc)) old
          ≡ some (
              multicast_group
                (map pid_of (group_ports rc 1 rc.participants))
                false
                (map zero_of (group_ports rc 1 rc.participants)))
    last_written-group old =
        let j = pre_mgid (mcast_grp rc) in
        staged all_pipes j old
        ∙ last_written-rank rc 6 6 (action_writes rc 32 0) all_pipes j _ (All-action_writes rc 32 0)
            (inl (omega arith))
        ∙ last_written-rank rc 5 5 p.completions all_pipes j _ p.all_completions (inl (omega arith))
        ∙ last_written-rank rc 2 2 p.selectors all_pipes j _ p.all_selectors (inl (omega arith))
        ∙ last_written-rank rc 2 4 p.clients.0 all_pipes j _ p.all_clients (inl (omega arith))
        ∙ last_written-group_writes rc old
