-- ===== src/AsicDriver/Served/Named.antt =====
-- To which channel and to which table a write of `on_st_repo_channels` belongs.
use mpitofino.Prelude.{
  ℕ, zero, suc, ◌+◌, ◌/◌, ◌≡◌, ◌≤◌, refl, Bool, inl, inr, List, [], ◌∷◌, map, ltb, IfReturns,
  IfReturns-bind, All, All-append, Bool-cases, arith,
}
use mpitofino.Prelude.OrderedMap.{Map}
use mpitofino.StateRepository.{CollectiveChannel, Participant}
use mpitofino.AsicDriver.Tables.{
  Key, unit_selector, check_complete, output_address, roce_ack_reflector, choose_action, pre_mgid,
  pre_node, switching_table, switching_table_src, agg_values, state_bitmaps_low, state_bitmaps_high,
}
use mpitofino.AsicDriver.Bitmaps.{Bitmap}
use mpitofino.AsicDriver.Plan.{
  Write, Bitmaps, GroupPort, group_ports, node_write, mcast_grp, group_writes, participant_writes,
  bitmap_at, has_room, advance_at, insert_participants, has_clients, downstream_writes,
  complete_writes, action_writes,
}

-- A key that names a unit or a group names that of the channel.
abbrev pub Names : CollectiveChannel → Key → Type 0
Names rc (check_complete unit _ _ _) = rc.agg_unit ≡ unit
Names rc (output_address unit _) = rc.agg_unit ≡ unit
Names rc (choose_action _ unit _) = rc.agg_unit ≡ unit
Names rc (pre_mgid group) = mcast_grp rc ≡ group
Names rc (unit_selector _ _ _ _) = Unit
Names rc (roce_ack_reflector _ _) = Unit
Names rc (pre_node _) = Unit
Names rc (switching_table _) = Unit
Names rc (switching_table_src _ _ _) = Unit
Names rc (agg_values _ _) = Unit
Names rc (state_bitmaps_low _) = Unit
Names rc (state_bitmaps_high _) = Unit

-- The tables in the order in which a channel's entries are written.
abbrev pub rank : Key → ℕ
rank (pre_node _) = 0
rank (pre_mgid _) = 1
rank (unit_selector _ _ _ _) = 2
rank (output_address _ _) = 3
rank (roce_ack_reflector _ _) = 4
rank (check_complete _ _ _ _) = 5
rank (choose_action _ _ _) = 6
rank (switching_table _) = 7
rank (switching_table_src _ _ _) = 7
rank (agg_values _ _) = 7
rank (state_bitmaps_low _) = 7
rank (state_bitmaps_high _) = 7

-- A write for the channel to one of the tables of the ranks `lo` to `hi`.
abbrev pub Named : CollectiveChannel → ℕ → ℕ → Write → Type 0
Named rc lo hi w = Names rc w.key × (lo ≤ rank w.key) × (rank w.key ≤ hi)

pub All-imp :
    {P Q : Write → Type 0} (ws : List Write) → ((w : Write) → P w → Q w) → All P ws → All Q ws
All-imp [] f h = tt
All-imp (w ∷ ws) f h = (f w h.0, All-imp ws f h.1)

module _ (rc : CollectiveChannel) where
  pub Named-within :
      (lo hi lo' hi' : ℕ) (ws : List Write)
      → lo' ≤ lo
      → hi ≤ hi'
      → All (Named rc lo hi) ws
      → All (Named rc lo' hi') ws
  Named-within lo hi lo' hi' ws a b =
      All-imp ws (λ w h. (h.0, omega (arith, h.1), omega (arith, h.2)))

  All-node_writes : (gs : List GroupPort) → All (Named rc 0 0) (map node_write gs)
  All-node_writes [] = tt
  All-node_writes (g ∷ gs) = ((tt, omega arith, omega arith), All-node_writes gs)

  pub All-group_writes : All (Named rc 0 1) (group_writes rc)
  unfolding group_writes
  All-group_writes =
      All-append (Named rc 0 1) (map node_write (group_ports rc 1 rc.participants)) _
        (Named-within 0 0 0 1 (map node_write (group_ports rc 1 rc.participants)) (omega arith)
          (omega arith) (All-node_writes (group_ports rc 1 rc.participants)))
        ((refl, omega arith, omega arith), tt)

  pub All-participant_writes :
      (pos : ℕ) (part : Participant) (b : Bitmap)
      → All (Named rc 2 4) (participant_writes rc pos part b)
  unfolding participant_writes
  All-participant_writes pos part b = (
    (tt, omega arith, omega arith),
    ((refl, omega arith, omega arith), ((tt, omega arith, omega arith), tt)),
  )

  pub All-insert_participants :
      (pos : ℕ) (bs : Bitmaps) (ps : Map Participant)
      → IfReturns (λ r. All (Named rc 2 4) r.0) (insert_participants rc pos bs ps)
  unfolding insert_participants
  All-insert_participants pos bs [] = tt
  All-insert_participants pos bs ((_, part) ∷ ps) =
      let pipe = part.switch_port / 128 in
      let Q : List Write × Bitmaps → Type 0 = λ r. All (Named rc 2 4) r.0 in
      elim (Bool-cases (ltb pipe 4)) [
        | inr n ↦ rw n tt
        | inl y ↦ elim (Bool-cases (has_room bs pipe)) [
          | inr n ↦ rw (y, n) tt
          | inl z ↦
              rw (y, z)
                (IfReturns-bind Q Q (insert_participants rc (pos + 1) (advance_at pipe bs) ps) _
                  (All-insert_participants (pos + 1) (advance_at pipe bs) ps)
                  (λ r h.
                    All-append (Named rc 2 4) (participant_writes rc pos part (bitmap_at bs pipe))
                      r.0 (All-participant_writes pos part (bitmap_at bs pipe)) h))
        ]
      ]

  pub All-downstream_writes :
      (left pipe : ℕ) (bs : Bitmaps) → All (Named rc 2 2) (downstream_writes rc left pipe bs).0
  unfolding downstream_writes
  All-downstream_writes zero pipe bs = tt
  All-downstream_writes (suc left) pipe bs = elim (Bool-cases (has_clients bs pipe)) [
    | inl e ↦
        rw e
          ((tt, omega arith, omega arith), All-downstream_writes left (pipe + 1) (advance_at 3 bs))
    | inr e ↦ rw e (All-downstream_writes left (pipe + 1) bs)
  ]

  pub All-complete_writes :
      (connected : Bool) (bs : Bitmaps) (pipe : ℕ)
      → All (Named rc 5 5) (complete_writes rc connected bs pipe)
  unfolding complete_writes
  All-complete_writes connected bs pipe = elim (Bool-cases (has_clients bs pipe)) [
    | inl e ↦ rw e ((refl, omega arith, omega arith), ((refl, omega arith, omega arith), tt))
    | inr e ↦ rw e tt
  ]

  pub All-action_writes : (left i : ℕ) → All (Named rc 6 6) (action_writes rc left i)
  unfolding action_writes
  All-action_writes zero i = tt
  All-action_writes (suc left) i = (
    (refl, omega arith, omega arith),
    ((refl, omega arith, omega arith), All-action_writes left (i + 1)),
  )
