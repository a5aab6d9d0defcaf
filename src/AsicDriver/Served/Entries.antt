-- ===== src/AsicDriver/Served/Entries.antt =====
-- After `follow_channels` every channel whose clients are all known has its entries.
use mpitofino.Prelude.{
  ℕ, ◌/◌, ◌≡◌, ◌≢◌, ◌<◌, ap, subst, ◌⊎◌, Bool, true, false, not, inl, inr, Option, some, List, [],
  ◌∷◌, map, ok, Returns, Returns-ok, Returns-imp, All, arith,
}
use mpitofino.StateRepository.{CollectiveChannel, Participant}
use mpitofino.AsicDriver.Tables.{
  Key, Data, choose_action, output_address, pre_mgid, multicast_group, all_pipes, Switch, IsLawful,
  register_table, table_of,
}
use mpitofino.AsicDriver.Plan.{
  Write, all_nodes_known, mcast_grp, group_ports, pid_of, zero_of, recirc_pipe, channel_writes,
}
use mpitofino.AsicDriver.Programmed.{last_written, plan, AllFit}
use mpitofino.AsicDriver.Sweeping.{Stays}
use mpitofino.AsicDriver.Sync.{
  is_stale, member, units_in_use, groups_in_use, clean_table, follow_channels,
}
use mpitofino.AsicDriver.Follows.{Follows, follow_channels-Follows}
use mpitofino.AsicDriver.Served.Named.{Names}
use mpitofino.AsicDriver.Served.Written.{action_of}
use mpitofino.AsicDriver.Served.Addresses.{HasClient, address_of}
use mpitofino.AsicDriver.Served.Channel.{
  channel_writes-Parts, last_written-action, last_written-address, last_written-group,
}
use mpitofino.AsicDriver.Served.Plan.{Foreign, IsOnly, plan-own, member-units_in_use}

-- The channel is in the list, and no other one has its aggregation unit.
abbrev pub OtherUnit : CollectiveChannel → CollectiveChannel → Type 0
OtherUnit rc x = x.agg_unit ≢ rc.agg_unit

abbrev pub OnlyUser : CollectiveChannel → List CollectiveChannel → Type 0
OnlyUser rc [] = ⊥
OnlyUser rc (x ∷ xs) = ((x ≡ rc) × All (OtherUnit rc) xs) ⊎ (OtherUnit rc x × OnlyUser rc xs)

abbrev pub UnitsInRange : List CollectiveChannel → Type 0
UnitsInRange = All (λ (x : CollectiveChannel). x.agg_unit < 256)

-- The entries of a channel: both actions in each of the 32 stages, the output address of each client, by
-- its position, and the multicast group.
pub record IsServed (S : Switch) (rc : CollectiveChannel) (s : S.State) : Type 0 where
  pub actions :
      (i : ℕ) (clear : Bool)
      → i < 32
      → S.get s all_pipes (choose_action i rc.agg_unit clear) ≡ some (action_of clear)
  pub addresses :
      (pos : ℕ) (part : Participant)
      → HasClient 1 rc.participants pos part
      → S.get s (recirc_pipe (part.switch_port / 128)) (output_address rc.agg_unit pos)
        ≡ some (address_of rc part)
  pub group :
      S.get s all_pipes (pre_mgid (mcast_grp rc))
      ≡ some (
          multicast_group
            (map pid_of (group_ports rc 1 rc.participants))
            false
            (map zero_of (group_ports rc 1 rc.participants)))

module _ (rc : CollectiveChannel) (j : Key)
    (named : (x : CollectiveChannel)
      → x.agg_unit < 256
      → Names x j
      → x.agg_unit ≡ rc.agg_unit) where
  All-Foreign :
      (rcs : List CollectiveChannel)
      → UnitsInRange rcs
      → All (OtherUnit rc) rcs
      → All (Foreign j) rcs
  All-Foreign [] range o = tt
  All-Foreign (x ∷ xs) range o = ((λ known n. o.0 (named x range.0 n)), All-Foreign xs range.1 o.1)

  IsOnly-OnlyUser :
      (rcs : List CollectiveChannel) → UnitsInRange rcs → OnlyUser rc rcs → IsOnly rc j rcs
  IsOnly-OnlyUser [] range o = o
  IsOnly-OnlyUser (x ∷ xs) range (inl o) = inl (o.0, All-Foreign xs range.1 o.1)
  IsOnly-OnlyUser (x ∷ xs) range (inr o) =
      inr ((λ known n. o.0 (named x range.0 n)), IsOnly-OnlyUser xs range.1 o.1)

unit_in_range :
    (rc : CollectiveChannel) (rcs : List CollectiveChannel)
    → UnitsInRange rcs
    → OnlyUser rc rcs
    → rc.agg_unit < 256
unit_in_range rc [] range o = absurd o
unit_in_range rc (x ∷ xs) range (inl o) =
    subst (λ (y : CollectiveChannel). y.agg_unit < 256) o.0 range.0
unit_in_range rc (x ∷ xs) range (inr o) = unit_in_range rc xs range.1 o.1

module _ (S : Switch) (L : IsLawful S) (rcs : List CollectiveChannel) (rc : CollectiveChannel)
    (range : UnitsInRange rcs) (only : OnlyUser rc rcs)
    (known : all_nodes_known rc.participants ≡ true) where
  -- An entry that the channel writes, and that no deletion concerns.
  entry_kept :
      (ws : List Write) (s s' : S.State) (q : ℕ) (j : Key) (v : Data)
      → plan rcs ≡ ok ws
      → Follows S L rcs ws s s'
      → table_of j ≢ register_table
      → Stays rcs j v
      → IsOnly rc j rcs
      → ((vs : List Write)
          → channel_writes rc ≡ ok vs
          → (o : Option Data) → last_written vs q j o ≡ some v)
      → S.get s' q j ≡ some v
  entry_kept ws s s' q j v p f t st o own =
      f.kept q j v t st (plan-own rc known q j v rcs ws (S.get s q j) p o own)

  in_use :
      (member rc.agg_unit (units_in_use rcs) ≡ true)
      × (member (mcast_grp rc) (groups_in_use rcs) ≡ true)
  in_use =
      let j = choose_action 0 rc.agg_unit true in
      member-units_in_use rc known 0 j (action_of true) rcs
        (IsOnly-OnlyUser rc j (λ x r n. n) rcs range only)

  Follows-IsServed :
      (ws : List Write) (s s' : S.State)
      → plan rcs ≡ ok ws
      → Follows S L rcs ws s s'
      → IsServed S rc s'
  unfolding is_stale
  Follows-IsServed ws s s' p f = record {
    actions = λ i clear lt.
        let j = choose_action i rc.agg_unit clear in
        entry_kept ws s s' all_pipes j (action_of clear) p f (λ e. cc) (λ nodes. ap not in_use.0)
          (IsOnly-OnlyUser rc j (λ x r n. n) rcs range only)
          (λ vs h o. last_written-action rc vs (channel_writes-Parts rc vs h) i clear o lt);
    addresses = λ pos part at.
        let j = output_address rc.agg_unit pos in
        entry_kept ws s s' (recirc_pipe (part.switch_port / 128)) j (address_of rc part) p f
          (λ e. cc) (λ nodes. ap not in_use.0) (IsOnly-OnlyUser rc j (λ x r n. n) rcs range only)
          (λ vs h o. last_written-address rc vs (channel_writes-Parts rc vs h) pos part o at);
    group =
        let j = pre_mgid (mcast_grp rc) in
        let lt = unit_in_range rc rcs range only in
        entry_kept ws s s' all_pipes j _ p f (λ e. cc) (λ nodes. rw in_use.1 (ground arith))
          (IsOnly-OnlyUser rc j (λ x r n. omega arith) rcs range only)
          (λ vs h o. last_written-group rc vs (channel_writes-Parts rc vs h) o);
  }

  -- On a lawful run-time library, if every channel whose clients are all known has its ports below
  -- 512 and at most 64 clients on each of the pipes 0 to 2 and 61 on pipe 3, the aggregation units
  -- are below 256, and no other channel has the unit of a channel whose clients are all known, then
  -- follow_channels throws nothing, and that channel has both actions in each of the 32 stages,
  -- the output address of each client at its position, and its multicast group.
  pub follow_channels-IsServed :
      (s : S.State) → AllFit rcs → Returns (IsServed S rc) (follow_channels S (clean_table S) rcs s)
  follow_channels-IsServed s fit =
      let (ws, (p, r)) = Returns-ok _ (plan rcs) (follow_channels-Follows S L rcs s fit) in
      Returns-imp (Follows S L rcs ws s) (IsServed S rc) (follow_channels S (clean_table S) rcs s) r
        (λ s' f. Follows-IsServed ws s s' p f)
