-- ===== src/AsicDriver/Follows.antt =====
-- The whole of `follow_channels`: the tables afterwards, by the channels of the repository.
use mpitofino.Prelude.{
  ℕ, ◌≡◌, ◌≢◌, ◌≤◌, ◌<◌, refl, sym, ◌∙◌, Bool, true, false, not, ◌⊎◌, inl, inr, some, List, [], ◌∷◌,
  ◌++◌, ◌==◌, ==→eq, ok, ◌>>=◌, Returns, Returns-bind, Returns-imp, Returns-ok, bind-ok, bind_assoc,
  bind_congr, ok-inj, All, Bool-cases, arith,
}
use mpitofino.StateRepository.{CollectiveChannel}
use mpitofino.AsicDriver.Tables.{
  Key, Ternary, unit_selector, check_complete, output_address, choose_action, pre_mgid, Data,
  select_agg_unit, check_bf_status, table_add_or_mod, Switch, IsLawful, register_table, table_of,
  all_pipes,
}
use mpitofino.AsicDriver.Plan.{Write, all_nodes_known, mcast_grp, channel_writes}
use mpitofino.AsicDriver.Workers.{Tabular}
use mpitofino.AsicDriver.Programmed.{
  last_written, plan, AllFit, plan-Tabular, write_entries-last_written,
}
use mpitofino.AsicDriver.Sync.{
  member, units_in_use, groups_in_use, is_stale, write_entries, program_channels, delete_excess,
  clean_table, follow_channels,
}
use mpitofino.AsicDriver.Sweeping.{Trims, Stays}
use mpitofino.AsicDriver.Cleaning.{AllCleared, delete_excess-AllCleared}

module _ (S : Switch) where
  write_entries-empty : (s : S.State) → write_entries S [] s ≡ ok s
  unfolding write_entries
  write_entries-empty s = refl

  write_entries-append :
      (ws vs : List Write) (s : S.State)
      → write_entries S (ws ++ vs) s ≡ (write_entries S ws s >>= write_entries S vs)
  unfolding write_entries
  write_entries-append [] vs s = refl
  write_entries-append (w ∷ ws) vs s =
      bind_congr (check_bf_status (table_add_or_mod S s w.pipe w.key w.value)) _ _
        (λ a. write_entries-append ws vs a)
      ∙ bind_assoc (check_bf_status (table_add_or_mod S s w.pipe w.key w.value))
          (write_entries S ws) (write_entries S vs)

  -- The interleaved planning and writing is the writing of the plan.
  pub program_channels-plan :
      (rcs : List CollectiveChannel) (ws : List Write) (s : S.State)
      → plan rcs ≡ ok ws
      → program_channels S rcs s ≡ write_entries S ws s
  unfolding program_channels plan
  program_channels-plan [] ws s h = rw (sym (ok-inj h)) (sym (write_entries-empty s))
  program_channels-plan (rc ∷ rcs) ws s h = elim (Bool-cases (all_nodes_known rc.participants)) [
    | inr e ↦ rw e (program_channels-plan rcs ws s (rw e at h))
    | inl e ↦
        let first = bind-ok (channel_writes rc) _ ws (rw e at h) in
        let later = bind-ok (plan rcs) (λ rest. ok (first.0 ++ rest)) ws first.1.1 in
        rw (e, first.1.0, sym (ok-inj later.1.1), write_entries-append first.0 later.0 s)
          (bind_congr (write_entries S first.0 s) _ _
            (λ a. program_channels-plan rcs later.0 a later.1.0))
  ]

-- The tables, but for the registers, hold what `ws` makes of the former ones, less entries that go, and
-- no entry that is to go is left.
pub record Follows (S : Switch) (L : IsLawful S) (rcs : List CollectiveChannel) (ws : List Write)
    (s s' : S.State) : Type 0 where
  pub less :
      (q : ℕ) (j : Key) (d : Data)
      → table_of j ≢ register_table
      → S.get s' q j ≡ some d
      → last_written ws q j (S.get s q j) ≡ some d
  pub kept :
      (q : ℕ) (j : Key) (d : Data)
      → table_of j ≢ register_table
      → Stays rcs j d
      → last_written ws q j (S.get s q j) ≡ some d
      → S.get s' q j ≡ some d
  pub cleared : AllCleared S L rcs s'

module _ (S : Switch) (L : IsLawful S) (rcs : List CollectiveChannel) where
  Follows-Trims :
      (ws : List Write) (s s1 s' : S.State)
      → ((q : ℕ) (j : Key) → S.get s1 q j ≡ last_written ws q j (S.get s q j))
      → Trims S rcs s1 s' × AllCleared S L rcs s'
      → Follows S L rcs ws s s'
  Follows-Trims ws s s1 s' e h = record {
    less = λ q j d n g. sym (e q j) ∙ h.0.less q j d n g;
    kept = λ q j d n st g. h.0.kept q j d n st (e q j ∙ g);
    cleared = h.1;
  }

  -- On a lawful run-time library, if every channel whose clients are all known has its ports below
  -- 512 and at most 64 clients on each of the pipes 0 to 2 and 61 on pipe 3, follow_channels
  -- throws nothing. Apart from the registers, the tables are then the former ones with the last
  -- planned write to each place in effect, less entries only: what is never stale is kept, and no
  -- stale entry is left in any table and pipe that the driver goes through, the multicast nodes
  -- aside.
  pub follow_channels-Follows :
      (s : S.State)
      → AllFit rcs
      → Returns
          (λ ws. Returns (Follows S L rcs ws s) (follow_channels S (clean_table S) rcs s))
          (plan rcs)
  unfolding follow_channels
  follow_channels-Follows s fit =
      let p = Returns-ok (All Tabular) (plan rcs) (plan-Tabular rcs fit) in
      rw p.1.0 (
        rw (program_channels-plan S rcs p.0 s p.1.0) (
          Returns-bind (λ s1. (q : ℕ) (j : Key) → S.get s1 q j ≡ last_written p.0 q j (S.get s q j))
            (Follows S L rcs p.0 s) (write_entries S p.0 s) (delete_excess S (clean_table S) rcs)
            (write_entries-last_written S L p.0 s p.1.1)
            (λ s1 e.
              Returns-imp (λ s'. Trims S rcs s1 s' × AllCleared S L rcs s') (Follows S L rcs p.0 s)
                _ (delete_excess-AllCleared S L rcs s1) (λ s' h. Follows-Trims p.0 s s1 s' e h))))

-- A channel whose clients are all known uses the aggregation unit.
abbrev pub UnitInUse : List CollectiveChannel → ℕ → Type 0
UnitInUse [] unit = ⊥
UnitInUse (rc ∷ rcs) unit =
    ((all_nodes_known rc.participants ≡ true) × (rc.agg_unit ≡ unit)) ⊎ UnitInUse rcs unit

abbrev pub GroupInUse : List CollectiveChannel → ℕ → Type 0
GroupInUse [] group = ⊥
GroupInUse (rc ∷ rcs) group =
    ((all_nodes_known rc.participants ≡ true) × (mcast_grp rc ≡ group)) ⊎ GroupInUse rcs group

UnitInUse-member :
    (unit : ℕ) (rcs : List CollectiveChannel)
    → not (member unit (units_in_use rcs)) ≡ false
    → UnitInUse rcs unit
unfolding member units_in_use
UnitInUse-member unit [] h = cc
UnitInUse-member unit (rc ∷ rcs) h = elim (Bool-cases (all_nodes_known rc.participants)) [
  | inr e ↦ inr (UnitInUse-member unit rcs (rw e at h))
  | inl e ↦ elim (Bool-cases (rc.agg_unit == unit)) [
    | inl m ↦ inl (e, ==→eq rc.agg_unit unit m)
    | inr m ↦ inr (UnitInUse-member unit rcs (rw (e, m) at h))
  ]
]

GroupInUse-member :
    (group : ℕ) (rcs : List CollectiveChannel)
    → not (member group (groups_in_use rcs)) ≡ false
    → GroupInUse rcs group
unfolding member groups_in_use
GroupInUse-member group [] h = cc
GroupInUse-member group (rc ∷ rcs) h = elim (Bool-cases (all_nodes_known rc.participants)) [
  | inr e ↦ inr (GroupInUse-member group rcs (rw e at h))
  | inl e ↦ elim (Bool-cases (mcast_grp rc == group)) [
    | inl m ↦ inl (e, ==→eq (mcast_grp rc) group m)
    | inr m ↦ inr (GroupInUse-member group rcs (rw (e, m) at h))
  ]
]

-- No entry of a unit or group that no known channel uses, on the pipes that the driver looks at.
pub record IsClean (S : Switch) (rcs : List CollectiveChannel) (s : S.State) : Type 0 where
  pub selectors :
      (pipe : ℕ) (a c e : Ternary) (b unit low high : ℕ)
      → (pipe ≡ 0) ⊎ (pipe ≡ 3)
      → S.get s pipe (unit_selector a b c e) ≡ some (select_agg_unit unit low high)
      → UnitInUse rcs unit
  pub completions :
      (pipe unit : ℕ) (low high : Ternary) (clear : Bool) (d : Data)
      → (pipe ≡ 0) ⊎ (pipe ≡ 3)
      → S.get s pipe (check_complete unit low high clear) ≡ some d
      → UnitInUse rcs unit
  pub addresses :
      (pipe unit rid : ℕ) (d : Data)
      → (pipe ≡ 1) ⊎ (pipe ≡ 2)
      → S.get s pipe (output_address unit rid) ≡ some d
      → UnitInUse rcs unit
  pub actions :
      (stage unit : ℕ) (clear : Bool) (d : Data)
      → stage < 32
      → S.get s all_pipes (choose_action stage unit clear) ≡ some d
      → UnitInUse rcs unit
  pub groups :
      (group : ℕ) (d : Data)
      → 16 ≤ group
      → S.get s all_pipes (pre_mgid group) ≡ some d
      → GroupInUse rcs group

module _ (S : Switch) (L : IsLawful S) (rcs : List CollectiveChannel) where
  IsClean-AllCleared : (s : S.State) → AllCleared S L rcs s → IsClean S rcs s
  unfolding is_stale
  IsClean-AllCleared s h = record {
    selectors = λ pipe a c e b unit low high o g. UnitInUse-member unit rcs (elim o [
      | inl p ↦ h.0.0.0.0 (unit_selector a b c e) _ refl (rw p at g)
      | inr p ↦ h.1.0.0.0.0.0.0 (unit_selector a b c e) _ refl (rw p at g)
    ]);
    completions = λ pipe unit low high clear d o g. UnitInUse-member unit rcs (elim o [
      | inl p ↦ h.0.0.0.1 (check_complete unit low high clear) d refl (rw p at g)
      | inr p ↦ h.1.0.0.0.0.0.1 (check_complete unit low high clear) d refl (rw p at g)
    ]);
    addresses = λ pipe unit rid d o g. UnitInUse-member unit rcs (elim o [
      | inl p ↦ h.0.0.1 (output_address unit rid) d refl (rw p at g)
      | inr p ↦ h.1.0.0.0.0.1 (output_address unit rid) d refl (rw p at g)
    ]);
    actions = λ stage unit clear d lt g.
        UnitInUse-member unit rcs
          (h.1.0.0.1 stage (omega arith) (omega arith) (choose_action stage unit clear) d refl g);
    groups = λ group d le g. GroupInUse-member group rcs (high group d le g);
  }
    where
      high :
          (group : ℕ) (d : Data)
          → 16 ≤ group
          → S.get s all_pipes (pre_mgid group) ≡ some d
          → not (member group (groups_in_use rcs)) ≡ false
      high group d le g = ground (arith, h.1.0.1 (pre_mgid group) d refl g)

  -- On a lawful run-time library, if every channel whose clients are all known has its ports below
  -- 512 and at most 64 clients on each of the pipes 0 to 2 and 61 on pipe 3, follow_channels
  -- throws nothing, and afterwards a channel whose clients are all known uses the aggregation unit
  -- of every entry that the unit selector and check_complete have on the pipes 0 and 3,
  -- output_address on the pipes 1 and 2 and choose_action in the 32 stages, and the group of every
  -- multicast group from 16 on.
  pub follow_channels-IsClean :
      (s : S.State) → AllFit rcs → Returns (IsClean S rcs) (follow_channels S (clean_table S) rcs s)
  follow_channels-IsClean s fit =
      let p = Returns-ok _ (plan rcs) (follow_channels-Follows S L rcs s fit) in
      Returns-imp (Follows S L rcs p.0 s) (IsClean S rcs) (follow_channels S (clean_table S) rcs s)
        p.1.1 (λ s' h. IsClean-AllCleared s' h.cleared)
