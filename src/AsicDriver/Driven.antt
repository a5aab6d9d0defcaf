-- ===== src/AsicDriver/Driven.antt =====
-- `ASICDriver::on_st_repo_channels` with its loops over the tables as they are, by `table_iterator`.
use mpitofino.Prelude.{
  ℕ, zero, suc, ◌+◌, refl, sym, subst, inl, inr, ◌⊎◌, List, [], Result, Returns,
}
use mpitofino.StateRepository.{CollectiveChannel}
use mpitofino.AsicDriver.Tables.{
  Table, all_pipes, Switch, IsLawful, unit_selector_table, check_complete_table,
  output_address_table, roce_ack_reflector_table, choose_action_table, pre_mgid_table,
  pre_node_table,
}
use mpitofino.AsicDriver.Plan.{recirc_pipe}
use mpitofino.AsicDriver.Sync.{
  Clean, clean_table, clean_pipe, clean_actions, clean_groups, collect_nodes, delete_excess,
  program_channels, follow_channels,
}
use mpitofino.AsicDriver.Iterator.{
  Cursor, IsOrdered, Lost, Agrees, Agrees-bind, sweep, sweep-Agrees, on_st_repo_channels,
}
use mpitofino.AsicDriver.Follows.{Follows}

-- The driver threw nothing and `P` holds, or the library did not find the entry behind a deleted one.
abbrev pub Driven : (S : Switch) → Cursor S → (S.State → Type 0) → Result S.State → Type 0
Driven S C P r = Returns P r ⊎ Lost S C r

module _ (S : Switch) (C : Cursor S) (L : IsLawful S) (O : IsOrdered S C)
    (rcs : List CollectiveChannel) where
  abbrev loops : Clean S
  loops rcs nodes pipe t = sweep S C pipe t rcs nodes

  loops-Agrees :
      (nodes : List ℕ) (pipe : ℕ) (t : Table) (s : S.State)
      → Agrees S C (loops rcs nodes pipe t s) (clean_table S rcs nodes pipe t s)
  loops-Agrees nodes pipe t s = sweep-Agrees S C pipe t rcs nodes O s (L.entries-NodupKeys s pipe t)

  clean_pipe-Agrees :
      (pipe : ℕ) (s : S.State)
      → Agrees S C (clean_pipe S loops rcs pipe s) (clean_pipe S (clean_table S) rcs pipe s)
  unfolding clean_pipe
  clean_pipe-Agrees pipe s =
      Agrees-bind S C _ _ _ _
        (Agrees-bind S C _ _ _ _
          (Agrees-bind S C _ _ _ _ (loops-Agrees [] pipe unit_selector_table s)
            (λ a. loops-Agrees [] pipe check_complete_table a))
          (λ a. loops-Agrees [] (recirc_pipe pipe) output_address_table a))
        (λ a. loops-Agrees [] pipe roce_ack_reflector_table a)

  clean_actions-Agrees :
      (left j : ℕ) (s : S.State)
      → Agrees S C
          (clean_actions S loops rcs left j s)
          (clean_actions S (clean_table S) rcs left j s)
  unfolding clean_actions
  clean_actions-Agrees zero j s = inl refl
  clean_actions-Agrees (suc left) j s =
      Agrees-bind S C _ _ _ _ (loops-Agrees [] all_pipes (choose_action_table j) s)
        (λ a. clean_actions-Agrees left (j + 1) a)

  clean_groups-Agrees :
      (s : S.State) → Agrees S C (clean_groups S loops rcs s) (clean_groups S (clean_table S) rcs s)
  unfolding clean_groups
  clean_groups-Agrees s = Agrees-bind S C _ _ _ _ (loops-Agrees [] all_pipes pre_mgid_table s) (λ a.
      loops-Agrees (collect_nodes rcs (S.entries s all_pipes pre_mgid_table)) all_pipes
        pre_node_table a)

  delete_excess-Agrees :
      (s : S.State)
      → Agrees S C (delete_excess S loops rcs s) (delete_excess S (clean_table S) rcs s)
  unfolding delete_excess
  delete_excess-Agrees s = Agrees-bind S C _ _ _ _ (clean_pipe-Agrees 0 s) (λ s1.
      Agrees-bind S C _ _ _ _
        (Agrees-bind S C _ _ _ _
          (Agrees-bind S C _ _ _ _ (clean_pipe-Agrees 3 s1) (λ a. clean_actions-Agrees 32 0 a))
          (λ a. clean_groups-Agrees a))
        (λ a. inl refl))

  follow_channels-Agrees :
      (s : S.State)
      → Agrees S C (on_st_repo_channels S C rcs s) (follow_channels S (clean_table S) rcs s)
  unfolding on_st_repo_channels follow_channels
  follow_channels-Agrees s =
      Agrees-bind S C (program_channels S rcs s) (program_channels S rcs s) _ _ (inl refl)
        (λ a. delete_excess-Agrees a)

  -- What the loops over lists of entries guarantee, the driver guarantees.
  pub Driven-Returns :
      (P : S.State → Type 0) (s : S.State)
      → Returns P (follow_channels S (clean_table S) rcs s)
      → Driven S C P (on_st_repo_channels S C rcs s)
  Driven-Returns P s h = elim (follow_channels-Agrees s) [
    | inl e ↦ inl (subst (Returns P) (sym e) h)
    | inr l ↦ inr l
  ]
