-- ===== src/AsicDriver/Cleaning.antt =====
-- The deletion of excess channels from the chip, over all of its tables.
use native.Mathlib.Decide.{ℕ_discrete}
use mpitofino.Prelude.{
  ℕ, zero, suc, ◌+◌, ◌*◌, ◌≡◌, ◌≤◌, ◌<◌, refl, sym, ap, ◌∙◌, inr, List, [], ◌∷◌, Result, ◌>>=◌,
  Returns, Returns-bind, Returns-imp, arith,
}
use mpitofino.Prelude.OrderedMap.{Map}
use mpitofino.StateRepository.{CollectiveChannel}
use mpitofino.AsicDriver.Tables.{
  Key, agg_values, state_bitmaps_low, state_bitmaps_high, Data, register_value, unit_selector_table,
  check_complete_table, output_address_table, roce_ack_reflector_table, choose_action_table,
  pre_mgid_table, pre_node_table, register_table, table_of, all_pipes, Switch, IsLawful, Written,
  Returns-checked,
}
use mpitofino.AsicDriver.Plan.{recirc_pipe}
use mpitofino.AsicDriver.Sync.{
  collect_nodes, collect_units, clean_table, clean_pipe, clean_actions, clean_groups, set_register,
  clear_values, clear_indices, clear_units, delete_excess,
}
use mpitofino.AsicDriver.Sweeping.{
  Trims, Trims-refl, Trims-trans, Cleared, Cleared-Trims, clean_table-Cleared,
}

module _ (S : Switch) (L : IsLawful S) (rcs : List CollectiveChannel) where
  -- A step that only trims the tables, and what it leaves.
  abbrev Step : (S.State → Type 0) → S.State → Result S.State → Type 0
  Step P s r = Returns (λ s'. Trims S rcs s s' × P s') r

  -- Two steps in a row: what the first gives survives the second.
  Step-then :
      (P Q : S.State → Type 0) (s : S.State) (m : Result S.State) (f : S.State → Result S.State)
      → ((a b : S.State) → Trims S rcs a b → P a → P b)
      → Step P s m
      → ((a : S.State) → Step Q a (f a))
      → Step (λ s'. P s' × Q s') s (m >>= f)
  Step-then P Q s m f stable h k =
      Returns-bind (λ s'. Trims S rcs s s' × P s') (λ s'. Trims S rcs s s' × (P s' × Q s')) m f h
        (λ a p.
          Returns-imp (λ s'. Trims S rcs a s' × Q s') (λ s'. Trims S rcs s s' × (P s' × Q s')) (f a)
            (k a) (λ b q. (Trims-trans S rcs s a b p.0 q.0, (stable a b q.0 p.1, q.1))))

  -- What `clean_pipe` leaves on a pipe.
  abbrev pub PipeCleared : ℕ → S.State → Type 0
  PipeCleared pipe s =
      ((Cleared S rcs [] pipe unit_selector_table s × Cleared S rcs [] pipe check_complete_table s)
        × Cleared S rcs [] (recirc_pipe pipe) output_address_table s)
      × Cleared S rcs [] pipe roce_ack_reflector_table s

  PipeCleared-Trims :
      (pipe : ℕ) (a b : S.State) → Trims S rcs a b → PipeCleared pipe a → PipeCleared pipe b
  PipeCleared-Trims pipe a b h p = (
    (
      (
        Cleared-Trims S rcs [] pipe unit_selector_table a b (λ e. cc) h p.0.0.0,
        Cleared-Trims S rcs [] pipe check_complete_table a b (λ e. cc) h p.0.0.1,
      ),
      Cleared-Trims S rcs [] (recirc_pipe pipe) output_address_table a b (λ e. cc) h p.0.1,
    ),
    Cleared-Trims S rcs [] pipe roce_ack_reflector_table a b (λ e. cc) h p.1,
  )

  clean_pipe-PipeCleared :
      (pipe : ℕ) (s : S.State) → Step (PipeCleared pipe) s (clean_pipe S (clean_table S) rcs pipe s)
  unfolding clean_pipe
  clean_pipe-PipeCleared pipe s =
      Step-then
        (λ x.
          (Cleared S rcs [] pipe unit_selector_table x
            × Cleared S rcs [] pipe check_complete_table x)
          × Cleared S rcs [] (recirc_pipe pipe) output_address_table x)
        (λ x. Cleared S rcs [] pipe roce_ack_reflector_table x) s _ _
        (λ a b h p. (
          (
            Cleared-Trims S rcs [] pipe unit_selector_table a b (λ e. cc) h p.0.0,
            Cleared-Trims S rcs [] pipe check_complete_table a b (λ e. cc) h p.0.1,
          ),
          Cleared-Trims S rcs [] (recirc_pipe pipe) output_address_table a b (λ e. cc) h p.1,
        ))
        (Step-then
          (λ x.
            Cleared S rcs [] pipe unit_selector_table x
            × Cleared S rcs [] pipe check_complete_table x)
          (λ x. Cleared S rcs [] (recirc_pipe pipe) output_address_table x) s _ _
          (λ a b h p. (
            Cleared-Trims S rcs [] pipe unit_selector_table a b (λ e. cc) h p.0,
            Cleared-Trims S rcs [] pipe check_complete_table a b (λ e. cc) h p.1,
          ))
          (Step-then (λ x. Cleared S rcs [] pipe unit_selector_table x)
            (λ x. Cleared S rcs [] pipe check_complete_table x) s _ _
            (λ a b h p. Cleared-Trims S rcs [] pipe unit_selector_table a b (λ e. cc) h p)
            (clean_table-Cleared S rcs L [] pipe unit_selector_table s)
            (λ a. clean_table-Cleared S rcs L [] pipe check_complete_table a))
          (λ a. clean_table-Cleared S rcs L [] (recirc_pipe pipe) output_address_table a))
        (λ a. clean_table-Cleared S rcs L [] pipe roce_ack_reflector_table a)

  -- The stages below a bound.
  abbrev pub ActionsCleared : ℕ → ℕ → S.State → Type 0
  ActionsCleared j left s =
      (i : ℕ) → j ≤ i → i < j + left → Cleared S rcs [] all_pipes (choose_action_table i) s

  clean_actions-ActionsCleared :
      (left j : ℕ) (s : S.State)
      → Step (ActionsCleared j left) s (clean_actions S (clean_table S) rcs left j s)
  unfolding clean_actions
  clean_actions-ActionsCleared zero j s = (Trims-refl S rcs s, λ i lo hi. absurd (omega arith))
  clean_actions-ActionsCleared (suc left) j s =
      Returns-imp
        (λ s'.
          Trims S rcs s s'
          × (Cleared S rcs [] all_pipes (choose_action_table j) s'
              × ActionsCleared (j + 1) left s'))
        (λ s'. Trims S rcs s s' × ActionsCleared j (suc left) s')
        (clean_actions S (clean_table S) rcs (suc left) j s)
        (Step-then (λ x. Cleared S rcs [] all_pipes (choose_action_table j) x)
          (ActionsCleared (j + 1) left) s _ _
          (λ a b h p. Cleared-Trims S rcs [] all_pipes (choose_action_table j) a b (λ e. cc) h p)
          (clean_table-Cleared S rcs L [] all_pipes (choose_action_table j) s)
          (λ a. clean_actions-ActionsCleared left (j + 1) a))
        (λ s' h. (h.0, λ i lo hi. here_or_later s' h.1.0 h.1.1 i lo hi))
    where
      here_or_later :
          (s' : S.State)
          → Cleared S rcs [] all_pipes (choose_action_table j) s'
          → ActionsCleared (j + 1) left s'
          → ActionsCleared j (suc left) s'
      here_or_later s' here later i lo hi = elim (ℕ_discrete i j) [
        | yes e ↦ rw e here
        | no n ↦ later i (omega arith) (omega arith)
      ]

  ActionsCleared-Trims :
      (j left : ℕ) (a b : S.State)
      → Trims S rcs a b
      → ActionsCleared j left a
      → ActionsCleared j left b
  ActionsCleared-Trims j left a b h c i lo hi =
      Cleared-Trims S rcs [] all_pipes (choose_action_table i) a b (λ e. cc) h (c i lo hi)

  abbrev pub GroupsCleared : S.State → Type 0
  GroupsCleared s = Cleared S rcs [] all_pipes pre_mgid_table s

  clean_groups-GroupsCleared :
      (s : S.State) → Step GroupsCleared s (clean_groups S (clean_table S) rcs s)
  unfolding clean_groups
  clean_groups-GroupsCleared s =
      let nodes = collect_nodes rcs (S.entries s all_pipes pre_mgid_table) in
      Returns-imp
        (λ s'.
          Trims S rcs s s' × (GroupsCleared s' × Cleared S rcs nodes all_pipes pre_node_table s'))
        (λ s'. Trims S rcs s s' × GroupsCleared s') (clean_groups S (clean_table S) rcs s)
        (Step-then GroupsCleared (λ x. Cleared S rcs nodes all_pipes pre_node_table x) s _ _
          (λ a b h p. Cleared-Trims S rcs [] all_pipes pre_mgid_table a b (λ e. cc) h p)
          (clean_table-Cleared S rcs L [] all_pipes pre_mgid_table s)
          (λ a. clean_table-Cleared S rcs L nodes all_pipes pre_node_table a))
        (λ s' h. (h.0, h.1.0))

  -- A write to a register changes no table.
  Trims-Written :
      (key : Key) (value : Data) (s s' : S.State)
      → table_of key ≡ register_table
      → Written S s all_pipes key value s'
      → Trims S rcs s s'
  Trims-Written key value s s' t w = record {
    less = λ q j d n e. sym (w.elsewhere q j (inr (λ k. n (ap table_of k ∙ t)))) ∙ e;
    kept = λ q j d n st e. w.elsewhere q j (inr (λ k. n (ap table_of k ∙ t))) ∙ e;
  }

  abbrev Quiet : S.State → Result S.State → Type 0
  Quiet s r = Returns (Trims S rcs s) r

  set_register-Quiet :
      (key : Key) (s : S.State) → table_of key ≡ register_table → Quiet s (set_register S key s)
  set_register-Quiet key s t =
      Returns-imp (Written S s all_pipes key (register_value 0)) (Trims S rcs s)
        (set_register S key s)
        (Returns-checked S (Written S s all_pipes key (register_value 0)) _
          (L.mod_register s all_pipes key (register_value 0) t))
        (λ s' w. Trims-Written key (register_value 0) s s' t w)

  Quiet-then :
      (s : S.State) (m : Result S.State) (f : S.State → Result S.State)
      → Quiet s m
      → ((a : S.State) → Quiet a (f a))
      → Quiet s (m >>= f)
  Quiet-then s m f h k = Returns-bind (Trims S rcs s) (Trims S rcs s) m f h (λ a p.
      Returns-imp (Trims S rcs a) (Trims S rcs s) (f a) (k a) (λ b q. Trims-trans S rcs s a b p q))

  clear_values-Quiet : (i left j : ℕ) (s : S.State) → Quiet s (clear_values S i left j s)
  unfolding clear_values
  clear_values-Quiet i zero j s = Trims-refl S rcs s
  clear_values-Quiet i (suc left) j s =
      Quiet-then s _ _ (set_register-Quiet (agg_values j i) s refl)
        (λ a. clear_values-Quiet i left (j + 1) a)

  clear_indices-Quiet : (left i : ℕ) (s : S.State) → Quiet s (clear_indices S left i s)
  unfolding clear_indices
  clear_indices-Quiet zero i s = Trims-refl S rcs s
  clear_indices-Quiet (suc left) i s =
      Quiet-then s _ _
        (Quiet-then s _ _
          (Quiet-then s _ _ (clear_values-Quiet i 32 0 s)
            (λ a. set_register-Quiet (state_bitmaps_low i) a refl))
          (λ a. set_register-Quiet (state_bitmaps_high i) a refl))
        (λ a. clear_indices-Quiet left (i + 1) a)

  clear_units-Quiet : (units : Map (Unit {0})) (s : S.State) → Quiet s (clear_units S units s)
  unfolding clear_units
  clear_units-Quiet [] s = Trims-refl S rcs s
  clear_units-Quiet ((unit, _) ∷ units) s =
      Quiet-then s _ _ (clear_indices-Quiet 256 (unit * 256) s) (λ a. clear_units-Quiet units a)

  -- All of it.
  abbrev pub AllCleared : S.State → Type 0
  AllCleared s =
      PipeCleared 0 s × (((PipeCleared 3 s × ActionsCleared 0 32 s) × GroupsCleared s) × Unit {0})

  pub delete_excess-AllCleared :
      (s : S.State) → Step AllCleared s (delete_excess S (clean_table S) rcs s)
  unfolding delete_excess
  delete_excess-AllCleared s =
      Step-then (PipeCleared 0)
        (λ x. ((PipeCleared 3 x × ActionsCleared 0 32 x) × GroupsCleared x) × Unit {0}) s _ _
        (PipeCleared-Trims 0) (clean_pipe-PipeCleared 0 s)
        (λ s1.
          Step-then (λ x. (PipeCleared 3 x × ActionsCleared 0 32 x) × GroupsCleared x)
            (λ x. Unit {0}) s1 _ _
            (λ a b h p. (
              (PipeCleared-Trims 3 a b h p.0.0, ActionsCleared-Trims 0 32 a b h p.0.1),
              Cleared-Trims S rcs [] all_pipes pre_mgid_table a b (λ e. cc) h p.1,
            ))
            (Step-then (λ x. PipeCleared 3 x × ActionsCleared 0 32 x) GroupsCleared s1 _ _
              (λ a b h p. (PipeCleared-Trims 3 a b h p.0, ActionsCleared-Trims 0 32 a b h p.1))
              (Step-then (PipeCleared 3) (ActionsCleared 0 32) s1 _ _ (PipeCleared-Trims 3)
                (clean_pipe-PipeCleared 3 s1) (λ a. clean_actions-ActionsCleared 32 0 a))
              (λ a. clean_groups-GroupsCleared a))
            (λ a.
              Returns-imp (Trims S rcs a) (λ b. Trims S rcs a b × Unit {0}) _
                (clear_units-Quiet
                  (collect_units rcs (S.entries s1 3 unit_selector_table)
                    (collect_units rcs (S.entries s 0 unit_selector_table) []))
                  a)
                (λ b q. (q, tt))))
