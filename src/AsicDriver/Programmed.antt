-- ===== src/AsicDriver/Programmed.antt =====
-- What `on_st_repo_channels` has written when it comes to the deletions.
use native.Mathlib.Decide.{ℕ_discrete}
use mpitofino.Prelude.{
  ℕ, zero, suc, ◌+◌, ◌≡◌, ◌≤◌, ◌<◌, refl, ap, ◌∙◌, Bool, true, false, inl, inr, Option, some, List,
  [], ◌∷◌, ◌++◌, map, if◌then◌else◌, Result, ok, err, ◌>>=◌, runtime_error, Returns, Returns-bind,
  Returns-imp, All, All-append, Bool-cases, arith,
}
use mpitofino.StateRepository.{CollectiveChannel}
use mpitofino.AsicDriver.Tables.{
  Key, Key-discrete, Data, Switch, IsLawful, Written, check_bf_status, table_add_or_mod,
  table_add_or_mod-Written,
}
use mpitofino.AsicDriver.Plan.{
  Write, Bitmaps, first_bitmaps, all_nodes_known, GroupPort, group_ports, node_write, group_writes,
  has_clients, have_connected_pipes, port_write, advance_at, downstream_writes, complete_writes,
  action_writes, closing_writes, all_complete_writes, channel_writes,
}
use mpitofino.AsicDriver.Workers.{
  Tabular, OnSwitch, workers, limit, Counts, first_bitmaps-Counts, insert_participants-Counts,
  insert_participants-runtime_error,
}
use mpitofino.AsicDriver.Sync.{write_entries}

abbrev pub overwritten_if : {P Q : Type 0} → Dec P → Dec Q → Data → Option Data → Option Data
overwritten_if (yes _) (yes _) value old = some value
overwritten_if (yes _) (no _) value old = old
overwritten_if (no _) same_key value old = old

-- The entry of a place after some writes, of which the last to the place counts.
abbrev pub overwritten : Write → ℕ → Key → Option Data → Option Data
overwritten w q j old = overwritten_if (ℕ_discrete q w.pipe) (Key-discrete j w.key) w.value old

unfoldable pub last_written : List Write → ℕ → Key → Option Data → Option Data
last_written [] q j old = old
last_written (w ∷ ws) q j old = last_written ws q j (overwritten w q j old)

-- All writes, channel by channel; the channels that wait for clients are passed over.
unfoldable pub plan : List CollectiveChannel → Result (List Write)
plan [] = ok []
plan (rc ∷ rcs) =
    if all_nodes_known rc.participants
    then (channel_writes rc >>= λ ws. plan rcs >>= λ rest. ok (ws ++ rest))
    else plan rcs

module _ (S : Switch) (L : IsLawful S) where
  Written-overwritten :
      (s s' : S.State) (w : Write) (q : ℕ) (j : Key) (d : Dec (q ≡ w.pipe)) (e : Dec (j ≡ w.key))
      → Written S s w.pipe w.key w.value s'
      → S.get s' q j ≡ overwritten_if d e w.value (S.get s q j)
  Written-overwritten s s' w q j (yes p) (yes k) h = rw (p, k) h.here
  Written-overwritten s s' w q j (yes p) (no n) h = h.elsewhere q j (inr n)
  Written-overwritten s s' w q j (no n) e h = h.elsewhere q j (inl n)

  -- The run-time library sees all writes, in their order.
  pub write_entries-last_written :
      (ws : List Write) (s : S.State)
      → All Tabular ws
      → Returns
          (λ s'. (q : ℕ) (j : Key) → S.get s' q j ≡ last_written ws q j (S.get s q j))
          (write_entries S ws s)
  unfolding write_entries last_written
  write_entries-last_written [] s h = λ q j. refl
  write_entries-last_written (w ∷ ws) s h =
      Returns-bind (Written S s w.pipe w.key w.value)
        (λ s'. (q : ℕ) (j : Key) → S.get s' q j ≡ last_written (w ∷ ws) q j (S.get s q j))
        (check_bf_status (table_add_or_mod S s w.pipe w.key w.value)) _
        (table_add_or_mod-Written S L s w.pipe w.key w.value h.0)
        (λ s1 g.
          Returns-imp (λ s'. (q : ℕ) (j : Key) → S.get s' q j ≡ last_written ws q j (S.get s1 q j))
            (λ s'. (q : ℕ) (j : Key) → S.get s' q j ≡ last_written (w ∷ ws) q j (S.get s q j)) _
            (write_entries-last_written ws s1 h.1)
            (λ s' k q j.
              k q j
              ∙ ap (last_written ws q j)
                  (Written-overwritten s s1 w q j (ℕ_discrete q w.pipe) (Key-discrete j w.key) g)))

module _ (rc : CollectiveChannel) where
  All-node_writes : (gs : List GroupPort) → All Tabular (map node_write gs)
  All-node_writes [] = tt
  All-node_writes (g ∷ gs) = ((λ e. cc), All-node_writes gs)

  All-group_writes : All Tabular (group_writes rc)
  unfolding group_writes
  All-group_writes =
      All-append Tabular (map node_write (group_ports rc 1 rc.participants)) _
        (All-node_writes (group_ports rc 1 rc.participants)) ((λ e. cc), tt)

  All-downstream_writes :
      (left pipe : ℕ) (bs : Bitmaps) → All Tabular (downstream_writes rc left pipe bs).0
  unfolding downstream_writes
  All-downstream_writes zero pipe bs = tt
  All-downstream_writes (suc left) pipe bs = elim (Bool-cases (has_clients bs pipe)) [
    | inl e ↦ rw e ((λ e. cc), All-downstream_writes left (pipe + 1) (advance_at 3 bs))
    | inr e ↦ rw e (All-downstream_writes left (pipe + 1) bs)
  ]

  All-complete_writes :
      (connected : Bool) (bs : Bitmaps) (pipe : ℕ)
      → All Tabular (complete_writes rc connected bs pipe)
  unfolding complete_writes
  All-complete_writes connected bs pipe = elim (Bool-cases (has_clients bs pipe)) [
    | inl e ↦ rw e ((λ e. cc), ((λ e. cc), tt))
    | inr e ↦ rw e tt
  ]

  All-action_writes : (left i : ℕ) → All Tabular (action_writes rc left i)
  unfolding action_writes
  All-action_writes zero i = tt
  All-action_writes (suc left) i = ((λ e. cc), ((λ e. cc), All-action_writes left (i + 1)))

  All-all_complete_writes :
      (connected : Bool) (bs : Bitmaps) → All Tabular (all_complete_writes rc connected bs)
  All-all_complete_writes connected bs =
      All-append Tabular _ (complete_writes rc connected bs 3)
        (All-append Tabular _ (complete_writes rc connected bs 2)
          (All-append Tabular (complete_writes rc connected bs 0)
            (complete_writes rc connected bs 1) (All-complete_writes connected bs 0)
            (All-complete_writes connected bs 1))
          (All-complete_writes connected bs 2))
        (All-complete_writes connected bs 3)

  All-closing_writes : (bs : Bitmaps) → All Tabular (closing_writes rc bs)
  unfolding closing_writes
  All-closing_writes bs = elim (Bool-cases (have_connected_pipes bs)) [
    | inl e ↦
        let down = downstream_writes rc 3 0 bs in
        let port = port_write rc 452 down.1 ∷ [] in
        rw e (
          finished (down.0 ++ port) true down.1
            (All-append Tabular down.0 port (All-downstream_writes 3 0 bs) ((λ k. cc), tt)))
    | inr e ↦ rw e (finished [] false bs tt)
  ]
    where
      finished :
          (ws : List Write) (connected : Bool) (b : Bitmaps)
          → All Tabular ws
          → All Tabular (ws ++ all_complete_writes rc connected b ++ action_writes rc 32 0)
      finished ws connected b h =
          All-append Tabular (ws ++ all_complete_writes rc connected b) (action_writes rc 32 0)
            (All-append Tabular ws (all_complete_writes rc connected b) h
              (All-all_complete_writes connected b))
            (All-action_writes 32 0)

  -- The switch has room for the clients.
  pub record Fits : Type 0 where
    pub on_switch : OnSwitch rc.participants
    pub few : (q : ℕ) → q < 4 → workers q rc.participants ≤ limit q

  pub channel_writes-Tabular : Fits → Returns (All Tabular) (channel_writes rc)
  unfolding channel_writes
  channel_writes-Tabular h =
      Returns-bind (λ r. Counts r.1 (λ q. 0 + workers q rc.participants) × All Tabular r.0)
        (All Tabular) _ _
        (insert_participants-Counts rc 1 first_bitmaps (λ q. 0) rc.participants first_bitmaps-Counts
          h.on_switch (λ q lq. omega (arith, h.few q lq)))
        (λ r g.
          All-append Tabular (group_writes rc ++ r.0) (closing_writes rc r.1)
            (All-append Tabular (group_writes rc) r.0 All-group_writes g.1)
            (All-closing_writes r.1))

  -- A pipe with more clients than its bitmap has bits for is refused.
  pub channel_writes-runtime_error :
      (q : ℕ)
      → OnSwitch rc.participants
      → q < 4
      → limit q < workers q rc.participants
      → channel_writes rc ≡ err runtime_error
  unfolding channel_writes
  channel_writes-runtime_error q on lq many =
      rw
        (insert_participants-runtime_error rc 1 first_bitmaps (λ p. 0) rc.participants q
          first_bitmaps-Counts on lq (omega (arith, many)))
        refl

-- Every channel whose clients are all known fits.
abbrev pub AllFit : List CollectiveChannel → Type 0
AllFit = All (λ (rc : CollectiveChannel). all_nodes_known rc.participants ≡ true → Fits rc)

pub plan-Tabular : (rcs : List CollectiveChannel) → AllFit rcs → Returns (All Tabular) (plan rcs)
unfolding plan
plan-Tabular [] h = tt
plan-Tabular (rc ∷ rcs) h = elim (Bool-cases (all_nodes_known rc.participants)) [
  | inr e ↦ rw e (plan-Tabular rcs h.1)
  | inl e ↦ rw e (
      Returns-bind (All Tabular) (All Tabular) (channel_writes rc) _
        (channel_writes-Tabular rc (h.0 e))
        (λ ws g.
          Returns-bind (All Tabular) (All Tabular) (plan rcs) _ (plan-Tabular rcs h.1)
            (λ rest k. All-append Tabular ws rest g k)))
]
