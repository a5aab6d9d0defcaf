-- ===== src/AsicDriver/Served/Written.antt =====
-- What the writes for a channel leave at its own keys.
use native.Mathlib.Decide.{ℕ_discrete}
use mpitofino.Prelude.{
  ℕ, zero, suc, ◌+◌, ◌≡◌, ◌≢◌, ◌≤◌, ◌<◌, refl, sym, ap, ◌∙◌, ◌⊎◌, Bool, true, false, inl, inr,
  Option, some, List, [], ◌∷◌, ◌++◌, map, All, arith,
}
use mpitofino.StateRepository.{CollectiveChannel}
use mpitofino.AsicDriver.Tables.{
  Key, Key-discrete, Data, choose_action, pre_mgid, agg_int_32_add, agg_int_32_clear, all_pipes,
  multicast_group,
}
use mpitofino.AsicDriver.Plan.{
  Write, node_write, group_ports, group_writes, mcast_grp, action_writes, pid_of, zero_of,
}
use mpitofino.AsicDriver.Programmed.{overwritten, overwritten_if, last_written}
use mpitofino.AsicDriver.Served.Named.{Named, rank, All-imp}

pub last_written-append :
    (ws vs : List Write) (q : ℕ) (j : Key) (old : Option Data)
    → last_written (ws ++ vs) q j old ≡ last_written vs q j (last_written ws q j old)
unfolding last_written
last_written-append [] vs q j old = refl
last_written-append (w ∷ ws) vs q j old = last_written-append ws vs q j (overwritten w q j old)

pub overwritten_other :
    (w : Write) (q : ℕ) (j : Key) (old : Option Data) → w.key ≢ j → overwritten w q j old ≡ old
overwritten_other w q j old n = decided (ℕ_discrete q w.pipe) (Key-discrete j w.key)
  where
    decided : (d : Dec (q ≡ w.pipe)) (e : Dec (j ≡ w.key)) → overwritten_if d e w.value old ≡ old
    decided (no _) e = refl
    decided (yes _) (no _) = refl
    decided (yes _) (yes same) = absurd (n (sym same))

pub overwritten_here :
    (w : Write) (old : Option Data) → overwritten w w.pipe w.key old ≡ some w.value
overwritten_here w old = decided (ℕ_discrete w.pipe w.pipe) (Key-discrete w.key w.key)
  where
    decided :
        (d : Dec (w.pipe ≡ w.pipe)) (e : Dec (w.key ≡ w.key))
        → overwritten_if d e w.value old ≡ some w.value
    decided (no n) e = absurd (n refl)
    decided (yes _) (no n) = absurd (n refl)
    decided (yes _) (yes _) = refl

-- Writes to other keys.
pub last_written-untouched :
    (ws : List Write) (q : ℕ) (j : Key) (old : Option Data)
    → All (λ w. w.key ≢ j) ws
    → last_written ws q j old ≡ old
unfolding last_written
last_written-untouched [] q j old h = refl
last_written-untouched (w ∷ ws) q j old h =
    ap (last_written ws q j) (overwritten_other w q j old h.0)
    ∙ last_written-untouched ws q j old h.1

-- Writes to other tables.
pub last_written-rank :
    (rc : CollectiveChannel) (lo hi : ℕ) (ws : List Write) (q : ℕ) (j : Key) (old : Option Data)
    → All (Named rc lo hi) ws
    → (rank j < lo) ⊎ (hi < rank j)
    → last_written ws q j old ≡ old
last_written-rank rc lo hi ws q j old h o =
    last_written-untouched ws q j old (All-imp ws (λ w g e. outside w g.1 g.2 (ap rank e) o) h)
  where
    outside :
        (w : Write)
        → lo ≤ rank w.key
        → rank w.key ≤ hi
        → rank w.key ≡ rank j
        → (rank j < lo) ⊎ (hi < rank j)
        → ⊥
    outside w a b e (inl c) = omega arith
    outside w a b e (inr c) = omega arith

abbrev pub action_of : Bool → Data
action_of true = agg_int_32_clear
action_of false = agg_int_32_add

module _ (rc : CollectiveChannel) where
  stage_lem :
      (i : ℕ) (clear : Bool) (old : Option Data)
      → last_written
          (record {
            pipe = all_pipes;
            key = choose_action i rc.agg_unit false;
            value = agg_int_32_add;
          }
            ∷ record {
              pipe = all_pipes;
              key = choose_action i rc.agg_unit true;
              value = agg_int_32_clear;
            }
            ∷ [])
          all_pipes
          (choose_action i rc.agg_unit clear)
          old
        ≡ some (action_of clear)
  unfolding last_written
  stage_lem i true old =
      overwritten_here
        (record {
          pipe = all_pipes;
          key = choose_action i rc.agg_unit true;
          value = agg_int_32_clear;
        })
        _
  stage_lem i false old =
      overwritten_other
        (record {
          pipe = all_pipes;
          key = choose_action i rc.agg_unit true;
          value = agg_int_32_clear;
        })
        all_pipes (choose_action i rc.agg_unit false) _ (λ e. cc)
      ∙ overwritten_here
          (record {
            pipe = all_pipes;
            key = choose_action i rc.agg_unit false;
            value = agg_int_32_add;
          })
          old

  later_stages :
      (i k left unit : ℕ) (clear : Bool)
      → i < k
      → All (λ w. w.key ≢ choose_action i unit clear) (action_writes rc left k)
  unfolding action_writes
  later_stages i k zero unit clear h = tt
  later_stages i k (suc left) unit clear h = (
    λ e. absurd (omega (arith, stage_inj e)),
    (
      λ e. absurd (omega (arith, stage_inj e)),
      later_stages i (k + 1) left unit clear (omega arith),
    ),
  )
    where
      stage_inj : {b : Bool} → choose_action k rc.agg_unit b ≡ choose_action i unit clear → k ≡ i
      stage_inj e = cc

  -- Every stage has both actions.
  pub last_written-action_writes :
      (left k i : ℕ) (clear : Bool) (old : Option Data)
      → k ≤ i
      → i < k + left
      → last_written (action_writes rc left k) all_pipes (choose_action i rc.agg_unit clear) old
        ≡ some (action_of clear)
  last_written-action_writes zero k i clear old a b = absurd (omega arith)
  last_written-action_writes (suc left) k i clear old a b = elim (ℕ_discrete k i) [
    | yes same ↦
        let j = choose_action i rc.agg_unit clear in
        let mid = last_written (stage_writes k) all_pipes j old in
        split k left j old
        ∙ last_written-untouched (action_writes rc left (k + 1)) all_pipes j mid
            (later_stages i (k + 1) left rc.agg_unit clear (omega arith))
        ∙ rw same (stage_lem i clear old)
    | no other ↦
        let j = choose_action i rc.agg_unit clear in
        split k left j old
        ∙ last_written-action_writes left (k + 1) i clear
            (last_written (stage_writes k) all_pipes j old) (omega arith) (omega arith)
  ]
    where
      stage_writes : ℕ → List Write
      stage_writes k =
          record {
            pipe = all_pipes;
            key = choose_action k rc.agg_unit false;
            value = agg_int_32_add;
          }
          ∷ record {
            pipe = all_pipes;
            key = choose_action k rc.agg_unit true;
            value = agg_int_32_clear;
          }
          ∷ []

      split :
          (k left : ℕ) (j : Key) (old : Option Data)
          → last_written (action_writes rc (suc left) k) all_pipes j old
            ≡ last_written
                (action_writes rc left (k + 1))
                all_pipes
                j
                (last_written (stage_writes k) all_pipes j old)
      split k left j old =
          unfold action_writes in
          last_written-append (stage_writes k) (action_writes rc left (k + 1)) all_pipes j old

  -- The channel's multicast group.
  pub last_written-group_writes :
      (old : Option Data)
      → last_written (group_writes rc) all_pipes (pre_mgid (mcast_grp rc)) old
        ≡ some (
            multicast_group
              (map pid_of (group_ports rc 1 rc.participants))
              false
              (map zero_of (group_ports rc 1 rc.participants)))
  unfolding group_writes
  last_written-group_writes old =
      let ports = group_ports rc 1 rc.participants in
      let w : Write = record {
        pipe = all_pipes;
        key = pre_mgid (mcast_grp rc);
        value = multicast_group (map pid_of ports) false (map zero_of ports);
      } in
      last_written-append (map node_write ports) (w ∷ []) all_pipes (pre_mgid (mcast_grp rc)) old
      ∙ unfold last_written in overwritten_here w _
