-- ===== src/AsicDriver/Served/Plan.antt =====
-- The entries of one channel among the writes for all channels.
use mpitofino.Prelude.{
  ℕ, ◌≡◌, refl, sym, ap, subst, ◌∙◌, ◌⊎◌, true, inl, inr, Option, some, List, [], ◌∷◌, ◌++◌,
  ==-refl, ok, bind-ok, All, All-append, Bool-cases, arith,
}
use mpitofino.StateRepository.{CollectiveChannel}
use mpitofino.AsicDriver.Tables.{Key, Data}
use mpitofino.AsicDriver.Plan.{
  Write, all_nodes_known, mcast_grp, group_writes, action_writes, channel_writes,
}
use mpitofino.AsicDriver.Programmed.{last_written, plan}
use mpitofino.AsicDriver.Sync.{member, units_in_use, groups_in_use}
use mpitofino.AsicDriver.Served.Named.{Names, Named, All-imp, All-group_writes, All-action_writes}
use mpitofino.AsicDriver.Served.Written.{last_written-append, last_written-untouched}
use mpitofino.AsicDriver.Served.Channel.{channel_writes-Parts}

Names-Named :
    (rc : CollectiveChannel) (lo hi : ℕ) (ws : List Write)
    → All (Named rc lo hi) ws
    → All (λ w. Names rc w.key) ws
Names-Named rc lo hi ws = All-imp ws (λ w h. h.0)

channel_writes-Names :
    (rc : CollectiveChannel) (ws : List Write)
    → channel_writes rc ≡ ok ws
    → All (λ w. Names rc w.key) ws
channel_writes-Names rc ws h =
    let p = channel_writes-Parts rc ws h in
    let N : Write → Type 0 = λ w. Names rc w.key in
    let actions = action_writes rc 32 0 in
    subst (All N) (sym p.whole) (
      All-append N (group_writes rc ++ p.clients.0) (p.selectors ++ p.completions ++ actions)
        (All-append N (group_writes rc) p.clients.0
          (Names-Named rc 0 1 (group_writes rc) (All-group_writes rc))
          (Names-Named rc 2 4 p.clients.0 p.all_clients))
        (All-append N (p.selectors ++ p.completions) actions
          (All-append N p.selectors p.completions (Names-Named rc 2 2 p.selectors p.all_selectors)
            (Names-Named rc 5 5 p.completions p.all_completions))
          (Names-Named rc 6 6 actions (All-action_writes rc 32 0))))

-- The channel writes nothing at the key.
abbrev pub Foreign : Key → CollectiveChannel → Type 0
Foreign j rc = all_nodes_known rc.participants ≡ true → ¬ Names rc j

-- The channel is in the list, and no other one writes at the key.
abbrev pub IsOnly : CollectiveChannel → Key → List CollectiveChannel → Type 0
IsOnly rc j [] = ⊥
IsOnly rc j (x ∷ xs) = ((x ≡ rc) × All (Foreign j) xs) ⊎ (Foreign j x × IsOnly rc j xs)

foreign_writes :
    (rc : CollectiveChannel) (ws : List Write) (q : ℕ) (j : Key) (old : Option Data)
    → channel_writes rc ≡ ok ws
    → ¬ Names rc j
    → last_written ws q j old ≡ old
foreign_writes rc ws q j old h n =
    last_written-untouched ws q j old
      (All-imp ws (λ w named e. n (subst (Names rc) e named)) (channel_writes-Names rc ws h))

plan-Foreign :
    (rcs : List CollectiveChannel) (ws : List Write) (q : ℕ) (j : Key) (old : Option Data)
    → plan rcs ≡ ok ws
    → All (Foreign j) rcs
    → last_written ws q j old ≡ old
unfolding plan
plan-Foreign [] ws q j old h f = let e : [] ≡ ws = cc (h) in rw (← e) (unfold last_written in refl)
plan-Foreign (rc ∷ rcs) ws q j old h f = elim (Bool-cases (all_nodes_known rc.participants)) [
  | inr e ↦ plan-Foreign rcs ws q j old (rw e at h) f.1
  | inl e ↦
      let (vs, (first, g)) = bind-ok (channel_writes rc) _ ws (rw e at h) in
      let (rest, (later, same)) = bind-ok (plan rcs) (λ rest. ok (vs ++ rest)) ws g in
      let whole : vs ++ rest ≡ ws = cc (same) in
      rw (← whole) (
        last_written-append vs rest q j old
        ∙ plan-Foreign rcs rest q j _ later f.1
        ∙ foreign_writes rc vs q j old first (f.0 e))
]

module _ (rc : CollectiveChannel) (known : all_nodes_known rc.participants ≡ true) (q : ℕ) (j : Key)
    (v : Data) where
  -- What the channel's own writes leave at the key, all writes leave.
  pub plan-own :
      (rcs : List CollectiveChannel) (ws : List Write) (old : Option Data)
      → plan rcs ≡ ok ws
      → IsOnly rc j rcs
      → ((vs : List Write)
          → channel_writes rc ≡ ok vs
          → (o : Option Data) → last_written vs q j o ≡ some v)
      → last_written ws q j old ≡ some v
  unfolding plan
  plan-own [] ws old h o own = absurd o
  plan-own (x ∷ rcs) ws old h (inl o) own =
      let x_known : all_nodes_known x.participants ≡ true =
        subst (λ (y : CollectiveChannel). all_nodes_known y.participants ≡ true) (sym o.0) known in
      let (vs, (first, g)) = bind-ok (channel_writes x) _ ws (rw x_known at h) in
      let (rest, (later, same)) = bind-ok (plan rcs) (λ rest. ok (vs ++ rest)) ws g in
      let whole : vs ++ rest ≡ ws = cc (same) in
      rw (← whole) (
        last_written-append vs rest q j old
        ∙ plan-Foreign rcs rest q j _ later o.1
        ∙ own vs (ap channel_writes (sym o.0) ∙ first) old)
  plan-own (x ∷ rcs) ws old h (inr o) own = elim (Bool-cases (all_nodes_known x.participants)) [
    | inr e ↦ plan-own rcs ws old (rw e at h) o.1 own
    | inl e ↦
        let (vs, (first, g)) = bind-ok (channel_writes x) _ ws (rw e at h) in
        let (rest, (later, same)) = bind-ok (plan rcs) (λ rest. ok (vs ++ rest)) ws g in
        let whole : vs ++ rest ≡ ws = cc (same) in
        rw (← whole) (last_written-append vs rest q j old ∙ plan-own rcs rest _ later o.1 own)
  ]

  -- The channel's numbers are in use.
  pub member-units_in_use :
      (rcs : List CollectiveChannel)
      → IsOnly rc j rcs
      → (member rc.agg_unit (units_in_use rcs) ≡ true)
        × (member (mcast_grp rc) (groups_in_use rcs) ≡ true)
  unfolding member units_in_use groups_in_use
  member-units_in_use [] o = absurd o
  member-units_in_use (x ∷ rcs) (inl o) =
      rw (o.0, known, ==-refl rc.agg_unit, ==-refl (mcast_grp rc)) (refl, refl)
  member-units_in_use (x ∷ rcs) (inr o) =
      let (a, b) = member-units_in_use rcs o.1 in
      elim (Bool-cases (all_nodes_known x.participants)) [
        | inr e ↦ rw e (a, b)
        | inl e ↦ rw (e, a, b) (ground arith, ground arith)
      ]
