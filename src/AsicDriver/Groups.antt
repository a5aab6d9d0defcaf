-- ===== src/AsicDriver/Groups.antt =====
-- The nodes of a channel's multicast group, by their numbers.
use mpitofino.Prelude.{
  ℕ, zero, suc, ◌+◌, ◌-◌, ◌*◌, ◌/◌, ◌%◌, ◌≡◌, ◌≤◌, refl, sym, ap, ◌∙◌, List, [], ◌∷◌, map, ◌==◌,
  if◌then◌else◌, Bool-cases, inl, inr, arith,
}
use mpitofino.Prelude.OrderedMap.{Map}
use mpitofino.StateRepository.{CollectiveChannel, Participant}
use mpitofino.AsicDriver.Plan.{GroupPort, group_ports, pid_of}

abbrev pub rid_of : GroupPort → ℕ
rid_of g = g.rid

-- So many numbers from `first` on.
unfoldable pub consecutive : ℕ → ℕ → List ℕ
consecutive first zero = []
consecutive first (suc n) = first ∷ consecutive (first + 1) n

-- The clients whose ports are on the pipes 0 and 3, which are those with a port for recirculation.
unfoldable pub outer_clients : Map Participant → ℕ
outer_clients [] = 0
outer_clients ((_, part) ∷ ps) =
    let rest = outer_clients ps in
    if part.switch_port / 128 % 4 == 0
    then suc rest
    else if part.switch_port / 128 % 4 == 3
    then suc rest
    else rest

module _ (rc : CollectiveChannel) where
  abbrev pub first_node : ℕ → ℕ
  first_node pos = 4096 + 512 * (rc.agg_unit / 8) + (pos - 1)

  pub group_ports-pids :
      (pos : ℕ) (ps : Map Participant)
      → 1 ≤ pos
      → (map pid_of (group_ports rc pos ps) ≡ consecutive (first_node pos) (outer_clients ps))
        × (map rid_of (group_ports rc pos ps) ≡ consecutive pos (outer_clients ps))
  unfolding group_ports consecutive outer_clients
  group_ports-pids pos [] h = (refl, refl)
  group_ports-pids pos ((i, part) ∷ ps) h =
      let next = group_ports-pids (pos + 1) ps (omega arith) in
      let e : first_node (pos + 1) ≡ first_node pos + 1 = omega arith in
      elim (Bool-cases (part.switch_port / 128 % 4 == 0)) [
        | inl a ↦ rw a (
          ap (λ l. first_node pos ∷ l) (next.0 ∙ ap (λ n. consecutive n (outer_clients ps)) e),
          ap (λ l. pos ∷ l) next.1,
        )
        | inr a ↦ elim (Bool-cases (part.switch_port / 128 % 4 == 3)) [
          | inl b ↦
              rw (a, b)
                (
                  ap (λ l. first_node pos ∷ l)
                      (next.0 ∙ ap (λ n. consecutive n (outer_clients ps)) e),
                  ap (λ l. pos ∷ l) next.1,
                )
          | inr b ↦ rw (a, b) (group_ports-pids pos ps h)
        ]
      ]

-- Two channels with as many clients on the pipes 0 and 3, whose aggregation units are in the same
-- group of eight, have the same multicast nodes.
pub group_ports-shared_nodes :
    (a b : CollectiveChannel)
    → a.agg_unit / 8 ≡ b.agg_unit / 8
    → outer_clients a.participants ≡ outer_clients b.participants
    → map pid_of (group_ports a 1 a.participants) ≡ map pid_of (group_ports b 1 b.participants)
group_ports-shared_nodes a b e n =
    (group_ports-pids a 1 a.participants (omega arith)).0
    ∙ rw (e, n) (sym (group_ports-pids b 1 b.participants (omega arith)).0)
