-- ===== src/StateRepository/Updates.antt =====
-- The operations on channels, each on all its branches.
use mathlib.Core.List.{reverse}
use mpitofino.Prelude.{
  ℕ, ◌≡◌, ◌≢◌, ◌⊎◌, inl, inr, refl, sym, ap, ◌∙◌, true, false, none, some, ◌++◌, ◌==◌,
  if◌then◌else◌, Bool-cases, invalid_argument, err, arith, ==→eq, Returns,
}
use mpitofino.Prelude.OrderedMap.{
  assign_self, find, contains, insert, assign, contains-find, find-insert_new, find-erase,
  find-assign, contains-assign,
}
use mpitofino.SimpleTypes.{IPv4Addr, MacAddr, ip_eq, mac_eq}
use mpitofino.SimpleTypes.MacLaws.{mac_eq_iff}
use mpitofino.SimpleTypes.IpLaws.{ip_eq_iff}
use mpitofino.StateRepository.{
  StateRepository, CollectiveChannel, Participant, add_channel, remove_channel, with_participant,
  update_channel_participant, participant_differs, notify_subscribers,
}
use mpitofino.StateRepository.Channels.{
  IsValid, run_subscribers-reverse, erase-IsConsistent, assign-IsConsistent, IsKeyed-erase,
  IsKeyed-assign, IsKeyed-find,
}

abbrev pub Removed : StateRepository → ℕ → StateRepository → Type 0
Removed r tag q =
    IsValid q
    × ((j : ℕ) → find j q.channels ≡ (if tag == j then none else find j r.channels))
    × (q.calls ≡ reverse r.subscribers_channels ++ r.calls)

-- On a valid repository remove_channel throws exactly on an unknown tag; otherwise it keeps the
-- repository valid, takes that one channel out and runs every subscriber once.
pub remove_channel_lem :
    (r : StateRepository) (tag : ℕ)
    → IsValid r
    → ((contains tag r.channels ≡ false) × (remove_channel r tag ≡ err invalid_argument))
      ⊎ ((contains tag r.channels ≡ true) × Returns (Removed r tag) (remove_channel r tag))
unfolding remove_channel
remove_channel_lem r tag v = elim (Bool-cases (contains tag r.channels)) [
  | inl t ↦ inr (
    t,
    rw t (
      record {
        consistent = erase-IsConsistent r.channels tag v.consistent;
        keyed = IsKeyed-erase tag r.channels v.keyed;
        counter = v.counter;
      },
      (λ j. find-erase j tag r.channels),
      run_subscribers-reverse r.subscribers_channels r.calls,
    ),
  )
  | inr t ↦ inl (t, rw t refl)
]

-- The participant that `update_channel_participant` writes.
abbrev pub updated_participant : Participant → IPv4Addr → ℕ → MacAddr → ℕ → ℕ → Participant
updated_participant p ip local_qp mac switch_port fabric_qp = record p {
  ip = ip;
  local_qp = local_qp;
  mac = mac;
  switch_port = switch_port;
  fabric_qp = fabric_qp;
}

participant_differs-false :
    (p : Participant) (ip : IPv4Addr) (local_qp : ℕ) (mac : MacAddr) (switch_port fabric_qp : ℕ)
    → participant_differs p ip local_qp mac switch_port fabric_qp ≡ false
    → updated_participant p ip local_qp mac switch_port fabric_qp ≡ p
unfolding participant_differs
participant_differs-false p ip local_qp mac switch_port fabric_qp h =
    ground (arith, (ip_eq_iff p.ip ip).0, (mac_eq_iff p.mac mac).0)

participant_differs-true :
    (p : Participant) (ip : IPv4Addr) (local_qp : ℕ) (mac : MacAddr) (switch_port fabric_qp : ℕ)
    → participant_differs p ip local_qp mac switch_port fabric_qp ≡ true
    → updated_participant p ip local_qp mac switch_port fabric_qp ≢ p
unfolding participant_differs
participant_differs-true p ip local_qp mac switch_port fabric_qp h e =
    let same_ip : ip_eq p.ip ip ≡ true =
      (ip_eq_iff p.ip ip).1 (sym (ap (λ (x : Participant). x.ip) e)) in
    let same_mac : mac_eq p.mac mac ≡ true =
      (mac_eq_iff p.mac mac).1 (sym (ap (λ (x : Participant). x.mac) e)) in
    let same_local : local_qp ≡ p.local_qp = ap (λ (x : Participant). x.local_qp) e in
    let same_port : switch_port ≡ p.switch_port = ap (λ (x : Participant). x.switch_port) e in
    let same_fabric : fabric_qp ≡ p.fabric_qp = ap (λ (x : Participant). x.fabric_qp) e in
    ground arith

module _ (r : StateRepository) (tag client_id : ℕ) where
  -- The channels after a participant of `c` was replaced by `p`.
  abbrev with_update : CollectiveChannel → Participant → StateRepository
  with_update c p =
      notify_subscribers
        (record r { channels = assign tag (with_participant c client_id p) r.channels })

  with_update-IsValid :
      (c : CollectiveChannel) (p : Participant)
      → find tag r.channels ≡ some c
      → IsValid r
      → IsValid (with_update c p)
  with_update-IsValid c p e v = record {
    consistent = assign-IsConsistent r.channels tag c _ e v.consistent;
    keyed = IsKeyed-assign tag _ r.channels (IsKeyed-find tag c r.channels v.keyed e) v.keyed;
    counter = v.counter;
  }

  find_unchanged :
      (c : CollectiveChannel) (p p' : Participant) (j : ℕ)
      → find tag r.channels ≡ some c
      → find client_id c.participants ≡ some p
      → p' ≡ p
      → find j r.channels
        ≡ (if tag == j then some (with_participant c client_id p') else find j r.channels)
  find_unchanged c p p' j e f q =
      rw (q, assign_self client_id p c.participants f)
        (elim (Bool-cases (tag == j)) [
          | inl t ↦ rw t (ap (λ (i : ℕ). find i r.channels) (sym (==→eq tag j t)) ∙ e)
          | inr t ↦ rw t refl
        ])

  module _ (ip : IPv4Addr) (local_qp : ℕ) (mac : MacAddr) (switch_port fabric_qp : ℕ) where
    abbrev pub Updated : CollectiveChannel → Participant → StateRepository → Type 0
    Updated c p q =
        IsValid q
        × ((j : ℕ)
            → find j q.channels ≡ (
                if tag == j
                then some (
                    with_participant c client_id
                      (updated_participant p ip local_qp mac switch_port fabric_qp))
                else find j r.channels))
        × ((j : ℕ) → contains j q.channels ≡ contains j r.channels)
        × (((updated_participant p ip local_qp mac switch_port fabric_qp ≡ p) × (q.calls ≡ r.calls))
            ⊎ ((updated_participant p ip local_qp mac switch_port fabric_qp ≢ p)
                × (q.calls ≡ reverse r.subscribers_channels ++ r.calls)))

    -- In a valid repository, for a participant of a channel, update_channel_participant writes the
    -- five fields and nothing else, keeps the repository valid, and runs every subscriber once if a
    -- field changed and none if not.
    pub update_channel_participant_lem :
        (c : CollectiveChannel) (p : Participant)
        → IsValid r
        → find tag r.channels ≡ some c
        → find client_id c.participants ≡ some p
        → Returns
            (Updated c p)
            (update_channel_participant r tag client_id ip local_qp mac switch_port fabric_qp)
    unfolding update_channel_participant
    update_channel_participant_lem c p v e f =
        rw (e, f)
          (elim (Bool-cases (participant_differs p ip local_qp mac switch_port fabric_qp)) [
            | inl t ↦ rw t (
              with_update-IsValid c _ e v,
              (λ j. find-assign j tag _ c r.channels e),
              (λ j. contains-assign j tag _ r.channels),
              inr (
                participant_differs-true p ip local_qp mac switch_port fabric_qp t,
                run_subscribers-reverse r.subscribers_channels r.calls,
              ),
            )
            | inr t ↦ rw t (
              v,
              (λ j.
                  find_unchanged c p _ j e f
                    (participant_differs-false p ip local_qp mac switch_port fabric_qp t)),
              (λ j. refl),
              inl (participant_differs-false p ip local_qp mac switch_port fabric_qp t, refl),
            )
          ])

    -- An unknown channel or participant is refused.
    pub update_channel_participant_unknown :
        (find tag r.channels ≡ none)
          ⊎ ((c : CollectiveChannel) × (find tag r.channels ≡ some c)
              × (find client_id c.participants ≡ none))
        → update_channel_participant r tag client_id ip local_qp mac switch_port fabric_qp
          ≡ err invalid_argument
    unfolding update_channel_participant
    update_channel_participant_unknown (inl e) = rw e refl
    update_channel_participant_unknown (inr (c, e, f)) = rw (e, f) refl

abbrev pub Added : StateRepository → CollectiveChannel → StateRepository → Type 0
Added r c q =
    ((j : ℕ) → find j q.channels ≡ (if c.tag == j then some c else find j r.channels))
    × (q.channels ≡ insert c.tag c r.channels)
    × (q.next_coll_qp_common ≡ r.next_coll_qp_common)
    × (q.calls ≡ reverse r.subscribers_channels ++ r.calls)

-- Add_channel refuses a tag that is in use; otherwise the channel is there afterwards, under its own
-- tag and beside all the others, and every subscriber was run once.
pub add_channel_lem :
    (r : StateRepository) (c : CollectiveChannel)
    → ((contains c.tag r.channels ≡ true) × (add_channel r c ≡ err invalid_argument))
      ⊎ ((contains c.tag r.channels ≡ false) × Returns (Added r c) (add_channel r c))
unfolding add_channel
add_channel_lem r c = elim (Bool-cases (contains c.tag r.channels)) [
  | inl t ↦ inl (t, rw t refl)
  | inr t ↦ inr (
    t,
    rw t (
      (λ j. find-insert_new j c.tag c r.channels (contains-find c.tag r.channels t)),
      refl,
      refl,
      run_subscribers-reverse r.subscribers_channels r.calls,
    ),
  )
]
