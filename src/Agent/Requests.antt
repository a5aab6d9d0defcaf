-- ===== src/Agent/Requests.antt =====
-- `on_client_get_channel`: the allocation of a channel and the answer to a request.
use mpitofino.Prelude.{
  ℕ, ◌≤◌, ◌<◌, ◌≡◌, inl, inr, sym, ap, subst, ◌∙◌, true, ◌||◌, Option, none, some, [], ◌∷◌, ltb,
  ◌==◌, Bool-cases, Option-cases, Result, ok, err, IfReturns, IfReturns-bind, IfReturns-or_throw,
  IfReturns-any, IfReturns-of_Returns, length, arith, ==→eq,
}
use mpitofino.Prelude.OrderedMap.{
  Avoids, Map, find, contains, insert, UniqueKeys-insert, contains-insert, find-contains-true,
}
use mpitofino.SimpleTypes.{IPv4Addr, MacAddr, ip_of_word, mac_of_word}
use mpitofino.StateRepository.{
  StateRepository, CollectiveChannel, get_channel, add_channel, update_channel_participant,
  get_free_agg_unit,
}
use mpitofino.StateRepository.Allocation.{
  QpReply, UnitReply, get_free_coll_qp_common-QpReply, get_free_agg_unit-UnitReply,
  unit_taken-Avoids,
}
use mpitofino.StateRepository.Channels.{
  IsValid, IsKeyed-find, insert-IsConsistent, IsKeyed-insert, IsConsistent, IsKeyed,
}
use mpitofino.StateRepository.Updates.{
  update_channel_participant_unknown, update_channel_participant_lem,
}
use mpitofino.Agent.{
  Agent, Client, GetChannel, GetChannelResponse, find_client, set_channels, new_channel,
  allocate_with, allocate_channel, ensure_channel, held_responses, get_next_fabric_qp,
  answer_get_channel, hold_response, send_responses, on_client_get_channel,
}
use mpitofino.Agent.Ownership.{
  OwnedBut, AllUnique, owners-set_channels, owners-le, AllUnique-find, AllUnique-set_channels,
  contains-cons, contains-nil,
}
use mpitofino.Agent.Invariant.{IsSound}

IfReturns-of_UnitReply :
    (m : Map CollectiveChannel) (r : Result ℕ)
    → UnitReply m 0 256 r
    → IfReturns (λ u. UnitReply m 0 256 (ok u)) r
IfReturns-of_UnitReply m (ok u) h = h
IfReturns-of_UnitReply m (err e) h = tt

-- Only the counter moved.
IsValid-same_channels :
    (r r' : StateRepository)
    → r'.channels ≡ r.channels
    → r'.next_coll_qp_common < 65536
    → IsValid r
    → IsValid r'
IsValid-same_channels r r' e h v = record {
  consistent = subst IsConsistent (sym e) v.consistent;
  keyed = subst IsKeyed (sym e) v.keyed;
  counter = h;
}

-- A new channel has numbers of its own, and the repository stays valid.
abbrev pub Allocated : StateRepository → ℕ → StateRepository → Type 0
Allocated r tag q =
    IsValid q × ((j : ℕ) → contains j q.channels ≡ (tag == j || contains j r.channels))

add_channel-Allocated :
    (r : StateRepository) (c : CollectiveChannel)
    → IsValid r
    → UnitReply r.channels 0 256 (ok c.agg_unit)
    → Avoids (λ d. d.fabric_qp_common) c.fabric_qp_common r.channels
    → 1 ≤ c.fabric_qp_common
    → c.fabric_qp_common < 65536
    → IfReturns (Allocated r c.tag) (add_channel r c)
unfolding add_channel
add_channel-Allocated r c v u a lo hi = elim (Bool-cases (contains c.tag r.channels)) [
  | inl t ↦ rw t tt
  | inr t ↦ rw t (
    record {
      consistent =
          insert-IsConsistent r.channels c.tag c v.consistent
            (unit_taken-Avoids c.agg_unit r.channels u.2) a u.1 lo hi;
      keyed = IsKeyed-insert c r.channels v.keyed;
      counter = v.counter;
    },
    λ j. contains-insert j c.tag c r.channels,
  )
]

allocate_with-Allocated :
    (r : StateRepository) (msg : GetChannel) (o : Option (StateRepository × Result ℕ))
    → IsValid r
    → QpReply r o
    → IfReturns (Allocated r msg.tag) (allocate_with msg o)
unfolding allocate_with
allocate_with-Allocated r msg none v h = tt
allocate_with-Allocated r msg (some (r', err e)) v h = tt
allocate_with-Allocated r msg (some (r', ok qp)) v h =
    IfReturns-bind (λ u. UnitReply r'.channels 0 256 (ok u)) (Allocated r msg.tag)
      (get_free_agg_unit r') _ (IfReturns-of_UnitReply _ _ (get_free_agg_unit-UnitReply r'))
      (λ u reply.
        subst
          (λ m.
            IfReturns
              (λ q. IsValid q × ((j : ℕ) → contains j q.channels ≡ (msg.tag == j || contains j m)))
              (add_channel r' (new_channel r' msg qp u)))
          h.3
          (add_channel-Allocated r' (new_channel r' msg qp u) (IsValid-same_channels r r' h.3 h.4 v)
            reply (subst (Avoids (λ c. c.fabric_qp_common) qp) (sym h.3) h.2) h.0 h.1))

-- Allocation keeps the repository valid and adds the one channel.
pub allocate_channel-Allocated :
    (r : StateRepository) (msg : GetChannel)
    → IsValid r
    → IfReturns (Allocated r msg.tag) (allocate_channel r msg)
unfolding allocate_channel
allocate_channel-Allocated r msg v =
    allocate_with-Allocated r msg _ v (get_free_coll_qp_common-QpReply r v.counter)

-- The channel of the request is there, and every other channel has an owner.
record IsEnsured (tag : ℕ) (a : Agent) : Type 0 where
  valid : IsValid a.st_repo
  present : contains tag a.st_repo.channels ≡ true
  owned : OwnedBut a.st_repo a.clients ((tag, tt) ∷ [])
  unique : AllUnique a.clients

ensure_channel-IsEnsured :
    (a : Agent) (msg : GetChannel)
    → IsSound a
    → IfReturns (IsEnsured msg.tag) (ensure_channel a msg)
unfolding ensure_channel get_channel
ensure_channel-IsEnsured a msg s = elim (Option-cases (find msg.tag a.st_repo.channels)) [
  | inr (ch, e) ↦
      rw (e, ensure_channel)
        (record {
          valid = s.valid;
          present = find-contains-true msg.tag ch a.st_repo.channels e;
          owned = λ j. elim (Bool-cases (msg.tag == j)) [
            | inl t ↦ ground (
              arith,
              contains-cons j msg.tag [],
              find-contains-true msg.tag ch a.st_repo.channels e,
              ap (λ (i : ℕ). contains i a.st_repo.channels) (==→eq msg.tag j t),
            )
            | inr t ↦ ground (arith, s.owned j, contains-cons j msg.tag [], contains-nil j)
          ];
          unique = s.unique;
        })
  | inl e ↦
      rw (e, ensure_channel)
        (IfReturns-bind (Allocated a.st_repo msg.tag) (IsEnsured msg.tag)
          (allocate_channel a.st_repo msg) _ (allocate_channel-Allocated a.st_repo msg s.valid)
          (λ q h. record {
            valid = h.0;
            present = ground (arith, h.1 msg.tag);
            owned =
                λ j. ground (arith, h.1 j, s.owned j, contains-cons j msg.tag [], contains-nil j);
            unique = s.unique;
          }))
]

hold_response-IsSound :
    (a : Agent) (client : ℕ) (ch : CollectiveChannel) (resp : GetChannelResponse)
    → IsSound a
    → IfReturns IsSound (hold_response a client ch resp)
unfolding hold_response
hold_response-IsSound a client ch resp s =
    elim (Bool-cases (length (held_responses a client ch resp) == length ch.participants)) [
      | inl t ↦ rw t (
          IfReturns-bind (λ _. Unit {0}) IsSound
            (send_responses a.clients (held_responses a client ch resp) a.sent) _
            (IfReturns-any (send_responses a.clients (held_responses a client ch resp) a.sent))
            (λ sent _. record { valid = s.valid; owned = s.owned; unique = s.unique }))
      | inr t ↦ rw t (record { valid = s.valid; owned = s.owned; unique = s.unique })
    ]

-- The client becomes an owner of the channel.
owner_declared :
    (a : Agent) (client tag : ℕ) (c : Client)
    → IsEnsured tag a
    → find_client client a.clients ≡ some c
    → IsSound (record a { clients = set_channels client (insert tag tt c.channels) a.clients })
owner_declared a client tag c e f = record {
  valid = e.valid;
  owned = λ j. elim (Bool-cases (tag == j)) [
    | inl t ↦ ground (
      arith,
      contains-nil j,
      e.present,
      ap (λ (i : ℕ). contains i a.st_repo.channels) (==→eq tag j t),
      contains-insert j tag tt c.channels,
      owners-set_channels client (insert tag tt c.channels) j a.clients c f,
      owners-le client j a.clients c f,
    )
    | inr t ↦ ground (
      arith,
      contains-nil j,
      e.owned j,
      contains-cons j tag [],
      contains-insert j tag tt c.channels,
      owners-set_channels client (insert tag tt c.channels) j a.clients c f,
    )
  ];
  unique =
      AllUnique-set_channels client _ a.clients
        (UniqueKeys-insert tag tt c.channels (AllUnique-find client a.clients c e.unique f))
        e.unique;
}

-- A write to a participant of a known channel keeps the agent sound.
update-IsSound :
    (a : Agent) (tag client_id : ℕ) (ip : IPv4Addr) (local_qp : ℕ) (mac : MacAddr)
    (switch_port fabric_qp : ℕ) (ch : CollectiveChannel)
    → IsSound a
    → find tag a.st_repo.channels ≡ some ch
    → IfReturns
        (λ r. IsSound (record a { st_repo = r }))
        (update_channel_participant a.st_repo tag client_id ip local_qp mac switch_port fabric_qp)
update-IsSound a tag client_id ip local_qp mac switch_port fabric_qp ch s e =
    elim (Option-cases (find client_id ch.participants)) [
      | inl f ↦
          rw
            (update_channel_participant_unknown a.st_repo tag client_id ip local_qp mac switch_port
              fabric_qp (inr (ch, e, f)))
            tt
      | inr (p, f) ↦
          IfReturns-of_Returns _ (λ r. IsSound (record a { st_repo = r })) _
            (update_channel_participant_lem a.st_repo tag client_id ip local_qp mac switch_port
              fabric_qp ch p s.valid e f)
            (λ q h. record { valid = h.0; owned = λ j. h.2 j ∙ s.owned j; unique = s.unique })
    ]

answer_get_channel-IsSound :
    (a : Agent) (client : ℕ) (msg : GetChannel) (ch : CollectiveChannel)
    → IsSound a
    → find msg.tag a.st_repo.channels ≡ some ch
    → IfReturns IsSound (answer_get_channel a client msg ch)
unfolding answer_get_channel
answer_get_channel-IsSound a client msg ch s e = elim (Bool-cases (ltb msg.switch_port 512)) [
  | inl t ↦ rw t (
      IfReturns-bind (λ r. IsSound (record a { st_repo = r })) IsSound
        (update_channel_participant a.st_repo msg.tag msg.client_id (ip_of_word msg.client_ip)
          msg.client_qp (mac_of_word msg.client_mac) msg.switch_port
          (get_next_fabric_qp ch (ip_of_word msg.client_ip)))
        _
        (update-IsSound a msg.tag msg.client_id (ip_of_word msg.client_ip) msg.client_qp
          (mac_of_word msg.client_mac) msg.switch_port
          (get_next_fabric_qp ch (ip_of_word msg.client_ip)) ch s e)
        (λ r h. hold_response-IsSound (record a { st_repo = r }) client ch _ h))
  | inr t ↦ rw t tt
]

-- From a sound agent, a request for a channel that throws nothing leaves the agent sound: every
-- channel has an owner, every owned channel exists, and no two channels share an aggregation unit or
-- a queue pair.
pub on_client_get_channel-IsSound :
    (a : Agent) (client : ℕ) (msg : GetChannel)
    → IsSound a
    → IfReturns IsSound (on_client_get_channel a client msg)
unfolding on_client_get_channel get_channel
on_client_get_channel-IsSound a client msg s =
    IfReturns-bind (IsEnsured msg.tag) IsSound (ensure_channel a msg) _
      (ensure_channel-IsEnsured a msg s)
      λ a1 e. IfReturns-or_throw IsSound (find msg.tag a1.st_repo.channels) _ _ λ ch found.
        IfReturns-or_throw IsSound (find_client client a1.clients) _ _ λ c f.
          answer_get_channel-IsSound _ client msg ch
            (owner_declared a1 client ch.tag c
              (subst (λ k. IsEnsured k a1)
                (sym (IsKeyed-find msg.tag ch a1.st_repo.channels e.valid.keyed found)) e)
              f)
            found
