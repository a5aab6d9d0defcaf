-- ===== src/Agent/Ports.antt =====
-- The switch ports that the agent writes into the repository are those of the switch.
use mpitofino.Prelude.{
  ℕ, ◌<◌, arith, Bool, true, false, Option, none, some, List, [], ◌∷◌, ltb, ltb→lt, ◌==◌,
  if◌then◌else◌, Bool-cases, Option-cases, inl, inr, Result, ok, err, IfReturns, IfReturns-bind,
  IfReturns-or_throw, IfReturns-any, length,
}
use mpitofino.Prelude.OrderedMap.{
  Map, find, contains, insert, erase, AllValues, AllValues-place, AllValues-erase, AllValues-assign,
  AllValues-find,
}
use mpitofino.SimpleTypes.{IPv4Addr, MacAddr, ip_of_word, mac_of_word}
use mpitofino.StateRepository.{
  StateRepository, CollectiveChannel, Participant, get_channel, add_channel, remove_channel,
  update_channel_participant, participant_differs, get_free_coll_qp_common, get_free_agg_unit,
  find_free_qp, qp_fuel,
}
use mpitofino.Agent.{
  Agent, Client, Tags, GetChannel, GetChannelResponse, find_client, set_channels, owners,
  fresh_participant, add_participants, new_channel, allocate_with, allocate_channel, ensure_channel,
  held_responses, get_next_fabric_qp, answer_get_channel, hold_response, send_responses,
  on_client_get_channel, check_remove_channel, check_remove_channels, on_client_unref_channel,
  disconnect, NdRequest, get_channel_request, unref_channel_request, not_set, on_request,
  not_readable, end_of_stream, message, on_client_fd, on_new_client,
}
use mpitofino.Agent.Runs.{Event, new_client, client_fd, step, run}

-- A participant's port is one of the four pipes'.
abbrev pub HasPort : Participant → Type 0
HasPort p = p.switch_port < 512

abbrev pub HasPorts : CollectiveChannel → Type 0
HasPorts c = AllValues HasPort c.participants

abbrev pub AllPorts : StateRepository → Type 0
AllPorts r = AllValues HasPorts r.channels

AllValues-insert {ℓ κ} :
    {V : Type ℓ} (P : V → Type κ) (k : ℕ) (v : V) (m : Map V)
    → P v
    → AllValues P m
    → AllValues P (insert k v m)
unfolding insert
AllValues-insert P k v m p h = elim (Bool-cases (contains k m)) [
  | inl e ↦ rw e h
  | inr e ↦ rw e (AllValues-place P k v m p h)
]

add_participants-HasPort :
    (cids : List ℕ) (m : Map Participant)
    → AllValues HasPort m
    → AllValues HasPort (add_participants cids m)
unfolding add_participants
add_participants-HasPort [] m h = h
add_participants-HasPort (cid ∷ cids) m h =
    add_participants-HasPort cids _
      (AllValues-insert HasPort cid (fresh_participant cid) m (omega arith) h)

add_channel-AllPorts :
    (r : StateRepository) (c : CollectiveChannel)
    → HasPorts c
    → AllPorts r
    → IfReturns AllPorts (add_channel r c)
unfolding add_channel
add_channel-AllPorts r c p h = elim (Bool-cases (contains c.tag r.channels)) [
  | inl e ↦ rw e tt
  | inr e ↦ rw e (AllValues-insert HasPorts c.tag c r.channels p h)
]

allocate_from-AllPorts :
    (r : StateRepository) (msg : GetChannel) (found : Result ℕ)
    → AllPorts r
    → IfReturns AllPorts (allocate_with msg (some (r, found)))
unfolding allocate_with
allocate_from-AllPorts r msg (err e) h = tt
allocate_from-AllPorts r msg (ok qp) h =
    IfReturns-bind (λ u. Unit {0}) AllPorts (get_free_agg_unit r) _
      (IfReturns-any (get_free_agg_unit r))
      (λ u any.
        add_channel-AllPorts r (new_channel r msg qp u)
          (add_participants-HasPort msg.agg_group_client_ids [] tt) h)

abbrev Allocatable : Option (StateRepository × Result ℕ) → Type 0
Allocatable none = Unit
Allocatable (some (r, found)) = AllPorts r

get_free_coll_qp_common-Allocatable :
    (r : StateRepository) → AllPorts r → Allocatable (get_free_coll_qp_common r)
unfolding get_free_coll_qp_common
get_free_coll_qp_common-Allocatable r h =
    elim (Option-cases (find_free_qp r.channels qp_fuel r.next_coll_qp_common 0)) [
      | inl e ↦ rw (e, get_free_coll_qp_common) tt
      | inr ((next, found), e) ↦ rw (e, get_free_coll_qp_common) h
    ]

allocate_with-AllPorts :
    (msg : GetChannel) (o : Option (StateRepository × Result ℕ))
    → Allocatable o
    → IfReturns AllPorts (allocate_with msg o)
unfolding allocate_with
allocate_with-AllPorts msg none h = tt
allocate_with-AllPorts msg (some (r, found)) h = allocate_from-AllPorts r msg found h

allocate_channel-AllPorts :
    (r : StateRepository) (msg : GetChannel)
    → AllPorts r
    → IfReturns AllPorts (allocate_channel r msg)
unfolding allocate_channel
allocate_channel-AllPorts r msg h =
    allocate_with-AllPorts msg (get_free_coll_qp_common r) (get_free_coll_qp_common-Allocatable r h)

abbrev pub AgentPorts : Agent → Type 0
AgentPorts a = AllPorts a.st_repo

ensure_channel-AgentPorts :
    (a : Agent) (msg : GetChannel) → AgentPorts a → IfReturns AgentPorts (ensure_channel a msg)
unfolding ensure_channel
ensure_channel-AgentPorts a msg h = elim (Option-cases (get_channel a.st_repo msg.tag)) [
  | inr (ch, e) ↦ rw (e, ensure_channel) h
  | inl e ↦
      rw (e, ensure_channel)
        (IfReturns-bind AllPorts AgentPorts (allocate_channel a.st_repo msg) _
          (allocate_channel-AllPorts a.st_repo msg h) (λ r g. g))
]

update-AllPorts :
    (r : StateRepository) (tag client_id : ℕ) (ip : IPv4Addr) (local_qp : ℕ) (mac : MacAddr)
    (switch_port fabric_qp : ℕ)
    → switch_port < 512
    → AllPorts r
    → IfReturns AllPorts
        (update_channel_participant r tag client_id ip local_qp mac switch_port fabric_qp)
unfolding update_channel_participant
update-AllPorts r tag client_id ip local_qp mac switch_port fabric_qp lt h =
    IfReturns-or_throw AllPorts (find tag r.channels) _ _ λ c found.
      IfReturns-or_throw AllPorts (find client_id c.participants) _ _ λ p here.
        elim (Bool-cases (participant_differs p ip local_qp mac switch_port fabric_qp)) [
          | inr e ↦ rw e h
          | inl e ↦ rw e (
              AllValues-assign HasPorts tag _ r.channels
                (AllValues-assign HasPort client_id _ c.participants lt
                  (AllValues-find HasPorts tag r.channels c h found))
                h)
        ]

hold_response-AgentPorts :
    (a : Agent) (client : ℕ) (ch : CollectiveChannel) (resp : GetChannelResponse)
    → AgentPorts a
    → IfReturns AgentPorts (hold_response a client ch resp)
unfolding hold_response
hold_response-AgentPorts a client ch resp h =
    elim (Bool-cases (length (held_responses a client ch resp) == length ch.participants)) [
      | inr e ↦ rw e h
      | inl e ↦ rw e (
          IfReturns-bind (λ sent. Unit {0}) AgentPorts
            (send_responses a.clients (held_responses a client ch resp) a.sent) _
            (IfReturns-any (send_responses a.clients (held_responses a client ch resp) a.sent))
            (λ sent u. h))
    ]

answer_get_channel-AgentPorts :
    (a : Agent) (client : ℕ) (msg : GetChannel) (ch : CollectiveChannel)
    → AgentPorts a
    → IfReturns AgentPorts (answer_get_channel a client msg ch)
unfolding answer_get_channel
answer_get_channel-AgentPorts a client msg ch h = elim (Bool-cases (ltb msg.switch_port 512)) [
  | inr e ↦ rw e tt
  | inl e ↦ rw e (
      IfReturns-bind AllPorts AgentPorts
        (update_channel_participant a.st_repo msg.tag msg.client_id (ip_of_word msg.client_ip)
          msg.client_qp (mac_of_word msg.client_mac) msg.switch_port
          (get_next_fabric_qp ch (ip_of_word msg.client_ip)))
        _
        (update-AllPorts a.st_repo msg.tag msg.client_id (ip_of_word msg.client_ip) msg.client_qp
          (mac_of_word msg.client_mac) msg.switch_port
          (get_next_fabric_qp ch (ip_of_word msg.client_ip)) (ltb→lt _ _ e) h)
        (λ r g. hold_response-AgentPorts (record a { st_repo = r }) client ch _ g))
]

on_client_get_channel-AgentPorts :
    (a : Agent) (client : ℕ) (msg : GetChannel)
    → AgentPorts a
    → IfReturns AgentPorts (on_client_get_channel a client msg)
unfolding on_client_get_channel
on_client_get_channel-AgentPorts a client msg h =
    IfReturns-bind AgentPorts AgentPorts (ensure_channel a msg) _
      (ensure_channel-AgentPorts a msg h)
      λ a1 g. IfReturns-or_throw AgentPorts (get_channel a1.st_repo msg.tag) _ _ λ ch found.
        IfReturns-or_throw AgentPorts (find_client client a1.clients) _ _
          λ c f. answer_get_channel-AgentPorts _ client msg ch g

check_remove_channel-AllPorts :
    (clients : List Client) (tag : ℕ) (r : StateRepository)
    → AllPorts r
    → IfReturns AllPorts (check_remove_channel clients tag r)
unfolding check_remove_channel remove_channel
check_remove_channel-AllPorts clients tag r h = elim (Bool-cases (owners tag clients == 0)) [
  | inr e ↦ rw e h
  | inl e ↦ elim (Bool-cases (contains tag r.channels)) [
    | inr f ↦ rw (e, f) tt
    | inl f ↦ rw (e, f) (AllValues-erase HasPorts tag r.channels h)
  ]
]

check_remove_channels-AllPorts :
    (clients : List Client) (tags : Tags) (r : StateRepository)
    → AllPorts r
    → IfReturns AllPorts (check_remove_channels clients tags r)
unfolding check_remove_channels
check_remove_channels-AllPorts clients [] r h = h
check_remove_channels-AllPorts clients ((tag, u) ∷ tags) r h =
    IfReturns-bind AllPorts AllPorts (check_remove_channel clients tag r) _
      (check_remove_channel-AllPorts clients tag r h)
      (λ q g. check_remove_channels-AllPorts clients tags q g)

disconnect-AgentPorts :
    (a : Agent) (client : ℕ) → AgentPorts a → IfReturns AgentPorts (disconnect a client)
unfolding disconnect
disconnect-AgentPorts a client h = elim (Option-cases (find_client client a.clients)) [
  | inl e ↦ rw (e, disconnect) h
  | inr (c, e) ↦
      rw (e, disconnect)
        (IfReturns-bind AllPorts AgentPorts
          (check_remove_channels (set_channels client [] a.clients) c.channels a.st_repo) _
          (check_remove_channels-AllPorts (set_channels client [] a.clients) c.channels a.st_repo h)
          (λ r g. g))
]

on_client_unref_channel-AgentPorts :
    (a : Agent) (client tag : ℕ)
    → AgentPorts a
    → IfReturns AgentPorts (on_client_unref_channel a client tag)
unfolding on_client_unref_channel
on_client_unref_channel-AgentPorts a client tag h =
    IfReturns-or_throw AgentPorts (find_client client a.clients) _ _ λ c f.
      elim (Bool-cases (contains tag c.channels)) [
        | inr e ↦ rw e h
        | inl e ↦ rw e (
            IfReturns-bind AllPorts AgentPorts
              (check_remove_channel (set_channels client (erase tag c.channels) a.clients) tag
                a.st_repo)
              _
              (check_remove_channel-AllPorts (set_channels client (erase tag c.channels) a.clients)
                tag a.st_repo h)
              (λ r g. g))
      ]

on_request-AgentPorts :
    (a : Agent) (client : ℕ) (msg : NdRequest)
    → AgentPorts a
    → IfReturns AgentPorts (on_request a client msg)
unfolding on_request
on_request-AgentPorts a client (get_channel_request msg) h =
    on_client_get_channel-AgentPorts a client msg h
on_request-AgentPorts a client (unref_channel_request tag) h =
    on_client_unref_channel-AgentPorts a client tag h
on_request-AgentPorts a client not_set h = tt

disconnect_if :
    (hangup : Bool) (a : Agent) (client : ℕ)
    → AgentPorts a
    → IfReturns AgentPorts (if hangup then disconnect a client else ok a)
disconnect_if true a client h = disconnect-AgentPorts a client h
disconnect_if false a client h = h

step-AgentPorts : (a : Agent) (e : Event) → AgentPorts a → IfReturns AgentPorts (step a e)
unfolding step on_client_fd on_new_client
step-AgentPorts a (new_client ptr) h = h
step-AgentPorts a (client_fd client hangup not_readable) h = disconnect_if hangup a client h
step-AgentPorts a (client_fd client hangup end_of_stream) h = disconnect_if true a client h
step-AgentPorts a (client_fd client hangup (message msg)) h =
    IfReturns-bind AgentPorts AgentPorts (on_request a client msg) _
      (on_request-AgentPorts a client msg h) (λ b g. disconnect_if hangup b client g)

-- Every port in the repository is below 512 after any run that throws nothing.
pub run-AgentPorts : (a : Agent) (es : List Event) → AgentPorts a → IfReturns AgentPorts (run a es)
unfolding run
run-AgentPorts a [] h = h
run-AgentPorts a (e ∷ es) h =
    IfReturns-bind AgentPorts AgentPorts (step a e) (λ b. run b es) (step-AgentPorts a e h)
      (λ b g. run-AgentPorts b es g)
