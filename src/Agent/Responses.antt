-- ===== src/Agent/Responses.antt =====
-- The responses that are held until every participant of a channel has asked for it.
use mathlib.Core.List.{reverse, reverse-cons, append_assoc}
use mpitofino.Prelude.{
  ℕ, ◌≡◌, ◌≢◌, refl, sym, ap, true, false, ◌⊎◌, inl, inr, List, [], ◌∷◌, ◌++◌, Bool-cases, ok, err,
  ◌∙◌, none, some, ◌==◌, if◌then◌else◌, Returns, undefined_behaviour, length, ne→==, ==-refl,
}
use native.Mathlib.Decide.{ℕ_discrete}
use mpitofino.Prelude.OrderedMap.{
  Map, find, insert, assign, find-erase, find-assign, find-insert_new, find-contains-true,
}
use mpitofino.StateRepository.{CollectiveChannel}
use mpitofino.Agent.{
  Agent, Client, GetChannelResponse, has_client, send_responses, hold_response, held_responses,
  pending_for, or_empty,
}

-- Every response waits for a client that is still connected.
abbrev pub AllConnected : List Client → List (ℕ × GetChannelResponse) → Type 0
AllConnected cs [] = Unit
AllConnected cs ((pc, resp) ∷ pm) = (has_client pc cs ≡ true) × AllConnected cs pm

-- Some response waits for a client that is gone.
abbrev pub SomeGone : List Client → List (ℕ × GetChannelResponse) → Type 0
SomeGone cs [] = ⊥
SomeGone cs ((pc, resp) ∷ pm) = (has_client pc cs ≡ false) ⊎ SomeGone cs pm

send_responses-reverse :
    (cs : List Client) (pm sent : List (ℕ × GetChannelResponse))
    → AllConnected cs pm
    → send_responses cs pm sent ≡ ok (reverse pm ++ sent)
unfolding send_responses
send_responses-reverse cs [] sent h = refl
send_responses-reverse cs ((pc, resp) ∷ pm) sent h =
    rw (h.0, send_responses-reverse cs pm ((pc, resp) ∷ sent) h.1)
      (sym (rw (reverse-cons (pc, resp) pm, append_assoc (reverse pm) ((pc, resp) ∷ []) sent) refl))

send_responses-gone :
    (cs : List Client) (pm sent : List (ℕ × GetChannelResponse))
    → SomeGone cs pm
    → send_responses cs pm sent ≡ err undefined_behaviour
unfolding send_responses
send_responses-gone cs [] sent h = absurd h
send_responses-gone cs ((pc, resp) ∷ pm) sent (inl h) = rw h refl
send_responses-gone cs ((pc, resp) ∷ pm) sent (inr h) = elim (Bool-cases (has_client pc cs)) [
  | inl t ↦ rw t (send_responses-gone cs pm ((pc, resp) ∷ sent) h)
  | inr t ↦ rw t refl
]

connected_or_gone :
    (cs : List Client) (pm : List (ℕ × GetChannelResponse)) → AllConnected cs pm ⊎ SomeGone cs pm
connected_or_gone cs [] = inl tt
connected_or_gone cs ((pc, resp) ∷ pm) = elim (Bool-cases (has_client pc cs)) [
  | inr f ↦ inr (inl f)
  | inl t ↦ elim (connected_or_gone cs pm) [ inl h ↦ inl (t, h) | inr h ↦ inr (inr h) ]
]

-- The responses that wait for a channel.
abbrev pub Waiting : Agent → ℕ → List (ℕ × GetChannelResponse) → Type 0
Waiting a tag pm =
    (find tag a.pending_get_channel_responses ≡ some pm)
    ⊎ ((find tag a.pending_get_channel_responses ≡ none) × (pm ≡ []))

pending_for_lem :
    (a : Agent) (tag : ℕ) (pm : List (ℕ × GetChannelResponse))
    → Waiting a tag pm
    → pending_for tag a.pending_get_channel_responses ≡ pm
unfolding pending_for
pending_for_lem a tag pm (inl e) = ap or_empty e
pending_for_lem a tag pm (inr (e, q)) = ap or_empty e ∙ sym q

held_responses_lem :
    (a : Agent) (client : ℕ) (ch : CollectiveChannel) (resp : GetChannelResponse)
    (pm : List (ℕ × GetChannelResponse))
    → Waiting a ch.tag pm
    → held_responses a client ch resp ≡ pm ++ (client, resp) ∷ []
unfolding held_responses
held_responses_lem a client ch resp pm w =
    ap (λ l. l ++ (client, resp) ∷ []) (pending_for_lem a ch.tag pm w)

-- An entry of a map that was made if there was none, and written.
find-assign-insert :
    (j tag : ℕ) (pm held : List (ℕ × GetChannelResponse)) (m : Map (List (ℕ × GetChannelResponse)))
    → (find tag m ≡ some pm) ⊎ ((find tag m ≡ none) × (pm ≡ []))
    → find j (assign tag held (insert tag [] m)) ≡ (if tag == j then some held else find j m)
unfolding insert
find-assign-insert j tag pm held m (inl e) =
    rw (find-contains-true tag pm m e) (find-assign j tag held pm m e)
find-assign-insert j tag pm held m (inr (e, q)) =
    find-assign j tag held [] (insert tag [] m)
      (find-insert_new tag tag [] m e ∙ rw (==-refl tag) refl)
    ∙ other
  where
    other :
        (if tag == j then some held else find j (insert tag [] m))
        ≡ (if tag == j then some held else find j m)
    other = elim (Bool-cases (tag == j)) [
      | inl t ↦ rw t refl
      | inr f ↦ rw f (find-insert_new j tag [] m e ∙ rw f refl)
    ]

module _ (a : Agent) (client : ℕ) (ch : CollectiveChannel) (resp : GetChannelResponse)
    (held : List (ℕ × GetChannelResponse)) where
  -- The responses wait, and nothing else has changed.
  pub record Kept (q : Agent) : Type 0 where
    pub pending :
        (j : ℕ)
        → find j q.pending_get_channel_responses
          ≡ (if ch.tag == j then some held else find j a.pending_get_channel_responses)
    pub sent : q.sent ≡ a.sent
    pub clients : q.clients ≡ a.clients
    pub st_repo : q.st_repo ≡ a.st_repo

  -- The responses were sent, the latest message first, and no response waits for the channel.
  pub record Sent (q : Agent) : Type 0 where
    pub pending :
        (j : ℕ)
        → find j q.pending_get_channel_responses
          ≡ (if ch.tag == j then none else find j a.pending_get_channel_responses)
    pub sent : q.sent ≡ reverse held ++ a.sent
    pub clients : q.clients ≡ a.clients
    pub st_repo : q.st_repo ≡ a.st_repo

  abbrev pub HoldOutcome : Type 0
  HoldOutcome =
      ((length held ≢ length ch.participants) × Returns Kept (hold_response a client ch resp))
      ⊎ ((length held ≡ length ch.participants)
          × ((AllConnected a.clients held × Returns Sent (hold_response a client ch resp))
              ⊎ (SomeGone a.clients held
                  × (hold_response a client ch resp ≡ err undefined_behaviour))))

-- The three ways through the end of on_client_get_channel, for the responses that wait for the
-- channel and this one behind them. While they are not as many as the participants of the channel,
-- they wait and nothing is sent. When they are as many and all their clients are connected, each of
-- them is sent once, in the order of the requests, and none waits any more. When they are as many
-- and the client of one of them is gone, the handler uses a dangling pointer.
pub hold_response_lem :
    (a : Agent) (client : ℕ) (ch : CollectiveChannel) (resp : GetChannelResponse)
    (pm : List (ℕ × GetChannelResponse))
    → Waiting a ch.tag pm
    → HoldOutcome a client ch resp (pm ++ (client, resp) ∷ [])
unfolding hold_response
hold_response_lem a client ch resp pm w =
    let held = pm ++ (client, resp) ∷ [] in
    let e = held_responses_lem a client ch resp pm w in
    elim (ℕ_discrete (length held) (length ch.participants)) [
      | no n ↦ inl (
        n,
        rw (e, ne→== _ _ n)
            (record {
              pending = λ j. find-assign-insert j ch.tag pm held a.pending_get_channel_responses w;
              sent = refl;
              clients = refl;
              st_repo = refl;
            }),
      )
      | yes m ↦ inr (
        m,
        elim (connected_or_gone a.clients held) [
          | inl h ↦ inl (
            h,
            rw
                (
                  e,
                  m,
                  ==-refl (length ch.participants),
                  send_responses-reverse a.clients held a.sent h,
                )
                (record {
                  pending = λ j. find-erase j ch.tag a.pending_get_channel_responses;
                  sent = refl;
                  clients = refl;
                  st_repo = refl;
                }),
          )
          | inr h ↦ inr (
            h,
            rw (e, m, ==-refl (length ch.participants), send_responses-gone a.clients held a.sent h)
                refl,
          )
        ],
      )
    ]
