-- ===== src/ClientLib/Channels/Laws.antt =====
-- `AggregationGroup::get_channel`, whatever the libraries answer.
use mpitofino.Prelude.{
  ℕ, ◌≡◌, refl, sym, ap, ◌∙◌, subst, ◌==◌, ==-refl, ==→eq, false, if◌then◌else◌, none, some, List,
  Result, ok, err, IfReturns, IfReturns-bind, IfReturns-any, Option-cases, Bool-cases, inl, inr,
  arith,
}
use mpitofino.Prelude.OrderedMap.{
  find, insert, erase, assign, find-erase, find-insert_new, find-assign, some-inj,
}
use mpitofino.NodeDaemon.{ClientGetChannel}
use mpitofino.ClientLib.Channels.{
  ready_to_receive, ready_to_send, QueuePair, ClientChannel, Answers, AggregationGroup,
  construct_channel, finalize_qp, connect_channel, settled, request_channel, emplaced, get_channel,
}

-- A channel that can be used: its queue pair is connected to the fabric's.
pub record IsConnected (ib_gid : ℕ) (ch : ClientChannel) : Type 0 where
  pub state : ch.qp.state ≡ ready_to_send
  pub address : ch.qp.sgid_index ≡ ib_gid
  pub peer_ip : ch.qp.peer_ip ≡ ch.fabric_ip
  pub peer_qp : ch.qp.dest_qp_num ≡ ch.fabric_qp

-- `ibv_modify_qp` returns 0 only if the queue pair has the wanted attributes.
pub record ModifiesQp (a : Answers) : Type 0 where
  pub rtr : (qp : QueuePair) → (a.to_rtr qp).0 ≡ 0 → (a.to_rtr qp).1 ≡ qp
  pub rts : (qp : QueuePair) → (a.to_rts qp).0 ≡ 0 → (a.to_rts qp).1 ≡ qp

-- All channels of the group can be used.
abbrev pub AllConnected : AggregationGroup → Type 0
AllConnected g =
    (tag : ℕ) (ch : ClientChannel) → find tag g.channels ≡ some ch → IsConnected g.ib_gid ch

-- The outcomes of `get_channel`.
abbrev pub Got : AggregationGroup → ℕ → AggregationGroup × Result ClientChannel → Type 0
Got g tag (g', ok ch) =
    (find tag g'.channels ≡ some ch)
    × (((j : ℕ) → (j == tag) ≡ false → find j g'.channels ≡ find j g.channels) × AllConnected g')
Got g tag (g', err e) = ((j : ℕ) → find j g'.channels ≡ find j g.channels) × AllConnected g'

finalize_qp-IsConnected :
    (ib_gid : ℕ) (a : Answers) (law : ModifiesQp a) (ch : ClientChannel)
    → IfReturns (IsConnected ib_gid) (finalize_qp ib_gid a ch)
unfolding finalize_qp
finalize_qp-IsConnected ib_gid a law ch =
    let q1 : QueuePair = record ch.qp {
      state = ready_to_receive;
      sgid_index = ib_gid;
      peer_ip = ch.fabric_ip;
      dest_qp_num = ch.fabric_qp;
    } in
    let q2 : QueuePair = record (a.to_rtr q1).1 { state = ready_to_send } in
    elim (Bool-cases ((a.to_rtr q1).0 == 0)) [
      | inr e ↦ rw e tt
      | inl e ↦ elim (Bool-cases ((a.to_rts q2).0 == 0)) [
        | inr f ↦ rw (e, f) tt
        | inl f ↦
            let r1 : (a.to_rtr q1).1 ≡ q1 = law.rtr q1 (==→eq _ _ e) in
            let r2 : (a.to_rts q2).1 ≡ record q1 { state = ready_to_send } =
              law.rts q2 (==→eq _ _ f)
              ∙ ap (λ (q : QueuePair). record q { state = ready_to_send }) r1 in
            rw (e, f)
              (record {
                state = ap (λ (q : QueuePair). q.state) r2;
                address = ap (λ (q : QueuePair). q.sgid_index) r2;
                peer_ip = ap (λ (q : QueuePair). q.peer_ip) r2;
                peer_qp = ap (λ (q : QueuePair). q.dest_qp_num) r2;
              })
      ]
    ]

connect_channel-IsConnected :
    (ib_gid : ℕ) (a : Answers) (law : ModifiesQp a) (ch : ClientChannel)
    → IfReturns (IsConnected ib_gid) (connect_channel ib_gid a ch)
unfolding connect_channel
connect_channel-IsConnected ib_gid a law ch =
    IfReturns-bind (λ r. Unit {0}) (IsConnected ib_gid) a.response _ (IfReturns-any a.response)
      (λ r u.
        finalize_qp-IsConnected ib_gid a law
          (record ch { fabric_ip = r.fabric_ip; fabric_qp = r.fabric_qp }))

module _ (g : AggregationGroup) (tag : ℕ) (new : find tag g.channels ≡ none) where
  find-erase-insert :
      (ch : ClientChannel) (j : ℕ)
      → find j (erase tag (insert tag ch g.channels)) ≡ find j g.channels
  find-erase-insert ch j = elim (Bool-cases (tag == j)) [
    | inl e ↦ find-erase j tag (insert tag ch g.channels) ∙ rw (e, sym (==→eq tag j e)) (sym new)
    | inr e ↦
        find-erase j tag (insert tag ch g.channels)
        ∙ rw e (find-insert_new j tag ch g.channels new ∙ rw e refl)
  ]

  find-insert_self : (ch : ClientChannel) → find tag (insert tag ch g.channels) ≡ some ch
  find-insert_self ch = find-insert_new tag tag ch g.channels new ∙ rw (==-refl tag) refl

  find-assign-insert :
      (ch ch' : ClientChannel) (j : ℕ)
      → find j (assign tag ch' (insert tag ch g.channels))
        ≡ (if tag == j then some ch' else find j g.channels)
  find-assign-insert ch ch' j =
      find-assign j tag ch' ch (insert tag ch g.channels) (find-insert_self ch)
      ∙ elim (Bool-cases (tag == j)) [
        | inl e ↦ rw e refl
        | inr e ↦ rw e (find-insert_new j tag ch g.channels new ∙ rw e refl)
      ]

  module _ (all : AllConnected g) (ch : ClientChannel) (sent : List ClientGetChannel) where
    abbrev inserted : AggregationGroup
    inserted = record g { channels = insert tag ch g.channels; requests = sent }

    -- Whatever the `try` block comes to.
    settled-Got :
        (r : Result ClientChannel)
        → IfReturns (IsConnected g.ib_gid) r
        → Got g tag (settled inserted tag r)
    settled-Got (err e) h =
        (find-erase-insert ch, λ j c q. all j c (sym (find-erase-insert ch j) ∙ q))
    settled-Got (ok ch') h = (
      find-assign-insert ch ch' tag ∙ rw (==-refl tag) refl,
      (λ j n. find-assign-insert ch ch' j ∙ other j n, connected),
    )
      where
        other :
            (j : ℕ)
            → (j == tag) ≡ false
            → (if tag == j then some ch' else find j g.channels) ≡ find j g.channels
        other j n = ground arith

        connected :
            (j : ℕ) (c : ClientChannel)
            → find j (assign tag ch' (insert tag ch g.channels)) ≡ some c
            → IsConnected g.ib_gid c
        connected j c q = elim (Bool-cases (tag == j)) [
          | inl e ↦
              let same : some ch' ≡ some c = sym (find-assign-insert ch ch' j ∙ rw e refl) ∙ q in
              subst (IsConnected g.ib_gid) (some-inj same) h
          | inr e ↦ all j c (sym (find-assign-insert ch ch' j ∙ rw e refl) ∙ q)
        ]

  request_channel-Got :
      (all : AllConnected g) (a : Answers) (law : ModifiesQp a) (ch : ClientChannel)
      (sent : Result (Unit {0}))
      → Got g tag (request_channel (record g { channels = insert tag ch g.channels }) tag a ch sent)
  request_channel-Got all a law ch (err e) = settled-Got all ch g.requests (err e) tt
  request_channel-Got all a law ch (ok u) =
      settled-Got all ch _ (connect_channel g.ib_gid a ch)
        (connect_channel-IsConnected g.ib_gid a law ch)

  emplaced-Got :
      (all : AllConnected g) (a : Answers) (law : ModifiesQp a) (m : Result ClientChannel)
      → Got g tag (emplaced g tag a m)
  emplaced-Got all a law (err e) = (λ j. refl, all)
  emplaced-Got all a law (ok ch) = request_channel-Got all a law ch a.sent

-- For a group whose cached channels are all connected, whatever the verbs library and the node
-- daemon answer, as long as ibv_modify_qp returns 0 only if the queue pair has the wanted
-- attributes: get_channel either returns a channel that is cached afterwards, or throws; either way
-- the other channels are as before and all cached channels are connected, in the state ready to
-- send, to the address and the queue pair that they name. If it throws, the cache is as before.
pub get_channel-Got :
    (g : AggregationGroup) (tag : ℕ) (a : Answers)
    → ModifiesQp a
    → AllConnected g
    → Got g tag (get_channel g tag a)
unfolding get_channel
get_channel-Got g tag a law all = elim (Option-cases (find tag g.channels)) [
  | inr (ch, e) ↦ rw e (e, (λ j n. refl, all))
  | inl e ↦ rw e (emplaced-Got g tag e all a law (construct_channel a))
]
