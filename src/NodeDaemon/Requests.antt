-- ===== src/NodeDaemon/Requests.antt =====
-- What the handlers of a client send to the switch: it knows of exactly the channels in use.
use mpitofino.Prelude.{
  ℕ, ◌≡◌, refl, sym, ap, ◌∙◌, subst, Bool, true, false, ◌&&◌, not, some, List, [], ◌∷◌, ◌==◌,
  if◌then◌else◌, ok, err, system_error, arith, Bool-cases, Option-cases, inl, inr, Returns,
  Returns-imp, Returns-bind, IfReturns, IfReturns-of_Returns, ==→eq, ==-refl,
}
use mpitofino.Prelude.OrderedMap.{Map, contains, insert, contains-insert, contains-erase}
use mpitofino.SimpleTypes.{is_0000}
use mpitofino.Agent.{NdRequest, get_channel_request, unref_channel_request}
use mpitofino.NodeDaemon.{
  NodeDaemon, Client, ClientGetChannel, find_client, set_client, erase_client, other_users,
  unref_channels, remove_client, send_to_switch, on_client_get_channel, switch_request,
  response_key, empty_response, on_client_fd, ClientReceived, not_readable, end_of_file, malformed,
  request,
}
use mpitofino.NodeDaemon.Tracking.{
  switch_view, is_used, IsTracking, other_users-erase_client, is_used-erase_client,
  is_used-set_client, AllUnique-set_client, AllUnique-erase_client,
}

true-false : true ≡ false → ⊥
true-false e = cc

-- What the loop over the channels of a client leaves: the same state but for the messages, by which the
-- switch forgets the channels in `chs` that nobody else uses.
record IsReleased (d : NodeDaemon) (ptr : ℕ) (chs : Map ℕ) (d' : NodeDaemon) : Type 0 where
  same : d' ≡ record d { to_switch = d'.to_switch }
  view :
      (tag : ℕ)
      → contains tag (switch_view d'.to_switch) ≡ (
          contains tag (switch_view d.to_switch)
          && not (contains tag chs && other_users tag ptr d.clients == 0))

-- A channel that another client uses stays in the view.
release_kept :
    (d : NodeDaemon) (ptr tag qp : ℕ) (chs : Map ℕ) (d' : NodeDaemon)
    → (other_users tag ptr d.clients == 0) ≡ false
    → IsReleased d ptr chs d'
    → IsReleased d ptr ((tag, qp) ∷ chs) d'
unfolding contains
release_kept d ptr tag qp chs d' f h = record {
  same = h.same;
  view = λ j. elim (Bool-cases (tag == j)) [
    | inl e ↦
        let unused : (other_users j ptr d.clients == 0) ≡ false =
          subst (λ k. (other_users k ptr d.clients == 0) ≡ false) (==→eq tag j e) f in
        rw (h.view j, e, unused) (ground arith)
    | inr e ↦ rw (h.view j, e) refl
  ];
}

-- The last user's channel leaves it.
release_sent :
    (d : NodeDaemon) (ptr tag qp : ℕ) (chs : Map ℕ) (d' : NodeDaemon)
    → (other_users tag ptr d.clients == 0) ≡ true
    → IsReleased (record d { to_switch = unref_channel_request tag ∷ d.to_switch }) ptr chs d'
    → IsReleased d ptr ((tag, qp) ∷ chs) d'
unfolding contains switch_view
release_sent d ptr tag qp chs d' f h = record {
  same = h.same;
  view = λ j. elim (Bool-cases (tag == j)) [
    | inl e ↦
        let unused : (other_users j ptr d.clients == 0) ≡ true =
          subst (λ k. (other_users k ptr d.clients == 0) ≡ true) (==→eq tag j e) f in
        rw (h.view j, contains-erase j tag (switch_view d.to_switch), e, unused) (ground arith)
    | inr e ↦ rw (h.view j, contains-erase j tag (switch_view d.to_switch), e) refl
  ];
}

send_to_switch-connected :
    (msg : NdRequest) (d : NodeDaemon)
    → d.connected ≡ true
    → send_to_switch msg d ≡ ok (record d { to_switch = msg ∷ d.to_switch })
unfolding send_to_switch
send_to_switch-connected msg d l =
    ap (λ b. if b then ok (record d { to_switch = msg ∷ d.to_switch }) else err system_error) l

unref_channels-IsReleased :
    (ptr : ℕ) (chs : Map ℕ) (d : NodeDaemon)
    → d.connected ≡ true
    → Returns (IsReleased d ptr chs) (unref_channels ptr chs d)
unfolding unref_channels contains
unref_channels-IsReleased ptr [] d l = record { same = refl; view = λ tag. ground arith }
unref_channels-IsReleased ptr ((tag, qp) ∷ chs) d l =
    elim (Bool-cases (other_users tag ptr d.clients == 0)) [
      | inl t ↦
          let d1 : NodeDaemon = record d { to_switch = unref_channel_request tag ∷ d.to_switch } in
          rw (t, send_to_switch-connected (unref_channel_request tag) d l)
            (Returns-imp (IsReleased d1 ptr chs) (IsReleased d ptr ((tag, qp) ∷ chs))
              (unref_channels ptr chs d1) (unref_channels-IsReleased ptr chs d1 l)
              (λ d' h. release_sent d ptr tag qp chs d' t h))
      | inr f ↦ rw f (
          Returns-imp (IsReleased d ptr chs) (IsReleased d ptr ((tag, qp) ∷ chs))
            (unref_channels ptr chs d) (unref_channels-IsReleased ptr chs d l)
            (λ d' h. release_kept d ptr tag qp chs d' f h))
    ]

-- The end of a client's connection, once its channels were released.
forget_client :
    (d : NodeDaemon) (ptr : ℕ) (c : Client) (to_switch : List NdRequest)
    → IsTracking d
    → find_client ptr d.clients ≡ some c
    → IsReleased d ptr c.channels (record d { to_switch = to_switch })
    → IsTracking (record d { to_switch = to_switch; clients = erase_client ptr d.clients })
forget_client d ptr c to_switch s f h = record {
  unique = AllUnique-erase_client ptr d.clients s.unique;
  view = λ tag.
      h.view tag
      ∙ rw
          (
            s.view tag,
            is_used-erase_client tag ptr c d.clients f,
            other_users-erase_client tag ptr d.clients s.unique,
          )
          (ground arith);
  linked = s.linked;
  used = λ tag e. s.used tag (is_used-erase_client tag ptr c d.clients f ∙ rw e (ground arith));
}

-- A client without channels needs no connection to leave.
unref_channels-reached :
    (d : NodeDaemon) (ptr : ℕ) (c : Client)
    → IsTracking d
    → find_client ptr d.clients ≡ some c
    → Returns (IsReleased d ptr c.channels) (unref_channels ptr c.channels d)
unfolding unref_channels contains
unref_channels-reached d ptr c s f = elim (Bool-cases d.connected) [
  | inl l ↦ unref_channels-IsReleased ptr c.channels d l
  | inr n ↦ idle c.channels refl n
]
  where
    idle :
        (chs : Map ℕ)
        → c.channels ≡ chs
        → d.connected ≡ false
        → Returns (IsReleased d ptr chs) (unref_channels ptr chs d)
    idle [] e n = record { same = refl; view = λ tag. ground arith }
    idle ((tag, qp) ∷ chs) e n =
        let owned : contains tag c.channels ≡ true = rw (e, ==-refl tag) refl in
        let reached : is_used tag d.clients ≡ true =
          is_used-erase_client tag ptr c d.clients f ∙ rw owned refl in
        absurd (true-false (sym (s.used tag reached) ∙ n))

-- The end of a client's connection: the daemon throws nothing, and the switch still knows of exactly
-- the channels that the clients that are left use.
pub remove_client-IsTracking :
    (d : NodeDaemon) (ptr : ℕ) → IsTracking d → Returns IsTracking (remove_client d ptr)
unfolding remove_client
remove_client-IsTracking d ptr s = elim (Option-cases (find_client ptr d.clients)) [
  | inl e ↦ rw (e, remove_client) s
  | inr (c, f) ↦
      rw (f, remove_client)
        (Returns-bind (IsReleased d ptr c.channels) IsTracking (unref_channels ptr c.channels d) _
          (unref_channels-reached d ptr c s f)
          (λ d' h.
            subst (λ x. IsTracking (record x { clients = erase_client ptr x.clients })) (sym h.same)
              (forget_client d ptr c d'.to_switch s f
                (subst (λ x. IsReleased d ptr c.channels x) h.same h))))
]

module _ (d : NodeDaemon) (ptr padding : ℕ) (msg : ClientGetChannel) where
  -- The state after the request was sent and the channel was noted.
  requested : (c : Client) → NodeDaemon
  requested c = record d {
    to_switch = get_channel_request (switch_request d padding msg) ∷ d.to_switch;
    clients =
        set_client ptr (insert msg.tag msg.local_qp c.channels)
          (insert (response_key msg.client_id msg.tag) empty_response
            c.pending_get_channel_responses)
          d.clients;
  }

  requested-IsTracking :
      (c : Client)
      → IsTracking d
      → find_client ptr d.clients ≡ some c
      → is_0000 d.nearest_switch_ip ≡ false
      → IsTracking (requested c)
  unfolding requested switch_view
  requested-IsTracking c s f n = record {
    unique = AllUnique-set_client ptr _ _ d.clients s.unique;
    view = λ tag.
        rw
          (
            contains-insert tag msg.tag tt (switch_view d.to_switch),
            is_used-set_client tag ptr (insert msg.tag msg.local_qp c.channels) _ c d.clients f
                (λ e. contains-insert tag msg.tag msg.local_qp c.channels ∙ rw e (ground arith)),
            contains-insert tag msg.tag msg.local_qp c.channels,
            s.view tag,
            is_used-erase_client tag ptr c d.clients f,
          )
          (ground arith);
    linked = s.linked;
    used = λ tag e. s.linked n;
  }

  on_client_get_channel-IsTracking :
      (c : Client)
      → IsTracking d
      → find_client ptr d.clients ≡ some c
      → Returns IsTracking (on_client_get_channel d ptr padding msg)
  unfolding on_client_get_channel requested
  on_client_get_channel-IsTracking c s f = elim (Bool-cases (is_0000 d.nearest_switch_ip)) [
    | inl t ↦ rw (f, on_client_get_channel, t) s
    | inr n ↦
        rw
          (
            f,
            on_client_get_channel,
            n,
            send_to_switch-connected (get_channel_request (switch_request d padding msg)) d
                (s.linked n),
          )
          (requested-IsTracking c s f n)
  ]

-- Whatever a connected client does, if the handler throws nothing, the switch knows of exactly the
-- channels that the clients of the node use, if it did before.
pub on_client_fd-IsTracking :
    (d : NodeDaemon) (ptr padding : ℕ) (hangup : Bool) (received : ClientReceived) (c : Client)
    → IsTracking d
    → find_client ptr d.clients ≡ some c
    → IfReturns IsTracking (on_client_fd d ptr padding hangup received)
unfolding on_client_fd
on_client_fd-IsTracking d ptr padding false not_readable c s f = s
on_client_fd-IsTracking d ptr padding true not_readable c s f =
    IfReturns-of_Returns IsTracking IsTracking _ (remove_client-IsTracking d ptr s) (λ d' h. h)
on_client_fd-IsTracking d ptr padding hangup end_of_file c s f =
    IfReturns-of_Returns IsTracking IsTracking _ (remove_client-IsTracking d ptr s) (λ d' h. h)
on_client_fd-IsTracking d ptr padding hangup malformed c s f = tt
on_client_fd-IsTracking d ptr padding hangup (request msg) c s f =
    IfReturns-of_Returns IsTracking IsTracking _
      (Returns-bind IsTracking IsTracking (on_client_get_channel d ptr padding msg) _
        (on_client_get_channel-IsTracking d ptr padding msg c s f) (λ d' h. removed d' h hangup))
      (λ d' h. h)
  where
    removed :
        (d' : NodeDaemon)
        → IsTracking d'
        → (h : Bool) → Returns IsTracking (if h then remove_client d' ptr else ok d')
    removed d' s' false = s'
    removed d' s' true = remove_client-IsTracking d' ptr s'
