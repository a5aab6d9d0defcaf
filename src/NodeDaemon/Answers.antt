-- ===== src/NodeDaemon/Answers.antt =====
-- Each response of the switch goes to a client that asked for it.
use mpitofino.Prelude.{
  ℕ, ◌≡◌, refl, sym, ◌∙◌, subst, Bool, true, false, Option, none, some, List, [], ◌∷◌, ◌==◌, length,
  Result, ok, err, ◌>>=◌, if◌then◌else◌, runtime_error, system_error, arith, Bool-cases,
  Option-cases, inl, inr, ◌⊎◌, All, Returns, IfReturns, IfReturns-bind, ==→eq,
}
use mpitofino.Prelude.OrderedMap.{contains}
use mpitofino.SimpleTypes.{ip_eq, is_0000}
use mpitofino.PacketHeaders.{tdp_at}
use mpitofino.NodeDaemon.{
  NodeDaemon, Client, ClientResponse, has_client, set_client, on_client_conn, on_client_fd,
  on_tdp_fd, on_switch_fd, SwitchReceived, nothing, stream_ended, response, ClientReceived,
  forward_response, deliver, response_key, not_readable, end_of_file, malformed, request,
  on_client_get_channel,
}
use mpitofino.NodeDaemon.Tracking.{IsTracking}
use mpitofino.NodeDaemon.Runs.{
  Event, client_conn, client_fd, tdp_fd, switch_fd, step, run, step-IsTracking,
  forward_response-IsWaiting, find_client-has_client,
}
use mpitofino.NodeDaemon.Delivery.{
  asked, IsAsked, AllAsked-imp, AllAsked-append, AllAsked-set_client, AllAsked-find_client,
  remove_client-IsAsked, remove_if-IsAsked, on_client_get_channel-IsAsked,
}

on_tdp_fd-IsAsked :
    (es : List Event) (d : NodeDaemon) (connects : Bool) (bytes : List ℕ)
    → IsAsked es d
    → IfReturns (IsAsked es) (on_tdp_fd d connects bytes)
unfolding on_tdp_fd
on_tdp_fd-IsAsked es d connects bytes a =
    let ip = (tdp_at bytes).ctrl_ip in
    elim (Bool-cases (length bytes == 6)) [
      | inr n ↦ rw n a
      | inl l ↦ elim (Bool-cases (ip_eq d.nearest_switch_ip ip)) [
        | inl t ↦ rw (l, t) a
        | inr n ↦ elim (Bool-cases (is_0000 d.nearest_switch_ip)) [
          | inr m ↦ rw (l, n, m) tt
          | inl t ↦ elim (Bool-cases connects) [
            | inl c ↦ rw (l, n, t, c) a
            | inr c ↦ rw (l, n, t, c) tt
          ]
        ]
      ]
    ]

-- The client that a response goes to has asked for it.
waiting-asked :
    (es : List Event) (d : NodeDaemon) (key k : ℕ) (resp : ClientResponse) (c : Client)
    → IsTracking d
    → IsAsked es d
    → forward_response key resp d.clients ≡ some c
    → contains k c.pending_get_channel_responses ≡ true
    → asked c.ptr k es ≡ true
waiting-asked es d key k resp c s a f h =
    let w = forward_response-IsWaiting key resp d.clients c s.unique f in
    AllAsked-find_client es c.ptr d.clients w.client w.found a k (sym (w.same_pending k) ∙ h)

deliver-IsAsked :
    (es : List Event) (d : NodeDaemon) (key : ℕ) (resp : ClientResponse) (writable : Bool)
    (o : Option Client)
    → forward_response key resp d.clients ≡ o
    → IsTracking d
    → IsAsked es d
    → IfReturns (IsAsked es) (deliver d resp writable o)
deliver-IsAsked es d key resp writable none f s a = a
deliver-IsAsked es d key resp false (some c) f s a = tt
deliver-IsAsked es d key resp true (some c) f s a =
    AllAsked-set_client es c.ptr c.channels c.pending_get_channel_responses d.clients
      (λ k h. waiting-asked es d key k resp c s a f h) a

on_switch_fd-IsAsked :
    (es : List Event) (d : NodeDaemon) (hangup : Bool) (received : SwitchReceived)
    → IsTracking d
    → IsAsked es d
    → IfReturns (IsAsked es) (on_switch_fd d hangup received)
unfolding on_switch_fd
on_switch_fd-IsAsked es d true nothing s a = tt
on_switch_fd-IsAsked es d false nothing s a = a
on_switch_fd-IsAsked es d hangup stream_ended s a = tt
on_switch_fd-IsAsked es d hangup (response client_id tag resp writable) s a =
    let key = response_key client_id tag in
    IfReturns-bind (IsAsked es) (IsAsked es)
      (deliver d resp writable (forward_response key resp d.clients)) _
      (deliver-IsAsked es d key resp writable (forward_response key resp d.clients) refl s a)
      (λ d' h. stays d' h hangup)
  where
    stays :
        (d' : NodeDaemon)
        → IsAsked es d'
        → (b : Bool) → IfReturns (IsAsked es) (if b then err runtime_error else ok d')
    stays d' h true = tt
    stays d' h false = h

on_client_fd-IsAsked :
    (es : List Event) (d : NodeDaemon) (ptr padding : ℕ) (hangup : Bool) (received : ClientReceived)
    → IsAsked (client_fd ptr padding hangup received ∷ es) d
    → IfReturns
        (IsAsked (client_fd ptr padding hangup received ∷ es))
        (on_client_fd d ptr padding hangup received)
unfolding on_client_fd
on_client_fd-IsAsked es d ptr padding hangup not_readable a =
    remove_if-IsAsked (client_fd ptr padding hangup not_readable ∷ es) d ptr hangup a
on_client_fd-IsAsked es d ptr padding hangup end_of_file a =
    remove_client-IsAsked (client_fd ptr padding hangup end_of_file ∷ es) d ptr a
on_client_fd-IsAsked es d ptr padding hangup malformed a = tt
on_client_fd-IsAsked es d ptr padding hangup (request msg) a =
    let now = client_fd ptr padding hangup (request msg) ∷ es in
    IfReturns-bind (IsAsked now) (IsAsked now) (on_client_get_channel d ptr padding msg) _
      (on_client_get_channel-IsAsked es d ptr padding hangup msg a)
      (λ d' h. remove_if-IsAsked now d' ptr hangup h)

-- What was asked for before an event stays asked for, unless the event is a new connection.
asked-client_fd :
    (es : List Event) (ptr key p padding : ℕ) (hangup : Bool) (received : ClientReceived)
    → asked ptr key es ≡ true
    → asked ptr key (client_fd p padding hangup received ∷ es) ≡ true
unfolding asked
asked-client_fd es ptr key p padding hangup not_readable h = h
asked-client_fd es ptr key p padding hangup end_of_file h = h
asked-client_fd es ptr key p padding hangup malformed h = h
asked-client_fd es ptr key p padding hangup (request msg) h = ground arith

step-IsAsked :
    (es : List Event) (d : NodeDaemon) (e : Event)
    → IsTracking d
    → IsAsked es d
    → IfReturns (IsAsked (e ∷ es)) (step d e)
unfolding step on_client_conn
step-IsAsked es d (client_conn ptr) s a = elim (Bool-cases (has_client ptr d.clients)) [
  | inl t ↦ rw t tt
  | inr f ↦ rw f (
      AllAsked-append (client_conn ptr ∷ es) ptr d.clients
        (AllAsked-imp es (client_conn ptr ∷ es) d.clients (λ q key h x. other q key h x f) a))
]
  where
    other :
        (q key : ℕ)
        → has_client q d.clients ≡ true
        → asked q key es ≡ true
        → has_client ptr d.clients ≡ false
        → asked q key (client_conn ptr ∷ es) ≡ true
    other q key h x f = elim (Bool-cases (ptr == q)) [
      | inl t ↦ cc (h, subst (λ n. has_client n d.clients ≡ false) (==→eq ptr q t) f)
      | inr n ↦ unfold asked in rw n x
    ]
step-IsAsked es d (client_fd ptr padding hangup received) s a =
    on_client_fd-IsAsked es d ptr padding hangup received (
      AllAsked-imp es (client_fd ptr padding hangup received ∷ es) d.clients
        (λ q key h x. asked-client_fd es q key ptr padding hangup received x) a)
step-IsAsked es d (tdp_fd connects bytes) s a =
    on_tdp_fd-IsAsked (tdp_fd connects bytes ∷ es) d connects bytes
      (AllAsked-imp es (tdp_fd connects bytes ∷ es) d.clients (λ q key h x. unfold asked in x) a)
step-IsAsked es d (switch_fd hangup received) s a =
    on_switch_fd-IsAsked (switch_fd hangup received ∷ es) d hangup received s (
      AllAsked-imp es (switch_fd hangup received ∷ es) d.clients (λ q key h x. unfold asked in x) a)

run-IsAsked :
    (d : NodeDaemon) (es : List Event)
    → IsTracking d
    → d.clients ≡ []
    → IfReturns (λ d'. IsTracking d' × IsAsked es d') (run d es)
unfolding run
run-IsAsked d [] s e = (s, rw e tt)
run-IsAsked d (e ∷ es) s none_yet =
    IfReturns-bind (λ d'. IsTracking d' × IsAsked es d') (λ d'. IsTracking d' × IsAsked (e ∷ es) d')
      (run d es) (λ d'. step d' e) (run-IsAsked d es s none_yet)
      (λ d' h. both (step d' e) (step-IsTracking d' e h.0) (step-IsAsked es d' e h.0 h.1))
  where
    both :
        (m : Result NodeDaemon)
        → IfReturns IsTracking m
        → IfReturns (IsAsked (e ∷ es)) m
        → IfReturns (λ d'. IsTracking d' × IsAsked (e ∷ es) d') m
    both (ok d') t a = (t, a)
    both (err x) t a = tt

-- The response with this key went to nobody, since no client waits for it, or to one connected client,
-- which has asked for it.
abbrev pub IsAnswered : List Event → ℕ → ClientResponse → NodeDaemon → NodeDaemon → Type 0
IsAnswered es key resp d d' =
    ((d'.to_clients ≡ d.to_clients)
      × All (λ (c : Client). contains key c.pending_get_channel_responses ≡ false) d.clients)
    ⊎ ((ptr : ℕ) × (d'.to_clients ≡ (ptr, resp) ∷ d.to_clients)
        × (has_client ptr d.clients ≡ true)
        × (asked ptr key es ≡ true))

nobody_waits :
    (key : ℕ) (resp : ClientResponse) (cs : List Client)
    → forward_response key resp cs ≡ none
    → All (λ (c : Client). contains key c.pending_get_channel_responses ≡ false) cs
unfolding forward_response
nobody_waits key resp [] h = tt
nobody_waits key resp (c ∷ cs) h =
    elim (Bool-cases (contains key c.pending_get_channel_responses)) [
      | inl t ↦ cc (rw t at h)
      | inr f ↦ (f, nobody_waits key resp cs (rw f at h))
    ]

-- The handler returned and `P` holds, or a client could not be written to.
abbrev pub Handled : Bool → (NodeDaemon → Type 0) → Result NodeDaemon → Type 0
Handled writable P r = Returns P r ⊎ ((writable ≡ false) × (r ≡ err system_error))

-- A daemon that starts without clients has handled a sequence of events and thrown nothing. Then a
-- response of the switch, on a connection that stays up, is handled without a throw, unless the client
-- that it is for cannot be written to, when a system error is thrown. It goes to one connected client at
-- most, and that client has asked for this response since it connected; it goes to none only if no
-- client waits for it.
pub run-IsAnswered :
    (d d' : NodeDaemon) (es : List Event) (client_id tag : ℕ) (resp : ClientResponse)
    (writable : Bool)
    → IsTracking d
    → d.clients ≡ []
    → run d es ≡ ok d'
    → Handled writable
        (IsAnswered es (response_key client_id tag) resp d')
        (on_switch_fd d' false (response client_id tag resp writable))
unfolding on_switch_fd
run-IsAnswered d d' es client_id tag resp writable s e h =
    let key = response_key client_id tag in
    let (tracking, a) = rw h at (run-IsAsked d es s e) in
    elim (Option-cases (forward_response key resp d'.clients)) [
      | inl f ↦ rw f (inl (inl (refl, nobody_waits key resp d'.clients f)))
      | inr (c, f) ↦
          let w = forward_response-IsWaiting key resp d'.clients c tracking.unique f in
          rw f (
            sent_to writable c (
              inr (
                c.ptr,
                refl,
                find_client-has_client c.ptr w.client d'.clients w.found,
                waiting-asked es d' key key resp c tracking a f (w.same_pending key ∙ w.waits),
              )))
    ]
  where
    sent_to :
        (b : Bool) (c : Client)
        → IsAnswered es (response_key client_id tag) resp d' (record d' {
          clients = set_client c.ptr c.channels c.pending_get_channel_responses d'.clients;
          to_clients = (c.ptr, resp) ∷ d'.to_clients;
        })
        → Handled b
            (IsAnswered es (response_key client_id tag) resp d')
            (deliver d' resp b (some c) >>= λ x. ok x)
    sent_to true c h = inl h
    sent_to false c h = inr (refl, refl)
