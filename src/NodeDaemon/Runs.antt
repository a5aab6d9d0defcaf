-- ===== src/NodeDaemon/Runs.antt =====
-- The node daemon in its event loop, `NodeDaemon::main`: what holds after any sequence of events.
use mpitofino.Prelude.{
  ℕ, ◌≡◌, refl, sym, ◌∙◌, ap, subst, Bool, true, false, ◌||◌, Option, none, some, List, [], ◌∷◌,
  ◌++◌, ◌==◌, if◌then◌else◌, Result, ok, err, ◌>>=◌, undefined_behaviour, runtime_error, arith,
  Bool-cases, Option-cases, inl, inr, IfReturns, IfReturns-bind, ==→eq,
}
use mpitofino.Prelude.OrderedMap.{some-inj, contains, contains-assign, assign}
use mpitofino.NodeDaemon.{
  NodeDaemon, Client, ClientResponse, has_client, find_client, set_client, on_client_conn,
  on_client_fd, on_tdp_fd, on_switch_fd, remove_client, ClientReceived, SwitchReceived, nothing,
  stream_ended, response, forward_response, deliver, response_key, not_readable, end_of_file,
  malformed, request, on_client_get_channel,
}
use mpitofino.NodeDaemon.Tracking.{
  IsTracking, AllUnique, is_used, is_used-erase_client, is_used-set_client, AllUnique-set_client,
}
use mpitofino.NodeDaemon.Requests.{on_client_fd-IsTracking}
use mpitofino.NodeDaemon.Topology.{on_tdp_fd-IsTracking}

-- What `Epoll` reports to the daemon, with what the calls of the handler give. An address that another
-- client has is none that the new element of a list can get.
pub data Event : Type 0 where
  client_conn : ℕ → Event
  client_fd : ℕ → ℕ → Bool → ClientReceived → Event
  tdp_fd : Bool → List ℕ → Event
  switch_fd : Bool → SwitchReceived → Event

unfoldable pub step : NodeDaemon → Event → Result NodeDaemon
step d (client_conn ptr) =
    if has_client ptr d.clients then err undefined_behaviour else ok (on_client_conn d ptr)
step d (client_fd ptr padding hangup received) = on_client_fd d ptr padding hangup received
step d (tdp_fd connects bytes) = on_tdp_fd d connects bytes
step d (switch_fd hangup received) = on_switch_fd d hangup received

-- The events, the latest first.
unfoldable pub run : NodeDaemon → List Event → Result NodeDaemon
run d [] = ok d
run d (e ∷ es) = run d es >>= λ d'. step d' e

has_client-append :
    (q ptr : ℕ) (cs : List Client) (c : Client)
    → has_client q (cs ++ c ∷ []) ≡ (has_client q cs || c.ptr == q)
unfolding has_client
has_client-append q ptr [] c = ground arith
has_client-append q ptr (x ∷ cs) c = ground (arith, has_client-append q ptr cs c)

AllUnique-append :
    (cs : List Client) (c : Client)
    → has_client c.ptr cs ≡ false
    → AllUnique cs
    → AllUnique (cs ++ c ∷ [])
unfolding has_client
AllUnique-append [] c h u = (refl, tt)
AllUnique-append (x ∷ cs) c h u =
    (ground (arith, has_client-append x.ptr c.ptr cs c), AllUnique-append cs c (ground arith) u.1)

is_used-append :
    (tag : ℕ) (cs : List Client) (c : Client)
    → contains tag c.channels ≡ false
    → is_used tag (cs ++ c ∷ []) ≡ is_used tag cs
unfolding is_used
is_used-append tag [] c h = ground arith
is_used-append tag (x ∷ cs) c h = ground (arith, is_used-append tag cs c h)

on_client_conn-IsTracking :
    (d : NodeDaemon) (ptr : ℕ)
    → has_client ptr d.clients ≡ false
    → IsTracking d
    → IsTracking (on_client_conn d ptr)
unfolding on_client_conn contains
on_client_conn-IsTracking d ptr h s =
    let c : Client = record { ptr = ptr; channels = []; pending_get_channel_responses = [] } in
    record {
      unique = AllUnique-append d.clients c h s.unique;
      view = λ tag. s.view tag ∙ sym (is_used-append tag d.clients c refl);
      linked = s.linked;
      used = λ tag e. s.used tag (sym (is_used-append tag d.clients c refl) ∙ e);
    }

-- The client that a response goes to, before and after the response is entered.
pub record IsWaiting (key : ℕ) (cs : List Client) (c : Client) : Type 0 where
  pub client : Client
  pub found : find_client c.ptr cs ≡ some client
  pub waits : contains key client.pending_get_channel_responses ≡ true
  pub same_channels : c.channels ≡ client.channels
  pub same_pending :
      (k : ℕ)
      → contains k c.pending_get_channel_responses ≡ contains k client.pending_get_channel_responses

pub find_client-has_client :
    (ptr : ℕ) (c : Client) (cs : List Client)
    → find_client ptr cs ≡ some c
    → has_client ptr cs ≡ true
unfolding find_client has_client
find_client-has_client ptr c [] f = cc
find_client-has_client ptr c (x ∷ cs) f = ground (arith, find_client-has_client ptr c cs)

find_client-other :
    (ptr : ℕ) (x c : Client) (cs : List Client)
    → has_client x.ptr cs ≡ false
    → find_client ptr cs ≡ some c
    → find_client ptr (x ∷ cs) ≡ some c
unfolding find_client
find_client-other ptr x c cs n f = elim (Bool-cases (x.ptr == ptr)) [
  | inl t ↦ cc (
    find_client-has_client ptr c cs f,
    subst (λ q. has_client q cs ≡ false) (==→eq x.ptr ptr t) n,
  )
  | inr e ↦ rw e f
]

pub forward_response-IsWaiting :
    (key : ℕ) (resp : ClientResponse) (cs : List Client) (c : Client)
    → AllUnique cs
    → forward_response key resp cs ≡ some c
    → IsWaiting key cs c
unfolding forward_response
forward_response-IsWaiting key resp [] c u h = cc
forward_response-IsWaiting key resp (x ∷ cs) c u h =
    elim (Bool-cases (contains key x.pending_get_channel_responses)) [
      | inl t ↦
          let same : record x {
            pending_get_channel_responses = assign key resp x.pending_get_channel_responses;
          }
              ≡ c =
            some-inj (rw t at h) in
          subst (IsWaiting key (x ∷ cs)) same (record {
            client = x;
            found = unfold find_client in ground arith;
            waits = t;
            same_channels = refl;
            same_pending = λ k. contains-assign k key resp x.pending_get_channel_responses;
          })
      | inr f ↦
          let w = forward_response-IsWaiting key resp cs c u.1 (rw f at h) in
          record {
            client = w.client;
            found = find_client-other c.ptr x w.client cs u.0 w.found;
            waits = w.waits;
            same_channels = w.same_channels;
            same_pending = w.same_pending;
          }
    ]

deliver-IsTracking :
    (key : ℕ) (d : NodeDaemon) (resp : ClientResponse) (writable : Bool) (o : Option Client)
    → forward_response key resp d.clients ≡ o
    → IsTracking d
    → IfReturns IsTracking (deliver d resp writable o)
deliver-IsTracking key d resp writable none f s = s
deliver-IsTracking key d resp false (some c) f s = tt
deliver-IsTracking key d resp true (some c) f s =
    let w = forward_response-IsWaiting key resp d.clients c s.unique f in
    let used : (tag : ℕ)
        → is_used tag (set_client c.ptr c.channels c.pending_get_channel_responses d.clients)
          ≡ is_used tag d.clients =
      λ tag.
        is_used-set_client tag c.ptr c.channels c.pending_get_channel_responses w.client d.clients
          w.found (λ e. ap (contains tag) w.same_channels ∙ e)
        ∙ rw (w.same_channels, is_used-erase_client tag c.ptr w.client d.clients w.found)
            (ground arith) in
    record {
      unique =
          AllUnique-set_client c.ptr c.channels c.pending_get_channel_responses d.clients s.unique;
      view = λ tag. s.view tag ∙ sym (used tag);
      linked = s.linked;
      used = λ tag e. s.used tag (sym (used tag) ∙ e);
    }

on_switch_fd-IsTracking :
    (d : NodeDaemon) (hangup : Bool) (received : SwitchReceived)
    → IsTracking d
    → IfReturns IsTracking (on_switch_fd d hangup received)
unfolding on_switch_fd
on_switch_fd-IsTracking d true nothing s = tt
on_switch_fd-IsTracking d false nothing s = s
on_switch_fd-IsTracking d hangup stream_ended s = tt
on_switch_fd-IsTracking d hangup (response client_id tag resp writable) s =
    let key = response_key client_id tag in
    IfReturns-bind IsTracking IsTracking
      (deliver d resp writable (forward_response key resp d.clients)) _
      (deliver-IsTracking key d resp writable (forward_response key resp d.clients) refl s)
      (λ d' h. stays d' h hangup)
  where
    stays :
        (d' : NodeDaemon)
        → IsTracking d'
        → (b : Bool) → IfReturns IsTracking (if b then err runtime_error else ok d')
    stays d' h true = tt
    stays d' h false = h

-- A socket that no client has is not in the set of `Epoll`.
unknown-IsTracking :
    (d : NodeDaemon) (ptr padding : ℕ) (hangup : Bool) (received : ClientReceived)
    → find_client ptr d.clients ≡ none
    → IsTracking d
    → IfReturns IsTracking (on_client_fd d ptr padding hangup received)
unfolding on_client_fd remove_client on_client_get_channel
unknown-IsTracking d ptr padding false not_readable f s = s
unknown-IsTracking d ptr padding true not_readable f s = rw (f, remove_client) s
unknown-IsTracking d ptr padding hangup end_of_file f s = rw (f, remove_client) s
unknown-IsTracking d ptr padding hangup malformed f s = tt
unknown-IsTracking d ptr padding hangup (request msg) f s = rw (f, on_client_get_channel) tt

pub step-IsTracking : (d : NodeDaemon) (e : Event) → IsTracking d → IfReturns IsTracking (step d e)
unfolding step
step-IsTracking d (client_conn ptr) s = elim (Bool-cases (has_client ptr d.clients)) [
  | inl t ↦ rw t tt
  | inr f ↦ rw f (on_client_conn-IsTracking d ptr f s)
]
step-IsTracking d (client_fd ptr padding hangup received) s =
    elim (Option-cases (find_client ptr d.clients)) [
      | inl f ↦ unknown-IsTracking d ptr padding hangup received f s
      | inr (c, f) ↦ on_client_fd-IsTracking d ptr padding hangup received c s f
    ]
step-IsTracking d (tdp_fd connects bytes) s = on_tdp_fd-IsTracking d connects bytes s
step-IsTracking d (switch_fd hangup received) s = on_switch_fd-IsTracking d hangup received s

-- Any sequence of connections, requests, ends of connections, announcements and responses of the switch
-- that throws nothing leaves the switch with exactly the channels that the clients of the node use, if
-- it had exactly those before.
pub run-IsTracking :
    (d : NodeDaemon) (es : List Event) → IsTracking d → IfReturns IsTracking (run d es)
unfolding run
run-IsTracking d [] s = s
run-IsTracking d (e ∷ es) s =
    IfReturns-bind IsTracking IsTracking (run d es) (λ d'. step d' e) (run-IsTracking d es s)
      (λ d' h. step-IsTracking d' e h)
