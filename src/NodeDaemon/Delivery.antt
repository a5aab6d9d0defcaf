-- ===== src/NodeDaemon/Delivery.antt =====
-- The responses of the switch, and the clients that asked for them.
use mpitofino.Prelude.{
  ℕ, ◌≡◌, refl, sym, ◌∙◌, subst, Bool, true, false, ◌||◌, ◌&&◌, some, List, [], ◌∷◌, ◌++◌, ◌==◌,
  if◌then◌else◌, ok, arith, Bool-cases, Option-cases, inl, inr, All, IfReturns, IfReturns-bind,
  ==→eq, ==-refl,
}
use mpitofino.Prelude.OrderedMap.{Map, contains, insert, contains-insert}
use mpitofino.SimpleTypes.{is_0000}
use mpitofino.Agent.{NdRequest, get_channel_request, unref_channel_request}
use mpitofino.NodeDaemon.{
  NodeDaemon, Client, ClientResponse, ClientGetChannel, has_client, find_client, set_client,
  erase_client, remove_client, response_key, empty_response, not_readable, end_of_file, malformed,
  request, on_client_get_channel, unref_channels, send_to_switch, other_users, switch_request,
}
use mpitofino.NodeDaemon.Runs.{Event, client_conn, client_fd, tdp_fd, switch_fd}

-- The client at the address has asked for the response with this key since it connected.
unfoldable pub asked : ℕ → ℕ → List Event → Bool
asked ptr key [] = false
asked ptr key (client_conn p ∷ es) = if p == ptr then false else asked ptr key es
asked ptr key (client_fd p padding hangup (request msg) ∷ es) =
    p == ptr && response_key msg.client_id msg.tag == key || asked ptr key es
asked ptr key (client_fd p padding hangup not_readable ∷ es) = asked ptr key es
asked ptr key (client_fd p padding hangup end_of_file ∷ es) = asked ptr key es
asked ptr key (client_fd p padding hangup malformed ∷ es) = asked ptr key es
asked ptr key (tdp_fd connects bytes ∷ es) = asked ptr key es
asked ptr key (switch_fd hangup received ∷ es) = asked ptr key es

-- A client waits only for what it has asked for.
abbrev pub AllAsked : List Event → List Client → Type 0
AllAsked es cs =
    All
      (λ (c : Client).
        (key : ℕ) → contains key c.pending_get_channel_responses ≡ true → asked c.ptr key es ≡ true)
      cs

-- More was asked for later.
pub AllAsked-imp :
    (es fs : List Event) (cs : List Client)
    → ((ptr key : ℕ) → has_client ptr cs ≡ true → asked ptr key es ≡ true → asked ptr key fs ≡ true)
    → AllAsked es cs
    → AllAsked fs cs
unfolding has_client
AllAsked-imp es fs [] h a = tt
AllAsked-imp es fs (c ∷ cs) h a = (
  λ key w. h c.ptr key (ground arith) (a.0 key w),
  AllAsked-imp es fs cs (λ ptr key t. h ptr key (ground arith)) a.1,
)

AllAsked-erase_client :
    (es : List Event) (ptr : ℕ) (cs : List Client)
    → AllAsked es cs
    → AllAsked es (erase_client ptr cs)
unfolding erase_client
AllAsked-erase_client es ptr [] a = tt
AllAsked-erase_client es ptr (c ∷ cs) a = elim (Bool-cases (c.ptr == ptr)) [
  | inl t ↦ rw t a.1
  | inr f ↦ rw f (a.0, AllAsked-erase_client es ptr cs a.1)
]

pub AllAsked-set_client :
    (es : List Event) (ptr : ℕ) (chs : Map ℕ) (pending : Map ClientResponse) (cs : List Client)
    → ((key : ℕ) → contains key pending ≡ true → asked ptr key es ≡ true)
    → AllAsked es cs
    → AllAsked es (set_client ptr chs pending cs)
unfolding set_client
AllAsked-set_client es ptr chs pending [] h a = tt
AllAsked-set_client es ptr chs pending (c ∷ cs) h a = elim (Bool-cases (c.ptr == ptr)) [
  | inl t ↦
      rw t (λ key w. subst (λ p. asked p key es ≡ true) (sym (==→eq c.ptr ptr t)) (h key w), a.1)
  | inr f ↦ rw f (a.0, AllAsked-set_client es ptr chs pending cs h a.1)
]

pub AllAsked-append :
    (es : List Event) (ptr : ℕ) (cs : List Client)
    → AllAsked es cs
    → AllAsked es
        (cs ++ record { ptr = ptr; channels = []; pending_get_channel_responses = [] } ∷ [])
unfolding contains
AllAsked-append es ptr [] a = (λ key w. cc, tt)
AllAsked-append es ptr (c ∷ cs) a = (a.0, AllAsked-append es ptr cs a.1)

pub AllAsked-find_client :
    (es : List Event) (ptr : ℕ) (cs : List Client) (c : Client)
    → find_client ptr cs ≡ some c
    → AllAsked es cs
    → (key : ℕ) → contains key c.pending_get_channel_responses ≡ true
    → asked ptr key es ≡ true
unfolding find_client
AllAsked-find_client es ptr [] c f a = cc
AllAsked-find_client es ptr (x ∷ cs) c f a = elim (Bool-cases (x.ptr == ptr)) [
  | inl t ↦
      let same : x ≡ c = cc (rw t at f) in
      λ key w. subst (λ p. asked p key es ≡ true) (==→eq x.ptr ptr t) (a.0 key (rw same w))
  | inr n ↦ AllAsked-find_client es ptr cs c (rw n at f) a.1
]

abbrev pub IsAsked : List Event → NodeDaemon → Type 0
IsAsked es d = AllAsked es d.clients

send_to_switch-IsAsked :
    (es : List Event) (msg : NdRequest) (d : NodeDaemon)
    → IsAsked es d
    → IfReturns (IsAsked es) (send_to_switch msg d)
unfolding send_to_switch
send_to_switch-IsAsked es msg d a = elim (Bool-cases d.connected) [
  | inl t ↦ rw t a
  | inr f ↦ rw f tt
]

unref_channels-IsAsked :
    (es : List Event) (ptr : ℕ) (chs : Map ℕ) (d : NodeDaemon)
    → IsAsked es d
    → IfReturns (IsAsked es) (unref_channels ptr chs d)
unfolding unref_channels
unref_channels-IsAsked es ptr [] d a = a
unref_channels-IsAsked es ptr ((tag, qp) ∷ chs) d a =
    IfReturns-bind (IsAsked es) (IsAsked es) _ (unref_channels ptr chs)
      (told (other_users tag ptr d.clients == 0)) (λ d' h. unref_channels-IsAsked es ptr chs d' h)
  where
    told :
        (b : Bool)
        → IfReturns (IsAsked es) (if b then send_to_switch (unref_channel_request tag) d else ok d)
    told true = send_to_switch-IsAsked es (unref_channel_request tag) d a
    told false = a

pub remove_client-IsAsked :
    (es : List Event) (d : NodeDaemon) (ptr : ℕ)
    → IsAsked es d
    → IfReturns (IsAsked es) (remove_client d ptr)
unfolding remove_client
remove_client-IsAsked es d ptr a = elim (Option-cases (find_client ptr d.clients)) [
  | inl f ↦ rw (f, remove_client) a
  | inr (c, f) ↦
      rw (f, remove_client)
        (IfReturns-bind (IsAsked es) (IsAsked es) (unref_channels ptr c.channels d) _
          (unref_channels-IsAsked es ptr c.channels d a)
          (λ d' h. AllAsked-erase_client es ptr d'.clients h))
]

pub remove_if-IsAsked :
    (es : List Event) (d : NodeDaemon) (ptr : ℕ) (b : Bool)
    → IsAsked es d
    → IfReturns (IsAsked es) (if b then remove_client d ptr else ok d)
remove_if-IsAsked es d ptr true a = remove_client-IsAsked es d ptr a
remove_if-IsAsked es d ptr false a = a

-- A request is entered among those that its client waits for.
pub on_client_get_channel-IsAsked :
    (es : List Event) (d : NodeDaemon) (ptr padding : ℕ) (hangup : Bool) (msg : ClientGetChannel)
    → IsAsked (client_fd ptr padding hangup (request msg) ∷ es) d
    → IfReturns
        (IsAsked (client_fd ptr padding hangup (request msg) ∷ es))
        (on_client_get_channel d ptr padding msg)
unfolding on_client_get_channel
on_client_get_channel-IsAsked es d ptr padding hangup msg a =
    elim (Option-cases (find_client ptr d.clients)) [
      | inl f ↦ rw (f, on_client_get_channel) tt
      | inr (c, f) ↦ elim (Bool-cases (is_0000 d.nearest_switch_ip)) [
        | inl z ↦ rw (f, on_client_get_channel, z) a
        | inr n ↦
            let now = client_fd ptr padding hangup (request msg) ∷ es in
            let pending = c.pending_get_channel_responses in
            let new = response_key msg.client_id msg.tag in
            rw (f, on_client_get_channel, n)
              (IfReturns-bind (IsAsked now) (IsAsked now)
                (send_to_switch (get_channel_request (switch_request d padding msg)) d) _
                (send_to_switch-IsAsked now (get_channel_request (switch_request d padding msg)) d
                  a)
                λ d' h.
                  AllAsked-set_client now ptr (insert msg.tag msg.local_qp c.channels)
                    (insert new empty_response pending) d'.clients
                    (λ key w.
                      waits c f key (new == key) refl
                        (sym (contains-insert key new empty_response pending) ∙ w))
                    h)
      ]
    ]
  where
    waits :
        (c : Client)
        → find_client ptr d.clients ≡ some c
        → (key : ℕ) (b : Bool) → (response_key msg.client_id msg.tag == key) ≡ b
        → (b || contains key c.pending_get_channel_responses) ≡ true
        → asked ptr key (client_fd ptr padding hangup (request msg) ∷ es) ≡ true
    waits c f key true e w = unfold asked in rw (==-refl ptr, e) refl
    waits c f key false e w =
        AllAsked-find_client (client_fd ptr padding hangup (request msg) ∷ es) ptr d.clients c f a
          key w
