-- ===== src/NodeDaemon/Tracking.antt =====
-- What the switch believes that the node uses, and what its clients use.
use mpitofino.Prelude.{
  ℕ, ◌≡◌, refl, ◌∙◌, subst, Bool, true, false, ◌||◌, not, some, List, [], ◌∷◌, ◌==◌, arith,
  Bool-cases, inl, inr, ==→eq,
}
use mpitofino.Prelude.OrderedMap.{Map, some-inj, contains, insert, erase}
use mpitofino.SimpleTypes.{is_0000}
use mpitofino.Agent.{Tags, NdRequest, get_channel_request, unref_channel_request, not_set}
use mpitofino.NodeDaemon.{
  NodeDaemon, Client, ClientResponse, has_client, find_client, set_client, erase_client,
  other_users,
}

-- The channels of this node in the eyes of the switch: `Client.channels` of the switch's agent, after
-- the messages that the node has sent, the latest first.
unfoldable pub switch_view : List NdRequest → Tags
switch_view [] = []
switch_view (get_channel_request msg ∷ msgs) = insert msg.tag tt (switch_view msgs)
switch_view (unref_channel_request tag ∷ msgs) = erase tag (switch_view msgs)
switch_view (not_set ∷ msgs) = switch_view msgs

-- Whether some client of the node uses the channel.
unfoldable pub is_used : ℕ → List Client → Bool
is_used tag [] = false
is_used tag (c ∷ cs) = contains tag c.channels || is_used tag cs

-- No two clients have the same address.
abbrev pub AllUnique : List Client → Type 0
AllUnique [] = Unit
AllUnique (c ∷ cs) = (has_client c.ptr cs ≡ false) × AllUnique cs

-- The switch knows of exactly the channels that the clients use, and there is a connection to it as
-- soon as its address is known.
pub record IsTracking (d : NodeDaemon) : Type 0 where
  pub unique : AllUnique d.clients
  pub view : (tag : ℕ) → contains tag (switch_view d.to_switch) ≡ is_used tag d.clients
  pub linked : is_0000 d.nearest_switch_ip ≡ false → d.connected ≡ true
  pub used : (tag : ℕ) → is_used tag d.clients ≡ true → d.connected ≡ true

other_users-gone :
    (tag ptr : ℕ) (cs : List Client)
    → has_client ptr cs ≡ false
    → (other_users tag ptr cs == 0) ≡ not (is_used tag cs)
unfolding other_users has_client is_used
other_users-gone tag ptr [] h = refl
other_users-gone tag ptr (c ∷ cs) h = ground (arith, other_users-gone tag ptr cs)

module _ (tag ptr : ℕ) where
  pub other_users-erase_client :
      (cs : List Client)
      → AllUnique cs
      → (other_users tag ptr cs == 0) ≡ not (is_used tag (erase_client ptr cs))
  unfolding other_users is_used erase_client
  other_users-erase_client [] u = refl
  other_users-erase_client (c ∷ cs) u = elim (Bool-cases (c.ptr == ptr)) [
    | inl t ↦
        rw t (
          other_users-gone tag ptr cs
            (subst (λ p. has_client p cs ≡ false) (==→eq c.ptr ptr t) u.0))
    | inr f ↦ ground (arith, other_users-erase_client cs u.1)
  ]

  pub is_used-erase_client :
      (c : Client) (cs : List Client)
      → find_client ptr cs ≡ some c
      → is_used tag cs ≡ (contains tag c.channels || is_used tag (erase_client ptr cs))
  unfolding find_client is_used erase_client
  is_used-erase_client c [] f = cc
  is_used-erase_client c (x ∷ cs) f = ground (arith, is_used-erase_client c cs)

  pub is_used-set_client :
      (chs : Map ℕ) (pending : Map ClientResponse) (c : Client) (cs : List Client)
      → find_client ptr cs ≡ some c
      → (contains tag c.channels ≡ true → contains tag chs ≡ true)
      → is_used tag (set_client ptr chs pending cs) ≡ (contains tag chs || is_used tag cs)
  unfolding find_client is_used set_client
  is_used-set_client chs pending c [] f h = cc
  is_used-set_client chs pending c (x ∷ cs) f h = elim (Bool-cases (x.ptr == ptr)) [
    | inl t ↦
        let same : x ≡ c = some-inj (rw t at f) in
        let keeps : contains tag x.channels ≡ true → contains tag chs ≡ true =
          λ e. h (subst (λ (y : Client). contains tag y.channels ≡ true) same e) in
        rw t (ground (arith, keeps))
    | inr e ↦
        let rest = is_used-set_client chs pending c cs (rw e at f) h in rw (e, rest) (ground arith)
  ]

has_client-set_client :
    (q ptr : ℕ) (chs : Map ℕ) (pending : Map ClientResponse) (cs : List Client)
    → has_client q (set_client ptr chs pending cs) ≡ has_client q cs
unfolding has_client set_client
has_client-set_client q ptr chs pending [] = refl
has_client-set_client q ptr chs pending (c ∷ cs) =
    ground (arith, has_client-set_client q ptr chs pending cs)

pub AllUnique-set_client :
    (ptr : ℕ) (chs : Map ℕ) (pending : Map ClientResponse) (cs : List Client)
    → AllUnique cs
    → AllUnique (set_client ptr chs pending cs)
unfolding set_client
AllUnique-set_client ptr chs pending [] u = tt
AllUnique-set_client ptr chs pending (c ∷ cs) u = elim (Bool-cases (c.ptr == ptr)) [
  | inl t ↦ rw t u
  | inr e ↦ rw e (
    has_client-set_client c.ptr ptr chs pending cs ∙ u.0,
    AllUnique-set_client ptr chs pending cs u.1,
  )
]

has_client-erase_client :
    (q ptr : ℕ) (cs : List Client)
    → has_client q cs ≡ false
    → has_client q (erase_client ptr cs) ≡ false
unfolding has_client erase_client
has_client-erase_client q ptr [] h = refl
has_client-erase_client q ptr (c ∷ cs) h = ground (arith, has_client-erase_client q ptr cs)

pub AllUnique-erase_client :
    (ptr : ℕ) (cs : List Client) → AllUnique cs → AllUnique (erase_client ptr cs)
unfolding erase_client
AllUnique-erase_client ptr [] u = tt
AllUnique-erase_client ptr (c ∷ cs) u = elim (Bool-cases (c.ptr == ptr)) [
  | inl t ↦ rw t u.1
  | inr e ↦ rw e (has_client-erase_client c.ptr ptr cs u.0, AllUnique-erase_client ptr cs u.1)
]
