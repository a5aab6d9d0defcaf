-- ===== src/Agent/Invariant.antt =====
-- The agent's invariant, and the events that keep it.
use mpitofino.Prelude.{
  ℕ, ◌≡◌, inl, inr, sym, ap, ◌∙◌, true, ◌||◌, some, List, [], ◌∷◌, ltb, ◌==◌, Bool-cases,
  Option-cases, Result, ok, err, Returns, IfReturns, Returns-bind, IfReturns-bind, arith, ==→eq,
}
use mpitofino.Prelude.OrderedMap.{contains, erase, UniqueKeys-erase, contains-erase}
use mpitofino.StateRepository.{StateRepository, remove_channel}
use mpitofino.StateRepository.Channels.{IsValid, erase-IsConsistent, IsKeyed-erase}
use mpitofino.Agent.{
  Agent, Client, Tags, find_client, set_channels, erase_client, owners, check_remove_channel,
  check_remove_channels, on_client_unref_channel, disconnect, on_new_client,
}
use mpitofino.Agent.Ownership.{
  OwnedBut, AllUnique, owners-set_channels, owners-le, owners-erase_client,
  find_client-set_channels, AllUnique-find, AllUnique-set_channels, AllUnique-erase_client,
  check_remove_channel-OwnedBut, check_remove_channels-OwnedBut, contains-cons, contains-nil,
  owns-nil, owners-append, AllUnique-append,
}

-- The repository is valid, and its channels are exactly those that some client owns.
pub record IsSound (a : Agent) : Type 0 where
  pub valid : IsValid a.st_repo
  pub owned : OwnedBut a.st_repo a.clients []
  pub unique : AllUnique a.clients

-- Removal of unowned channels keeps the repository valid.
check_remove_channel-IsValid :
    (cs : List Client) (tag : ℕ) (r : StateRepository)
    → IsValid r
    → IfReturns IsValid (check_remove_channel cs tag r)
unfolding check_remove_channel remove_channel
check_remove_channel-IsValid cs tag r v = elim (Bool-cases (owners tag cs == 0)) [
  | inl e ↦ rw e (elim (Bool-cases (contains tag r.channels)) [
    | inl t ↦ rw t (record {
      consistent = erase-IsConsistent r.channels tag v.consistent;
      keyed = IsKeyed-erase tag r.channels v.keyed;
      counter = v.counter;
    })
    | inr t ↦ rw t tt
  ])
  | inr e ↦ rw e v
]

check_remove_channels-IsValid :
    (cs : List Client) (tags : Tags) (r : StateRepository)
    → IsValid r
    → IfReturns IsValid (check_remove_channels cs tags r)
unfolding check_remove_channels
check_remove_channels-IsValid cs [] r v = v
check_remove_channels-IsValid cs ((tag, _) ∷ tags) r v =
    IfReturns-bind IsValid IsValid (check_remove_channel cs tag r) (check_remove_channels cs tags)
      (check_remove_channel-IsValid cs tag r v) (λ q h. check_remove_channels-IsValid cs tags q h)

-- Both sides of a result at once.
Returns-both :
    {A : Type 0} (P Q : A → Type 0) (m : Result A)
    → Returns P m
    → IfReturns Q m
    → Returns (λ a. P a × Q a) m
Returns-both P Q (ok a) p q = (p, q)
Returns-both P Q (err e) p q = p

-- When a connected client of a sound agent releases a channel, the handler throws nothing and the
-- agent is sound afterwards: every channel still in the repository has an owner.
pub on_client_unref_channel-IsSound :
    (a : Agent) (client tag : ℕ) (c : Client)
    → IsSound a
    → find_client client a.clients ≡ some c
    → Returns IsSound (on_client_unref_channel a client tag)
unfolding on_client_unref_channel
on_client_unref_channel-IsSound a client tag c s f =
    rw f (elim (Bool-cases (contains tag c.channels)) [
      | inr t ↦ rw t s
      | inl t ↦ rw t (
          Returns-bind (λ q. OwnedBut q clients [] × IsValid q) IsSound
            (check_remove_channel clients tag a.st_repo) _
            (Returns-both (λ q. OwnedBut q clients []) IsValid _
              (check_remove_channel-OwnedBut a.st_repo clients tag [] (contains-nil tag)
                (released t))
              (check_remove_channel-IsValid clients tag a.st_repo s.valid))
            (λ q h. record {
              valid = h.1;
              owned = h.0;
              unique =
                  AllUnique-set_channels client _ a.clients
                    (UniqueKeys-erase tag c.channels (AllUnique-find client a.clients c s.unique f))
                    s.unique;
            }))
    ])
  where
    clients : List Client
    clients = set_channels client (erase tag c.channels) a.clients

    released : contains tag c.channels ≡ true → OwnedBut a.st_repo clients ((tag, tt) ∷ [])
    released t j = elim (Bool-cases (tag == j)) [
      | inl e ↦ ground (
        arith,
        s.owned j,
        contains-cons j tag [],
        contains-nil j,
        ap (λ (i : ℕ). contains i c.channels) (==→eq tag j e),
        owners-le client j a.clients c f,
      )
      | inr e ↦ ground (
        arith,
        s.owned j,
        contains-cons j tag [],
        contains-erase j tag c.channels,
        owners-set_channels client (erase tag c.channels) j a.clients c f,
      )
    ]

-- The end of a client's connection to a sound agent throws nothing and leaves the agent sound: the
-- channels that are left all have an owner among the clients that are left.
pub disconnect-IsSound :
    (a : Agent) (client : ℕ) → IsSound a → Returns IsSound (disconnect a client)
unfolding disconnect
disconnect-IsSound a client s = elim (Option-cases (find_client client a.clients)) [
  | inl e ↦ rw (e, disconnect) s
  | inr (c, f) ↦
      rw (f, disconnect)
        (Returns-bind (λ q. OwnedBut q (clients c) [] × IsValid q) IsSound
          (check_remove_channels (clients c) c.channels a.st_repo) _
          (Returns-both (λ q. OwnedBut q (clients c) []) IsValid _
            (check_remove_channels-OwnedBut (clients c) c.channels a.st_repo
              (AllUnique-find client a.clients c s.unique f) (moved_out c f))
            (check_remove_channels-IsValid (clients c) c.channels a.st_repo s.valid))
          (λ q h. record {
            valid = h.1;
            owned = λ j. h.0 j ∙ ap (λ n. ltb 0 n || contains {V = Unit {0}} j []) (gone c f j);
            unique =
                AllUnique-erase_client client (clients c)
                  (AllUnique-set_channels client [] a.clients tt s.unique);
          }))
]
  where
    clients : Client → List Client
    clients c = set_channels client [] a.clients

    moved_out :
        (c : Client)
        → find_client client a.clients ≡ some c
        → OwnedBut a.st_repo (clients c) c.channels
    moved_out c f j = ground (
      arith,
      s.owned j,
      contains-nil j,
      owners-set_channels client [] j a.clients c f,
      owners-le client j a.clients c f,
    )

    gone :
        (c : Client)
        → find_client client a.clients ≡ some c
        → (j : ℕ) → owners j (clients c) ≡ owners j (erase_client client (clients c))
    gone c f j = omega (
      arith,
      owners-erase_client client j (clients c) (record c { channels = [] })
          (find_client-set_channels client [] a.clients c f),
      owns-nil j,
    )

-- A new connection owns nothing yet.
pub on_new_client-IsSound : (a : Agent) (ptr : ℕ) → IsSound a → IsSound (on_new_client a ptr)
unfolding on_new_client
on_new_client-IsSound a ptr s = record {
  valid = s.valid;
  owned = λ j.
      s.owned j
      ∙ ap (λ n. ltb 0 n || contains {V = Unit {0}} j []) (sym (owners-append ptr j a.clients));
  unique = AllUnique-append ptr a.clients s.unique;
}
