-- ===== src/Agent/Ownership.antt =====
-- A channel exists in the repository exactly as long as some client owns it.
use mpitofino.Prelude.{
  ℕ, ◌+◌, ◌≤◌, ◌≡◌, inl, inr, refl, ap, subst, true, false, ◌||◌, some, List, [], ◌∷◌, ◌++◌, ltb,
  ◌==◌, if◌then◌else◌, Bool-cases, arith, ==→eq, Returns, Returns-bind,
}
use mpitofino.Prelude.OrderedMap.{some-inj, contains, UniqueKeys, contains-erase}
use mpitofino.StateRepository.{StateRepository, remove_channel}
use mpitofino.Agent.{
  Client, Tags, find_client, set_channels, erase_client, owners, check_remove_channel,
  check_remove_channels,
}

-- `owns tag` as a number, so that it adds up with `owners`.
abbrev pub owns : ℕ → Tags → ℕ
owns tag tags = if contains tag tags then 1 else 0

pub owners-set_channels :
    (ptr : ℕ) (tags : Tags) (tag : ℕ) (cs : List Client) (c : Client)
    → find_client ptr cs ≡ some c
    → owners tag (set_channels ptr tags cs) + owns tag c.channels ≡ owners tag cs + owns tag tags
unfolding owners set_channels find_client
owners-set_channels ptr tags tag [] c h = cc
owners-set_channels ptr tags tag (d ∷ cs) c h =
    ground (arith, owners-set_channels ptr tags tag cs c)

pub owners-le :
    (ptr tag : ℕ) (cs : List Client) (c : Client)
    → find_client ptr cs ≡ some c
    → owns tag c.channels ≤ owners tag cs
unfolding owners find_client
owners-le ptr tag [] c h = cc
owners-le ptr tag (d ∷ cs) c h = ground (arith, owners-le ptr tag cs c)

pub find_client-set_channels :
    (ptr : ℕ) (tags : Tags) (cs : List Client) (c : Client)
    → find_client ptr cs ≡ some c
    → find_client ptr (set_channels ptr tags cs) ≡ some (record c { channels = tags })
unfolding set_channels find_client
find_client-set_channels ptr tags [] c h = cc
find_client-set_channels ptr tags (d ∷ cs) c h =
    ground (arith, find_client-set_channels ptr tags cs c)

pub owners-erase_client :
    (ptr tag : ℕ) (cs : List Client) (c : Client)
    → find_client ptr cs ≡ some c
    → owners tag (erase_client ptr cs) + owns tag c.channels ≡ owners tag cs
unfolding owners erase_client find_client
owners-erase_client ptr tag [] c h = cc
owners-erase_client ptr tag (d ∷ cs) c h = ground (arith, owners-erase_client ptr tag cs c)

-- Every client's set holds a tag once.
abbrev pub AllUnique : List Client → Type 0
AllUnique [] = Unit
AllUnique (c ∷ cs) = UniqueKeys c.channels × AllUnique cs

pub AllUnique-find :
    (ptr : ℕ) (cs : List Client) (c : Client)
    → AllUnique cs
    → find_client ptr cs ≡ some c
    → UniqueKeys c.channels
unfolding find_client
AllUnique-find ptr [] c u h = cc
AllUnique-find ptr (d ∷ cs) c u h = elim (Bool-cases (d.ptr == ptr)) [
  | inl e ↦ subst (λ x. UniqueKeys x.channels) (some-inj (rw e at h)) u.0
  | inr e ↦ AllUnique-find ptr cs c u.1 (rw e at h)
]

pub AllUnique-set_channels :
    (ptr : ℕ) (tags : Tags) (cs : List Client)
    → UniqueKeys tags
    → AllUnique cs
    → AllUnique (set_channels ptr tags cs)
unfolding set_channels
AllUnique-set_channels ptr tags [] k u = tt
AllUnique-set_channels ptr tags (d ∷ cs) k u = elim (Bool-cases (d.ptr == ptr)) [
  | inl e ↦ rw e (k, u.1)
  | inr e ↦ rw e (u.0, AllUnique-set_channels ptr tags cs k u.1)
]

pub AllUnique-erase_client :
    (ptr : ℕ) (cs : List Client) → AllUnique cs → AllUnique (erase_client ptr cs)
unfolding erase_client
AllUnique-erase_client ptr [] u = tt
AllUnique-erase_client ptr (d ∷ cs) u = elim (Bool-cases (d.ptr == ptr)) [
  | inl e ↦ rw e u.1
  | inr e ↦ rw e (u.0, AllUnique-erase_client ptr cs u.1)
]

-- The channels of the repository are those that some client owns, and those in `left`.
abbrev pub OwnedBut : StateRepository → List Client → Tags → Type 0
OwnedBut r cs left =
    (tag : ℕ) → contains tag r.channels ≡ (ltb 0 (owners tag cs) || contains tag left)

pub contains-nil : (j : ℕ) → contains {V = Unit {0}} j [] ≡ false
unfolding contains
contains-nil j = refl

pub owns-nil : (j : ℕ) → owns j [] ≡ 0
unfolding contains
owns-nil j = refl

pub owners-append :
    (ptr j : ℕ) (cs : List Client)
    → owners j (cs ++ record { ptr = ptr; channels = [] } ∷ []) ≡ owners j cs
unfolding owners contains
owners-append ptr j [] = refl
owners-append ptr j (c ∷ cs) = omega (arith, owners-append ptr j cs)

pub AllUnique-append :
    (ptr : ℕ) (cs : List Client)
    → AllUnique cs
    → AllUnique (cs ++ record { ptr = ptr; channels = [] } ∷ [])
AllUnique-append ptr [] u = (tt, tt)
AllUnique-append ptr (c ∷ cs) u = (u.0, AllUnique-append ptr cs u.1)

pub contains-cons :
    (j tag : ℕ) (left : Tags) → contains j ((tag, tt) ∷ left) ≡ (tag == j || contains j left)
unfolding contains
contains-cons j tag left = refl

remove_channel-OwnedBut :
    (r : StateRepository) (cs : List Client) (tag : ℕ) (left : Tags)
    → contains tag r.channels ≡ true
    → contains tag left ≡ false
    → owners tag cs ≡ 0
    → OwnedBut r cs ((tag, tt) ∷ left)
    → Returns (λ q. OwnedBut q cs left) (remove_channel r tag)
unfolding remove_channel
remove_channel-OwnedBut r cs tag left h u o inv = rw h (λ j. elim (Bool-cases (tag == j)) [
  | inl e ↦ ground (
    arith,
    contains-erase j tag r.channels,
    ap (λ (i : ℕ). contains i left),
    ap (λ (i : ℕ). owners i cs),
  )
  | inr e ↦ ground (arith, contains-erase j tag r.channels, inv j, contains-cons j tag left)
])

-- `check_remove_channel` never fails on a channel that is there, and drops it if nobody owns it.
pub check_remove_channel-OwnedBut :
    (r : StateRepository) (cs : List Client) (tag : ℕ) (left : Tags)
    → contains tag left ≡ false
    → OwnedBut r cs ((tag, tt) ∷ left)
    → Returns (λ q. OwnedBut q cs left) (check_remove_channel cs tag r)
unfolding check_remove_channel
check_remove_channel-OwnedBut r cs tag left u inv = elim (Bool-cases (owners tag cs == 0)) [
  | inl e ↦ rw e (
      remove_channel-OwnedBut r cs tag left (ground (arith, inv tag, contains-cons tag tag left)) u
        (==→eq _ _ e) inv)
  | inr e ↦ rw e (λ j. elim (Bool-cases (tag == j)) [
    | inl t ↦
        ground (arith, inv j, contains-cons j tag left, ap (λ (i : ℕ). owners i cs) (==→eq tag j t))
    | inr t ↦ ground (arith, inv j, contains-cons j tag left)
  ])
]

pub check_remove_channels-OwnedBut :
    (cs : List Client) (left : Tags) (r : StateRepository)
    → UniqueKeys left
    → OwnedBut r cs left
    → Returns (λ q. OwnedBut q cs []) (check_remove_channels cs left r)
unfolding check_remove_channels
check_remove_channels-OwnedBut cs [] r u inv = inv
check_remove_channels-OwnedBut cs ((tag, _) ∷ left) r u inv =
    Returns-bind (λ q. OwnedBut q cs left) (λ q. OwnedBut q cs []) (check_remove_channel cs tag r)
      (check_remove_channels cs left) (check_remove_channel-OwnedBut r cs tag left u.0 inv)
      (λ q h. check_remove_channels-OwnedBut cs left q u.1 h)
