-- ===== src/NodeDaemon/Interfaces.antt =====
-- The interface of the high performance network that the constructor of `NodeDaemon` chooses.
use mpitofino.Prelude.{
  ℕ, ◌≡◌, refl, sym, ◌∙◌, ap, ◌⊎◌, inl, inr, Option, none, some, List, [], ◌∷◌, ◌++◌, All, ok,
  or_throw, bind-ok, system_error, true, false, Bool-cases, ==→eq, ◌==◌,
}
use mpitofino.Prelude.OrderedMap.{some-inj}
use mpitofino.SimpleTypes.{MacAddr}
use mpitofino.NodeDaemon.Startup.{
  Ifaddrs, inet_addr, usable_addr, copy_name, query, choose_interface,
}

-- The interface is up, is no loopback interface and has this IPv4 address.
pub record HasAddr (i : Ifaddrs) (ip : ℕ) : Type 0 where
  pub up : i.is_up ≡ true
  pub outside : i.is_loopback ≡ false
  pub addr : i.ifa_addr ≡ some (2, ip)

abbrev pub AllUnusable : List Ifaddrs → Type 0
AllUnusable = All (λ i. (ip : ℕ) → HasAddr i ip → ⊥)

HasAddr-family :
    (i : Ifaddrs) (o : Option (ℕ × ℕ)) (ip : ℕ)
    → i.is_up ≡ true
    → i.is_loopback ≡ false
    → i.ifa_addr ≡ o
    → inet_addr o ≡ some ip
    → HasAddr i ip
HasAddr-family i none ip up out e h = cc
HasAddr-family i (some (family, a)) ip up out e h = elim (Bool-cases (family == 2)) [
  | inr f ↦ cc (rw f at h)
  | inl t ↦ record {
    up = up;
    outside = out;
    addr =
        e ∙ ap (λ n. some (n, a)) (==→eq family 2 t) ∙ ap (λ n. some (2, n)) (some-inj (rw t at h));
  }
]

usable_addr-HasAddr : (i : Ifaddrs) (ip : ℕ) → usable_addr i ≡ some ip → HasAddr i ip
unfolding usable_addr
usable_addr-HasAddr i ip h = elim (Bool-cases i.is_up) [
  | inr f ↦ cc (rw f at h)
  | inl t ↦ elim (Bool-cases i.is_loopback) [
    | inl l ↦ cc (rw (t, l) at h)
    | inr f ↦ HasAddr-family i i.ifa_addr ip t f refl (rw (t, f) at h)
  ]
]

HasAddr-usable_addr : (i : Ifaddrs) (ip : ℕ) → HasAddr i ip → usable_addr i ≡ some ip
unfolding usable_addr
HasAddr-usable_addr i ip h = rw (h.up, h.outside, h.addr) refl

-- The address and the hardware address of the last interface in the list that is up, is no loopback
-- interface and has an IPv4 address.
pub record IsLastUsable (hwaddr : List ℕ → Option MacAddr) (is : List Ifaddrs) (hpn : ℕ × MacAddr)
    : Type 0 where
  pub before : List Ifaddrs
  pub i : Ifaddrs
  pub later : List Ifaddrs
  pub at : is ≡ before ++ i ∷ later
  pub addr : HasAddr i hpn.0
  pub unusable : AllUnusable later
  pub ifr_name : List ℕ
  pub copied : copy_name i.ifa_name ≡ ok ifr_name
  pub mac : hwaddr ifr_name ≡ some hpn.1

module _ (hwaddr : List ℕ → Option MacAddr) where
  or_throw-some : {A : Type 0} (o : Option A) (a : A) → or_throw o system_error ≡ ok a → o ≡ some a
  or_throw-some none a h = cc
  or_throw-some (some b) a h = cc

  -- The query of a usable interface that returned.
  query-usable :
      (i : Ifaddrs) (is : List Ifaddrs) (addr : ℕ) (hpn hpn' : ℕ × MacAddr)
      → usable_addr i ≡ some addr
      → AllUnusable is
      → query hwaddr i.ifa_name (some addr) hpn ≡ ok hpn'
      → IsLastUsable hwaddr (i ∷ is) hpn'
  unfolding query
  query-usable i is addr hpn hpn' f n h =
      let (ifr_name, (copied, rest)) = bind-ok (copy_name i.ifa_name) _ hpn' h in
      let (mac, (found, last)) = bind-ok (or_throw (hwaddr ifr_name) system_error) _ hpn' rest in
      let e0 : addr ≡ hpn'.0 = cc (last) in
      let e1 : mac ≡ hpn'.1 = cc (last) in
      record {
        before = [];
        i = i;
        later = is;
        at = refl;
        addr = usable_addr-HasAddr i hpn'.0 (f ∙ ap some e0);
        unusable = n;
        ifr_name = ifr_name;
        copied = copied;
        mac = or_throw-some (hwaddr ifr_name) mac found ∙ ap some e1;
      }

  -- If the loop over the interfaces returns, it has the addresses of the last usable one, or those that
  -- it began with if none is usable.
  pub choose_interface-IsLastUsable :
      (is : List Ifaddrs) (hpn hpn' : ℕ × MacAddr)
      → choose_interface hwaddr is hpn ≡ ok hpn'
      → IsLastUsable hwaddr is hpn' ⊎ (AllUnusable is × (hpn' ≡ hpn))
  unfolding choose_interface
  choose_interface-IsLastUsable [] hpn hpn' h = inr (tt, cc)
  choose_interface-IsLastUsable (i ∷ is) hpn hpn' h =
      let (mid, (queried, rest)) =
        bind-ok (query hwaddr i.ifa_name (usable_addr i) hpn) (choose_interface hwaddr is) hpn' h in
      elim (choose_interface-IsLastUsable is mid hpn' rest) [
        | inl l ↦ inl (record {
          before = i ∷ l.before;
          i = l.i;
          later = l.later;
          at = ap (λ js. i ∷ js) l.at;
          addr = l.addr;
          unusable = l.unusable;
          ifr_name = l.ifr_name;
          copied = l.copied;
          mac = l.mac;
        })
        | inr (n, e) ↦ first (usable_addr i) refl mid queried n e
      ]
    where
      unusable_of : usable_addr i ≡ none → (ip : ℕ) → HasAddr i ip → ⊥
      unusable_of f ip h = cc (f, HasAddr-usable_addr i ip h)

      first :
          (o : Option ℕ)
          → usable_addr i ≡ o
          → (mid : ℕ × MacAddr) → query hwaddr i.ifa_name (usable_addr i) hpn ≡ ok mid
          → AllUnusable is
          → hpn' ≡ mid
          → IsLastUsable hwaddr (i ∷ is) hpn' ⊎ (AllUnusable (i ∷ is) × (hpn' ≡ hpn))
      first none f mid queried n e =
          inr ((unusable_of f, n), e ∙ unfold query in cc (rw f at queried))
      first (some addr) f mid queried n e =
          inl (query-usable i is addr hpn hpn' f n (rw f at queried ∙ ap ok (sym e)))
