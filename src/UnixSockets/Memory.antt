-- ===== src/UnixSockets/Memory.antt =====
-- A system in memory that meets the laws of the interface. Its
-- paths are told apart by their length.
use mpitofino.Prelude.{
  ℕ, ◌+◌, ◌<◌, ◌≡◌, refl, ap, ◌≢◌, subst, Bool, true, false, not, List, [], ◌∷◌, Option, none, some,
  ◌==◌, if◌then◌else◌, arith, Bool-cases, inl, inr, length,
}
use mpitofino.Prelude.OrderedMap.{some-inj}
use mpitofino.UnixSockets.{
  UnixSockets, FileType, not_found, socket_file, Answer, done, denied, failed, LeavesOthers,
  IsLawful,
}

-- `names` holds the socket bound to an entry, or that it was unlinked, the latest first; `open_for` the
-- sockets that listen, the latest first; `forbidden` the entries in a directory of another user.
pub record Memory : Type 0 where
  pub names : List (ℕ × Option ℕ)
  pub open_for : List (ℕ × Bool)
  pub forbidden : ℕ → Bool

unfoldable pub bound_in : ℕ → List (ℕ × Option ℕ) → Option ℕ
bound_in e [] = none
bound_in e ((d, o) ∷ names) = if d == e then o else bound_in e names

unfoldable pub listens_in : ℕ → List (ℕ × Bool) → Bool
listens_in fd [] = false
listens_in fd ((g, b) ∷ open_for) = if g == fd then b else listens_in fd open_for

-- A number above those of all sockets that were bound.
unfoldable pub fresh : List (ℕ × Option ℕ) → ℕ
fresh [] = 3
fresh ((d, none) ∷ names) = fresh names
fresh ((d, some fd) ∷ names) = fd + 1 + fresh names

abbrev kind_of : Option ℕ → FileType
kind_of none = not_found
kind_of (some fd) = socket_file

abbrev bind_in : ℕ → ℕ → Memory → Option ℕ → Answer Memory
bind_in fd e m none =
    if m.forbidden e then denied else done (record m { names = (e, some fd) ∷ m.names })
bind_in fd e m (some old) = failed

abbrev connect_in : Memory → Option ℕ → Option (ℕ × Memory)
connect_in m none = none
connect_in m (some g) = if listens_in g m.open_for then some (g, m) else none

abbrev pub memory_sockets : UnixSockets
memory_sockets = record {
  State = Memory;
  entry = λ path. length path;
  status = λ e m. some (kind_of (bound_in e m.names));
  symlink_status = λ e m. some (kind_of (bound_in e m.names));
  unlink = λ e m. if m.forbidden e then denied else done (record m { names = (e, none) ∷ m.names });
  socket = λ m. some (fresh m.names, m);
  bind_to = λ fd e m. bind_in fd e m (bound_in e m.names);
  listen = λ fd m. some (record m { open_for = (fd, true) ∷ m.open_for });
  close = λ fd m. record m { open_for = (fd, false) ∷ m.open_for };
  connect = λ fd e m. connect_in m (bound_in e m.names);
  bound = λ e m. bound_in e m.names;
  listens = λ fd m. listens_in fd m.open_for;
  may_write = λ e m. not (m.forbidden e);
}

bound_in-lt-fresh :
    (e fd : ℕ) (names : List (ℕ × Option ℕ)) → bound_in e names ≡ some fd → fd < fresh names
unfolding bound_in fresh
bound_in-lt-fresh e fd [] h = cc
bound_in-lt-fresh e fd ((d, none) ∷ names) h = ground (arith, bound_in-lt-fresh e fd names)
bound_in-lt-fresh e fd ((d, some g) ∷ names) h = ground (arith, bound_in-lt-fresh e fd names)

bound_in-other :
    (d e : ℕ) (o : Option ℕ) (names : List (ℕ × Option ℕ))
    → some d ≢ some e
    → bound_in d ((e, o) ∷ names) ≡ bound_in d names
unfolding bound_in
bound_in-other d e o names n = ground arith

others_of :
    (m : Memory) (e fd : ℕ) (o : Option ℕ)
    → LeavesOthers memory_sockets (some e) fd m (record m { names = (e, o) ∷ m.names })
others_of m e fd o = record {
  same_bound = λ d n. bound_in-other d e o m.names n;
  same_status = λ d n. ap (λ b. some (kind_of b)) (bound_in-other d e o m.names n);
  same_may_write = λ d n. refl;
  same_listens = λ g n. refl;
}

others_of_listening :
    (m : Memory) (fd : ℕ) (b : Bool)
    → LeavesOthers memory_sockets none fd m (record m { open_for = (fd, b) ∷ m.open_for })
unfolding listens_in
others_of_listening m fd b = record {
  same_bound = λ d n. refl;
  same_status = λ d n. refl;
  same_may_write = λ d n. refl;
  same_listens = λ g n. ground arith;
}

others_of_nothing : (m : Memory) (fd : ℕ) → LeavesOthers memory_sockets none fd m m
others_of_nothing m fd = record {
  same_bound = λ d n. refl;
  same_status = λ d n. refl;
  same_may_write = λ d n. refl;
  same_listens = λ g n. refl;
}

-- A `bind` that returned.
bind_in-done :
    (fd e : ℕ) (m t : Memory) (o : Option ℕ)
    → bind_in fd e m o ≡ done t
    → record m { names = (e, some fd) ∷ m.names } ≡ t
bind_in-done fd e m t none h = elim (Bool-cases (m.forbidden e)) [
  | inl b ↦ cc (rw b at h)
  | inr b ↦ cc (rw b at h)
]
bind_in-done fd e m t (some g) h = cc

connect_in-some :
    (m t : Memory) (g : ℕ) (o : Option ℕ)
    → connect_in m o ≡ some (g, t)
    → (o ≡ some g) × (listens_in g m.open_for ≡ true)
connect_in-some m t g none h = cc
connect_in-some m t g (some k) h = elim (Bool-cases (listens_in k m.open_for)) [
  | inl b ↦ (cc (rw b at h), cc (rw b at h))
  | inr b ↦ cc (rw b at h)
]

bound_in_self :
    (e : ℕ) (o : Option ℕ) (names : List (ℕ × Option ℕ)) → bound_in e ((e, o) ∷ names) ≡ o
unfolding bound_in
bound_in_self e o names = ground arith

listens_in_self :
    (fd : ℕ) (b : Bool) (open_for : List (ℕ × Bool)) → listens_in fd ((fd, b) ∷ open_for) ≡ b
unfolding listens_in
listens_in_self fd b open_for = ground arith

-- The system in memory meets the laws.
pub memory_sockets-IsLawful : IsLawful memory_sockets
memory_sockets-IsLawful = record {
  socket-fresh = λ s t fd h e k.
      let same : fresh s.names ≡ fd = cc in
      absurd (omega (arith, bound_in-lt-fresh e fd s.names k));
  socket-others = λ s t fd h.
      let same : s ≡ t = cc in
      subst (LeavesOthers memory_sockets none fd s) same (others_of_nothing s fd);
  unlink-others = λ s t e fd h. elim (Bool-cases (s.forbidden e)) [
    | inl b ↦ cc (rw b at h)
    | inr b ↦
        let same : record s { names = (e, none) ∷ s.names } ≡ t = cc (rw b at h) in
        subst (LeavesOthers memory_sockets (some e) fd s) same (others_of s e fd none)
  ];
  unlink-bound = λ s t e h. elim (Bool-cases (s.forbidden e)) [
    | inl b ↦ cc (rw b at h)
    | inr b ↦
        let same : record s { names = (e, none) ∷ s.names } ≡ t = cc (rw b at h) in
        subst (λ (m : Memory). bound_in e m.names ≡ none) same (bound_in_self e none s.names)
  ];
  bind-others = λ s t fd e h.
      subst (LeavesOthers memory_sockets (some e) fd s)
        (bind_in-done fd e s t (bound_in e s.names) h) (others_of s e fd (some fd));
  bind-bound = λ s t fd e h.
      subst (λ (m : Memory). bound_in e m.names ≡ some fd)
        (bind_in-done fd e s t (bound_in e s.names) h) (bound_in_self e (some fd) s.names);
  bind-status = λ s t fd e h.
      subst (λ (m : Memory). some (kind_of (bound_in e m.names)) ≡ some socket_file)
        (bind_in-done fd e s t (bound_in e s.names) h)
        (ap (λ o. some (kind_of o)) (bound_in_self e (some fd) s.names));
  listen-others = λ s t fd h.
      subst (LeavesOthers memory_sockets none fd s) (some-inj h) (others_of_listening s fd true);
  listen-listens = λ s t fd h.
      subst (λ (m : Memory). listens_in fd m.open_for ≡ true) (some-inj h)
        (listens_in_self fd true s.open_for);
  close-others = λ s fd. others_of_listening s fd false;
  close-listens = λ s fd. listens_in_self fd false s.open_for;
  connect-accepted = λ s fd e g b l w. (s, rw (b, l) refl);
  connect-bound = λ s t fd e g h. (connect_in-some s t g (bound_in e s.names) h).0;
  connect-listens = λ s t fd e g h. (connect_in-some s t g (bound_in e s.names) h).1;
}
