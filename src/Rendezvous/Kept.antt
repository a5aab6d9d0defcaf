-- ===== src/Rendezvous/Kept.antt =====
-- The socket that the daemon keeps from its loop over the paths.
use mpitofino.Prelude.{
  ℕ, ◌≡◌, ◌≢◌, sym, ◌∙◌, ap, inl, inr, Option, none, some, List, [], ◌∷◌, All, IfReturns,
  IfReturns-bind,
}
use native.Mathlib.Decide.{ℕ_discrete}
use mpitofino.UnixSockets.{UnixSockets, LeavesOthers, IsLawful}
use mpitofino.NodeDaemon.ServiceSocket.{sun_path, close_kept, keep_ready, try_path, try_paths}
use mpitofino.Rendezvous.Opened.{Serves, Tried, try_path-Tried}

module _ (u : UnixSockets) where
  -- The socket serves at the path, and at no other one.
  pub record IsKept (path : List ℕ) (fd : ℕ) (s : u.State) : Type 0 where
    pub serves : Serves u (u.entry path) fd s
    pub only : (e : ℕ) → e ≢ u.entry path → u.bound e s ≢ some fd

  -- The same for what the loop has kept so far, if anything.
  abbrev pub AnyKept : Option (List ℕ × ℕ) → u.State → Type 0
  AnyKept none s = Unit
  AnyKept (some (path, fd)) s = IsKept path fd s

  -- The paths name distinct entries, and other ones than the path that was kept.
  abbrev pub AllApart : List (List ℕ) → Type 0
  AllApart [] = Unit
  AllApart (path ∷ paths) = All (λ q. u.entry q ≢ u.entry path) paths × AllApart paths

  abbrev pub ApartFrom : Option (List ℕ × ℕ) → List (List ℕ) → Type 0
  ApartFrom none paths = Unit
  ApartFrom (some (path, fd)) paths = All (λ q. u.entry q ≢ u.entry path) paths

  abbrev pub AllFit : List (List ℕ) → Type 0
  AllFit paths = All (λ path. sun_path path ≡ path) paths

  module _ (laws : IsLawful u) where
    -- A socket that serves is not a new one.
    Serves-ne : (e fd g : ℕ) (s : u.State) → Serves u e g s → u.bound e s ≢ some fd → g ≢ fd
    Serves-ne e fd g s v n h = n (v.is_bound ∙ ap some h)

    -- Calls that concern another entry and another socket leave a socket serving.
    pub Serves-kept :
        (e fd d g : ℕ) (s t : u.State)
        → LeavesOthers u (some d) g s t
        → e ≢ d
        → fd ≢ g
        → Serves u e fd s
        → Serves u e fd t
    Serves-kept e fd d g s t o n m v = record {
      is_bound = o.same_bound e (λ h. n (cc)) ∙ v.is_bound;
      is_listening = o.same_listens fd m ∙ v.is_listening;
      is_file = o.same_status e (λ h. n (cc)) ∙ v.is_file;
    }

    skipped-IsKept :
        (path q : List ℕ) (fd : ℕ) (s : u.State) (p : Option ℕ × u.State) (w : Tried u laws q s p)
        → u.entry q ≢ u.entry path
        → p.0 ≡ none
        → ((g : ℕ) → u.bound (u.entry q) p.1 ≡ some g → u.bound (u.entry q) s ≡ some g)
        → IsKept path fd s
        → IsKept path fd p.1
    skipped-IsKept path q fd s p w n e b k = record {
      serves =
          Serves-kept (u.entry path) fd (u.entry q) w.fd s p.1 w.round.others (λ h. n (sym h))
            (Serves-ne (u.entry path) w.fd fd s k.serves (w.fresh (u.entry path))) k.serves;
      only = λ e' m h. elim (ℕ_discrete e' (u.entry q)) [
        | yes same ↦ k.only e' m (rw same (b fd (rw same at h)))
        | no other ↦ k.only e' m (sym (w.round.others.same_bound e' (λ x. other cc)) ∙ h)
      ];
    }

    opened-IsKept :
        (q : List ℕ) (s : u.State) (p : Option ℕ × u.State) (w : Tried u laws q s p)
        → Serves u (u.entry q) w.fd p.1
        → IsKept q w.fd p.1
    opened-IsKept q s p w v = record {
      serves = v;
      only = λ e n h. w.fresh e (sym (w.round.others.same_bound e (λ x. n cc)) ∙ h);
    }

    -- The socket that was kept before is closed, which is another one.
    closed-IsKept :
        (q : List ℕ) (fd old : ℕ) (s : u.State)
        → fd ≢ old
        → IsKept q fd s
        → IsKept q fd (u.close old s)
    closed-IsKept q fd old s n k =
        let quiet = laws.close-others s old in
        record {
          serves = record {
            is_bound = quiet.same_bound (u.entry q) (λ h. cc) ∙ k.serves.is_bound;
            is_listening = quiet.same_listens fd n ∙ k.serves.is_listening;
            is_file = quiet.same_status (u.entry q) (λ h. cc) ∙ k.serves.is_file;
          };
          only = λ e m h. k.only e m (sym (quiet.same_bound e (λ x. cc)) ∙ h);
        }

    close_kept-IsKept :
        (q : List ℕ) (kept : Option (List ℕ × ℕ)) (s : u.State) (p : Option ℕ × u.State)
        → (w : Tried u laws q s p) → AnyKept kept s
        → IsKept q w.fd p.1
        → IsKept q w.fd (close_kept u kept p.1)
    unfolding close_kept
    close_kept-IsKept q none s p w a k = k
    close_kept-IsKept q (some (path, old)) s p w a k =
        closed-IsKept q w.fd old p.1
          (λ h. Serves-ne (u.entry path) w.fd old s a.serves (w.fresh (u.entry path)) (sym h)) k

    keep_ready-AnyKept :
        (q : List ℕ) (kept : Option (List ℕ × ℕ)) (s : u.State) (p : Option ℕ × u.State)
        → Tried u laws q s p
        → ApartFrom kept (q ∷ [])
        → AnyKept kept s
        → AnyKept (keep_ready u q p.0 kept p.1).0 (keep_ready u q p.0 kept p.1).1
    unfolding keep_ready
    keep_ready-AnyKept q kept s p w n a = elim w.round.outcome [
      | inl h ↦ rw h.0 (skipped kept n a h.0 h.1)
      | inr h ↦ rw h.0 (close_kept-IsKept q kept s p w a (opened-IsKept q s p w h.1))
    ]
      where
        skipped :
            (kept : Option (List ℕ × ℕ))
            → ApartFrom kept (q ∷ [])
            → AnyKept kept s
            → p.0 ≡ none
            → ((g : ℕ) → u.bound (u.entry q) p.1 ≡ some g → u.bound (u.entry q) s ≡ some g)
            → AnyKept kept p.1
        skipped none n a e b = tt
        skipped (some (path, fd)) n a e b = skipped-IsKept path q fd s p w n.0 e b a

    -- What the loop keeps serves at its path, and at no other one.
    pub try_paths-AnyKept :
        (paths : List (List ℕ)) (kept : Option (List ℕ × ℕ)) (s : u.State)
        → AllFit paths
        → AllApart paths
        → ApartFrom kept paths
        → AnyKept kept s
        → IfReturns (λ p. AnyKept p.0 p.1) (try_paths u paths kept s)
    unfolding try_paths keep_ready
    try_paths-AnyKept [] kept s f n m a = a
    try_paths-AnyKept (q ∷ paths) kept s f n m a =
        IfReturns-bind (Tried u laws q s) (λ p. AnyKept p.0 p.1) (try_path u q s) _
          (try_path-Tried u laws q s f.0)
          λ p w.
            try_paths-AnyKept paths (keep_ready u q p.0 kept p.1).0 (keep_ready u q p.0 kept p.1).1
              f.1 n.1 (apart p.0 p.1 kept m) (keep_ready-AnyKept q kept s p w (first kept m) a)
      where
        first : (kept : Option (List ℕ × ℕ)) → ApartFrom kept (q ∷ paths) → ApartFrom kept (q ∷ [])
        first none m = tt
        first (some (path, fd)) m = (m.0, tt)

        apart :
            (o : Option ℕ) (t : u.State) (kept : Option (List ℕ × ℕ))
            → ApartFrom kept (q ∷ paths)
            → ApartFrom (keep_ready u q o kept t).0 paths
        apart none t none m = tt
        apart none t (some (path, fd)) m = m.1
        apart (some g) t kept m = n.0
