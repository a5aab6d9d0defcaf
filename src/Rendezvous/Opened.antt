-- ===== src/Rendezvous/Opened.antt =====
-- What one round of the daemon's loop over the paths leaves.
use mpitofino.Prelude.{
  ℕ, ◌≡◌, ◌≢◌, refl, sym, ◌∙◌, ◌⊎◌, inl, inr, true, Option, none, some, List, Result, ok, err,
  IfReturns, IfReturns-or_throw, system_error,
}
use mpitofino.UnixSockets.{
  UnixSockets, LeavesOthers, IsLawful, FileType, not_found, socket_file, other_file, Answer, done,
  denied, failed,
}
use mpitofino.UnixSockets.Frames.{LeavesOthers-trans, LeavesOthers-at}
use mpitofino.NodeDaemon.ServiceSocket.{
  sun_path, listen_on, bind_path, unlinked, replace_file, try_path,
}

module _ (u : UnixSockets) where
  -- The file at the entry `e` leads to the socket `fd`, which serves.
  pub record Serves (e fd : ℕ) (t : u.State) : Type 0 where
    pub is_bound : u.bound e t ≡ some fd
    pub is_listening : u.listens fd t ≡ true
    pub is_file : u.symlink_status e t ≡ some socket_file

  -- A round at the entry `e`, with the new socket `fd`.
  pub record Round (e fd : ℕ) (s : u.State) (p : Option ℕ × u.State) : Type 0 where
    pub others : LeavesOthers u (some e) fd s p.1
    pub outcome :
        ((p.0 ≡ none) × ((g : ℕ) → u.bound e p.1 ≡ some g → u.bound e s ≡ some g))
        ⊎ ((p.0 ≡ some fd) × Serves e fd p.1)

  module _ (laws : IsLawful u) where
    Round-denied : (e fd : ℕ) (s : u.State) → Round e fd s (none, u.close fd s)
    Round-denied e fd s = record {
      others = LeavesOthers-at e (laws.close-others s fd);
      outcome = inl (refl, λ g h. sym ((laws.close-others s fd).same_bound e (λ k. cc)) ∙ h);
    }

    listen_on-Round :
        (e fd : ℕ) (s : u.State) (a : Answer u.State)
        → u.bind_to fd e s ≡ a
        → IfReturns (Round e fd s) (listen_on u fd a s)
    unfolding listen_on
    listen_on-Round e fd s denied b = Round-denied e fd s
    listen_on-Round e fd s failed b = tt
    listen_on-Round e fd s (done t) b =
        IfReturns-or_throw (Round e fd s) (u.listen fd t) system_error (λ t'. ok (some fd, t'))
          (λ t' l.
            let quiet = laws.listen-others t t' fd l in
            record {
              others = LeavesOthers-trans (laws.bind-others s t fd e b) (LeavesOthers-at e quiet);
              outcome = inr (
                refl,
                record {
                  is_bound = quiet.same_bound e (λ h. cc) ∙ laws.bind-bound s t fd e b;
                  is_listening = laws.listen-listens t t' fd l;
                  is_file = quiet.same_status e (λ h. cc) ∙ laws.bind-status s t fd e b;
                },
              );
            })

    bind_path-Round :
        (path : List ℕ) (fd : ℕ) (s : u.State)
        → sun_path path ≡ path
        → IfReturns (Round (u.entry path) fd s) (bind_path u fd path s)
    unfolding bind_path
    bind_path-Round path fd s f =
        rw f (listen_on-Round (u.entry path) fd s (u.bind_to fd (u.entry path) s) refl)

    Round-after :
        (e fd : ℕ) (s t : u.State) (m : Result (Option ℕ × u.State))
        → LeavesOthers u (some e) fd s t
        → ((g : ℕ) → u.bound e t ≡ some g → u.bound e s ≡ some g)
        → IfReturns (Round e fd t) m
        → IfReturns (Round e fd s) m
    Round-after e fd s t (err x) o b r = tt
    Round-after e fd s t (ok p) o b r = record {
      others = LeavesOthers-trans o r.others;
      outcome = elim r.outcome [ inl q ↦ inl (q.0, λ g h. b g (q.1 g h)) | inr q ↦ inr q ];
    }

    unlinked-Round :
        (path : List ℕ) (fd : ℕ) (s : u.State) (a : Answer u.State)
        → sun_path path ≡ path
        → u.unlink (u.entry path) s ≡ a
        → IfReturns (Round (u.entry path) fd s) (unlinked u fd path a s)
    unfolding unlinked
    unlinked-Round path fd s denied f b = Round-denied (u.entry path) fd s
    unlinked-Round path fd s failed f b = tt
    unlinked-Round path fd s (done t) f b =
        Round-after (u.entry path) fd s t (bind_path u fd path t)
          (laws.unlink-others s t (u.entry path) fd b)
          (λ g h. cc (laws.unlink-bound s t (u.entry path) b)) (bind_path-Round path fd t f)

    replace_file-Round :
        (path : List ℕ) (fd : ℕ) (type : FileType) (s : u.State)
        → sun_path path ≡ path
        → IfReturns (Round (u.entry path) fd s) (replace_file u fd path type s)
    unfolding replace_file
    replace_file-Round path fd not_found s f = bind_path-Round path fd s f
    replace_file-Round path fd socket_file s f =
        unlinked-Round path fd s (u.unlink (u.entry path) s) f refl
    replace_file-Round path fd other_file s f = Round-denied (u.entry path) fd s

    -- A round with a socket that was bound to nothing.
    pub record Tried (path : List ℕ) (s : u.State) (p : Option ℕ × u.State) : Type 0 where
      pub fd : ℕ
      pub fresh : (e : ℕ) → u.bound e s ≢ some fd
      pub round : Round (u.entry path) fd s p

    pub try_path-Tried :
        (path : List ℕ) (s : u.State)
        → sun_path path ≡ path
        → IfReturns (Tried path s) (try_path u path s)
    unfolding try_path
    try_path-Tried path s f =
        IfReturns-or_throw (Tried path s) (u.socket s) system_error _ λ p opened.
          IfReturns-or_throw (Tried path s) (u.symlink_status (u.entry path) p.1) system_error _
            λ sock_stat _.
              IfReturns-or_throw (Tried path s) (u.status (u.entry path) p.1) system_error _
                λ type _.
                  with_fresh p.0 p.1 (replace_file u p.0 path type p.1) opened
                    (replace_file-Round path p.0 type p.1 f)
      where
        of_round :
            (fd : ℕ) (m : Result (Option ℕ × u.State))
            → ((e : ℕ) → u.bound e s ≢ some fd)
            → IfReturns (Round (u.entry path) fd s) m
            → IfReturns (Tried path s) m
        of_round fd (err x) fresh r = tt
        of_round fd (ok p) fresh r = record { fd = fd; fresh = fresh; round = r }

        with_fresh :
            (fd : ℕ) (t : u.State) (m : Result (Option ℕ × u.State))
            → u.socket s ≡ some (fd, t)
            → IfReturns (Round (u.entry path) fd t) m
            → IfReturns (Tried path s) m
        with_fresh fd t m opened r =
            let quiet = laws.socket-others s t fd opened in
            of_round fd m (laws.socket-fresh s t fd opened) (
              Round-after (u.entry path) fd s t m (LeavesOthers-at (u.entry path) quiet)
                (λ g h. sym (quiet.same_bound (u.entry path) (λ k. cc)) ∙ h) r)
