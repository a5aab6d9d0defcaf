-- ===== src/Rendezvous/Found.antt =====
-- The file that a process takes for the daemon's.
use mpitofino.Prelude.{
  ℕ, ◌≡◌, refl, sym, ◌∙◌, ap, ◌⊎◌, inl, inr, Option, none, some, List, [], ◌∷◌, ok, All,
}
use mpitofino.UnixSockets.{UnixSockets, FileType, not_found, socket_file, other_file}
use mpitofino.NodeDaemon.ServiceSocket.{sun_path}
use mpitofino.ClientLib.Connection.{find_socket_path}

module _ (u : UnixSockets) where
  -- The entry `e` is that of the first path at which a file exists, if it has one.
  abbrev pub IsFirst : ℕ → List (List ℕ) → u.State → Type 0
  IsFirst e [] s = ⊥
  IsFirst e (path ∷ paths) s =
      (u.entry path ≡ e)
      ⊎ ((u.symlink_status (u.entry path) s ≡ some not_found) × IsFirst e paths s)

  -- A path at the entry `e` that `sun_path` holds.
  pub record IsPathOf (e : ℕ) (path : List ℕ) : Type 0 where
    pub at : u.entry path ≡ e
    pub fits : sun_path path ≡ path

  pub find_socket_path-first :
      (e : ℕ) (paths : List (List ℕ)) (s : u.State)
      → All (λ path. sun_path path ≡ path) paths
      → u.symlink_status e s ≡ some socket_file
      → IsFirst e paths s
      → (path : List ℕ) × (find_socket_path u paths s ≡ ok (some path)) × IsPathOf e path
  unfolding find_socket_path
  find_socket_path-first e [] s f x h = absurd h
  find_socket_path-first e (path ∷ paths) s f x (inl h) =
      (path, rw (h, x) refl, record { at = h; fits = f.0 })
  find_socket_path-first e (path ∷ paths) s f x (inr h) =
      let (q, found, p) = find_socket_path-first e paths s f.1 x h.1 in (q, rw h.0 found, p)

  pub find_socket_path-IsFirst :
      (q : List ℕ) (paths : List (List ℕ)) (s : u.State)
      → All (λ path. sun_path path ≡ path) paths
      → find_socket_path u paths s ≡ ok (some q)
      → IsFirst (u.entry q) paths s × IsPathOf (u.entry q) q
  unfolding find_socket_path
  find_socket_path-IsFirst q [] s f h = cc
  find_socket_path-IsFirst q (path ∷ paths) s f h =
      split (u.symlink_status (u.entry path) s) refl (λ g. find_socket_path-IsFirst q paths s f.1 g)
    where
      taken : path ≡ q → IsFirst (u.entry q) (path ∷ paths) s × IsPathOf (u.entry q) q
      taken same =
          (inl (ap u.entry same), record { at = refl; fits = ap sun_path (sym same) ∙ f.0 ∙ same })

      split :
          (o : Option FileType)
          → u.symlink_status (u.entry path) s ≡ o
          → (find_socket_path u paths s ≡ ok (some q)
              → IsFirst (u.entry q) paths s × IsPathOf (u.entry q) q)
          → IsFirst (u.entry q) (path ∷ paths) s × IsPathOf (u.entry q) q
      split none e later = cc (rw e at h)
      split (some not_found) e later = let (first, p) = later (rw e at h) in (inr (e, first), p)
      split (some socket_file) e later = taken (cc (rw e at h))
      split (some other_file) e later = taken (cc (rw e at h))
