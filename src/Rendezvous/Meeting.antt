-- ===== src/Rendezvous/Meeting.antt =====
-- When a process reaches the daemon of its node, and when it does not.
use native.Mathlib.Decide.{ℕ_discrete}
use mpitofino.Prelude.{
  ℕ, ◌≡◌, ◌≢◌, ◌↔◌, refl, sym, ◌∙◌, ap, subst, inl, inr, true, false, Option, none, some, List, [],
  ◌∷◌, ◌++◌, Result, ok, err, ◌>>=◌, or_throw, Returns, Returns-ok, IfReturns, system_error,
  runtime_error, Option-cases,
}
use mpitofino.Prelude.OrderedMap.{some-inj}
use mpitofino.UnixSockets.{UnixSockets, IsLawful, socket_file}
use mpitofino.NodeDaemon.ServiceSocket.{
  run_dir, socket_name, socket_cand, runtime_dir, sun_path, close_kept, keep_ready, try_path,
  try_paths, open_service_socket, require_service,
}
use mpitofino.ClientLib.Connection.{NdConnection, find_socket_path, connect_path, connect_to_nd}
use mpitofino.Rendezvous.Opened.{Serves, Tried, try_path-Tried}
use mpitofino.Rendezvous.Kept.{IsKept, AnyKept, AllApart, AllFit, try_paths-AnyKept}
use mpitofino.Rendezvous.Found.{IsFirst, find_socket_path-first, find_socket_path-IsFirst}

module _ (u : UnixSockets) (laws : IsLawful u) where
  -- What the daemon has when its constructor is past the loop.
  pub open_service_socket-IsKept :
      (env : Option (List ℕ)) (s t : u.State) (path : List ℕ) (fd : ℕ)
      → AllFit u (socket_cand env)
      → AllApart u (socket_cand env)
      → open_service_socket u env s ≡ ok ((path, fd), t)
      → IsKept u path fd t
  unfolding open_service_socket
  open_service_socket-IsKept env s t path fd f n h =
      of_kept (try_paths u (socket_cand env) none s) h
        (try_paths-AnyKept u laws (socket_cand env) none s f n tt tt)
    where
      of_kept :
          (m : Result (Option (List ℕ × ℕ) × u.State))
          → (m >>= require_service u) ≡ ok ((path, fd), t)
          → IfReturns (λ p. AnyKept u p.0 p.1) m
          → IsKept u path fd t
      of_kept (err e) g k = cc
      of_kept (ok (none, r)) g k = cc
      of_kept (ok (some (q, gd), r)) g k =
          let e0 : q ≡ path = cc in
          let e1 : gd ≡ fd = cc in let e2 : r ≡ t = cc in rw (← e0, ← e1, ← e2) k

  -- A process that can write to the daemon's file reaches the daemon if no path before it has a file.
  connect_to_nd-first :
      (env : Option (List ℕ)) (s t : u.State) (path : List ℕ) (fd c : ℕ)
      → AllFit u (socket_cand env)
      → IsKept u path fd s
      → u.may_write (u.entry path) s ≡ true
      → u.socket s ≡ some (c, t)
      → IsFirst u (u.entry path) (socket_cand env) s
      → Returns (λ q. q.0.peer ≡ fd) (connect_to_nd u env s)
  unfolding connect_to_nd connect_path
  connect_to_nd-first env s t path fd c f k w o first =
      let (q, found, at) =
        find_socket_path-first u (u.entry path) (socket_cand env) s f k.serves.is_file first in
      let quiet = laws.socket-others s t c o in
      let e = u.entry path in
      let (v, reached) =
        laws.connect-accepted t c e fd (quiet.same_bound e (λ h. cc) ∙ k.serves.is_bound)
          (quiet.same_listens fd (λ h. laws.socket-fresh s t c o e (k.serves.is_bound ∙ ap some h))
            ∙ k.serves.is_listening)
          (quiet.same_may_write e (λ h. cc) ∙ w) in
      rw (found, o, at.fits, at.at, reached) refl

  -- A connection leads to a socket that was bound to the entry, and listens.
  connect_path-reached :
      (path : List ℕ) (s : u.State) (r : NdConnection × u.State)
      → sun_path path ≡ path
      → connect_path u path s ≡ ok r
      → (u.bound (u.entry path) s ≡ some r.0.peer) × (u.listens r.0.peer s ≡ true)
  unfolding connect_path
  connect_path-reached path s r fits h = elim (Option-cases (u.socket s)) [
    | inl e ↦ cc (rw e at h)
    | inr (p, e) ↦ elim (Option-cases (u.connect p.0 (u.entry path) p.1)) [
      | inl e' ↦ cc (rw (e, fits, e') at h)
      | inr (q, e') ↦
          let same : q.0 ≡ r.0.peer = cc (rw (e, fits, e') at h) in
          let quiet = laws.socket-others s p.1 p.0 e in
          let is_bound : u.bound (u.entry path) s ≡ some q.0 =
            sym (quiet.same_bound (u.entry path) (λ x. cc))
            ∙ laws.connect-bound p.1 q.1 p.0 (u.entry path) q.0 e' in
          let other : q.0 ≢ p.0 =
            λ x. laws.socket-fresh s p.1 p.0 e (u.entry path) (is_bound ∙ ap some x) in
          rw (← same) (
            is_bound,
            sym (quiet.same_listens q.0 other)
                ∙ laws.connect-listens p.1 q.1 p.0 (u.entry path) q.0 e',
          )
    ]
  ]

  connect_to_nd-found :
      (env : Option (List ℕ)) (s : u.State) (r : NdConnection × u.State)
      → connect_to_nd u env s ≡ ok r
      → (path : List ℕ) × ((find_socket_path u (socket_cand env) s ≡ ok (some path))
          × (connect_path u path s ≡ ok r))
  unfolding connect_to_nd
  connect_to_nd-found env s r h = of_found (find_socket_path u (socket_cand env) s) h
    where
      of_found :
          (m : Result (Option (List ℕ)))
          → (m >>= λ found. or_throw found runtime_error >>= λ path. connect_path u path s) ≡ ok r
          → (path : List ℕ) × ((m ≡ ok (some path)) × (connect_path u path s ≡ ok r))
      of_found (err e) g = cc
      of_found (ok none) g = cc
      of_found (ok (some path)) g = (path, (refl, g))

  -- A process that reaches the daemon's socket has found no file before the daemon's.
  connect_to_nd-IsFirst :
      (env : Option (List ℕ)) (s : u.State) (path : List ℕ) (fd : ℕ)
      → AllFit u (socket_cand env)
      → IsKept u path fd s
      → Returns (λ q. q.0.peer ≡ fd) (connect_to_nd u env s)
      → IsFirst u (u.entry path) (socket_cand env) s
  connect_to_nd-IsFirst env s path fd f k r =
      let (q, (returned, reached)) = Returns-ok (λ q. q.0.peer ≡ fd) (connect_to_nd u env s) r in
      let (p, (found, connected)) = connect_to_nd-found env s q returned in
      let (first, at) = find_socket_path-IsFirst u p (socket_cand env) s f found in
      elim (ℕ_discrete (u.entry p) (u.entry path)) [
        | yes same ↦ subst (λ e. IsFirst u e (socket_cand env) s) same first
        | no other ↦ absurd (
            k.only (u.entry p) other
              ((connect_path-reached p s q at.fits connected).0 ∙ ap some reached))
      ]

  -- On a lawful system, with paths that name distinct entries and have at most 107 bytes: if the
  -- loop of the node daemon's constructor has found a socket, and a process of the node can open a
  -- socket and may write to the daemon's file, then the process connects to the daemon exactly if no
  -- path before the daemon's has a file.
  pub connect_to_nd-open_service_socket :
      (env : Option (List ℕ)) (s t v : u.State) (path : List ℕ) (fd c : ℕ)
      → AllFit u (socket_cand env)
      → AllApart u (socket_cand env)
      → open_service_socket u env s ≡ ok ((path, fd), t)
      → u.may_write (u.entry path) t ≡ true
      → u.socket t ≡ some (c, v)
      → Returns (λ q. q.0.peer ≡ fd) (connect_to_nd u env t)
        ↔ IsFirst u (u.entry path) (socket_cand env) t
  connect_to_nd-open_service_socket env s t v path fd c f n h w o =
      let k = open_service_socket-IsKept env s t path fd f n h in
      (connect_to_nd-IsFirst env t path fd f k, connect_to_nd-first env t v path fd c f k w o)

  -- A process finds a file at an entry that leads to a socket which does not listen.
  connect_to_nd-refused :
      (env : Option (List ℕ)) (s : u.State) (e fd : ℕ)
      → AllFit u (socket_cand env)
      → IsFirst u e (socket_cand env) s
      → u.symlink_status e s ≡ some socket_file
      → u.bound e s ≡ some fd
      → u.listens fd s ≡ false
      → connect_to_nd u env s ≡ err system_error
  unfolding connect_to_nd connect_path
  connect_to_nd-refused env s e fd f first file b l =
      let (path, found, at) = find_socket_path-first u e (socket_cand env) s f file first in
      elim (Option-cases (u.socket s)) [
        | inl o ↦ rw (found, o) refl
        | inr (p, o) ↦ elim (Option-cases (u.connect p.0 (u.entry path) p.1)) [
          | inl x ↦ rw (found, o, at.fits, x) refl
          | inr (q, x) ↦
              let reached =
                connect_path-reached path s
                  (record { nd_socket_path = path; nd_fd = p.0; peer = q.0 }, q.1) at.fits
                  (rw (o, at.fits, x) refl) in
              let same : fd ≡ q.0 =
                some-inj (sym b ∙ ap (λ d. u.bound d s) (sym at.at) ∙ reached.0) in
              cc (l, subst (λ g. u.listens g s ≡ true) (sym same) reached.1)
        ]
      ]

  tried :
      (path : List ℕ) (s : u.State) (p : Option ℕ × u.State)
      → sun_path path ≡ path
      → try_path u path s ≡ ok p
      → Tried u laws path s p
  tried path s p fits h = rw h at (try_path-Tried u laws path s fits)

  -- A round that ended with a socket.
  opened :
      (path : List ℕ) (s t : u.State) (fd : ℕ) (w : Tried u laws path s (some fd, t))
      → (w.fd ≡ fd) × Serves u (u.entry path) fd t
  opened path s t fd w = elim w.round.outcome [
    | inl h ↦ cc (h.0)
    | inr h ↦
        let same : w.fd ≡ fd = cc (h.0) in (same, subst (λ g. Serves u (u.entry path) g t) same h.1)
  ]

  -- On a lawful system the daemon can use both paths, which name distinct entries, the second of at
  -- most 107 bytes: then it keeps the second and closes the socket of the first, and a process of
  -- the node, which finds the file of the first, throws a system error.
  pub connect_to_nd-both_ready :
      (env : Option (List ℕ)) (s t v : u.State) (path : List ℕ) (first second : ℕ)
      → runtime_dir env ≡ path ∷ []
      → sun_path path ≡ path
      → u.entry path ≢ u.entry (run_dir ++ socket_name)
      → try_path u (run_dir ++ socket_name) s ≡ ok (some first, t)
      → try_path u path t ≡ ok (some second, v)
      → (open_service_socket u env s ≡ ok ((path, second), u.close first v))
        × (connect_to_nd u env (u.close first v) ≡ err system_error)
  unfolding open_service_socket try_paths keep_ready close_kept
  connect_to_nd-both_ready env s t v path first second dir fits apart a b =
      let run_path = run_dir ++ socket_name in
      let (_, serves) = opened run_path s t first (tried run_path s (some first, t) refl a) in
      let w = tried path t (some second, v) fits b in
      let quiet = laws.close-others v first in
      let kept = w.round.others in
      let e = u.entry run_path in
      (
        rw (dir, a, b) refl,
        connect_to_nd-refused env (u.close first v) e first (rw dir (refl, (fits, tt))) (inl refl)
            (quiet.same_status e (λ h. cc) ∙ kept.same_status e (λ h. apart cc) ∙ serves.is_file)
            (quiet.same_bound e (λ h. cc) ∙ kept.same_bound e (λ h. apart cc) ∙ serves.is_bound)
            (laws.close-listens v first),
      )
