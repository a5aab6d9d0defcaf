-- ===== src/NodeDaemon/ServiceSocket.antt =====
-- projects/mpitofino/nd/node_daemon.cc, the constructor of `NodeDaemon`: the unix domain socket on which
-- the daemon serves the processes of its node. Paths are lists of bytes.
use mpitofino.Prelude.{
  ℕ, Option, none, some, List, [], ◌∷◌, ◌++◌, ◌==◌, if◌then◌else◌, take, Result, ok, err, ◌>>=◌,
  or_throw, runtime_error, system_error,
}
use mpitofino.UnixSockets.{
  UnixSockets, FileType, not_found, socket_file, other_file, Answer, done, denied, failed,
}

-- "/run/mpitofino-sd" is `run_dir` and `socket_name`.
abbrev pub run_dir : List ℕ
run_dir = 47 ∷ 114 ∷ 117 ∷ 110 ∷ []

abbrev pub socket_name : List ℕ
socket_name = 47 ∷ 109 ∷ 112 ∷ 105 ∷ 116 ∷ 111 ∷ 102 ∷ 105 ∷ 110 ∷ 111 ∷ 45 ∷ 115 ∷ 100 ∷ []

-- `getenv("XDG_RUNTIME_DIR")` counts if it is an absolute path.
unfoldable pub runtime_dir : Option (List ℕ) → List (List ℕ)
runtime_dir none = []
runtime_dir (some []) = []
runtime_dir (some (c ∷ cs)) = if c == 47 then ((c ∷ cs) ++ socket_name) ∷ [] else []

abbrev pub socket_cand : Option (List ℕ) → List (List ℕ)
socket_cand env = (run_dir ++ socket_name) ∷ runtime_dir env

-- `strncpy` to the 108 bytes of `sockaddr_un::sun_path`, the last of which is set to 0.
abbrev pub sun_path : List ℕ → List ℕ
sun_path path = take 107 path

module _ (u : UnixSockets) where
  -- One round of the loop over the paths, from the call of `bind` on. A round that does not end with a
  -- socket that listens closes the socket on its way.
  unfoldable pub listen_on : ℕ → Answer u.State → u.State → Result (Option ℕ × u.State)
  listen_on fd denied s = ok (none, u.close fd s)
  listen_on fd failed s = err system_error
  listen_on fd (done t) s = or_throw (u.listen fd t) system_error >>= λ t'. ok (some fd, t')

  unfoldable pub bind_path : ℕ → List ℕ → u.State → Result (Option ℕ × u.State)
  bind_path fd path s = listen_on fd (u.bind_to fd (u.entry (sun_path path)) s) s

  -- After the call of `unlink`.
  unfoldable pub unlinked : ℕ → List ℕ → Answer u.State → u.State → Result (Option ℕ × u.State)
  unlinked fd path denied s = ok (none, u.close fd s)
  unlinked fd path failed s = err system_error
  unlinked fd path (done t) s = bind_path fd path t

  unfoldable pub replace_file : ℕ → List ℕ → FileType → u.State → Result (Option ℕ × u.State)
  replace_file fd path not_found s = bind_path fd path s
  replace_file fd path socket_file s = unlinked fd path (u.unlink (u.entry path) s) s
  replace_file fd path other_file s = ok (none, u.close fd s)

  unfoldable pub try_path : List ℕ → u.State → Result (Option ℕ × u.State)
  try_path path s = or_throw (u.socket s) system_error >>= λ p.
      or_throw (u.symlink_status (u.entry path) p.1) system_error >>= λ sock_stat.
      or_throw (u.status (u.entry path) p.1) system_error >>= λ type. replace_file p.0 path type p.1

  -- `service_wfd = move(wfd)` closes the socket that it held.
  unfoldable pub close_kept : Option (List ℕ × ℕ) → u.State → u.State
  close_kept none s = s
  close_kept (some (path, fd)) s = u.close fd s

  unfoldable pub keep_ready :
      List ℕ → Option ℕ → Option (List ℕ × ℕ) → u.State → Option (List ℕ × ℕ) × u.State
  keep_ready path none kept s = (kept, s)
  keep_ready path (some fd) kept s = (some (path, fd), close_kept kept s)

  -- The loop, which goes on after a path that can be used. The path and the socket kept so far are
  -- `service_socket_path` and `service_wfd`.
  unfoldable pub try_paths :
      List (List ℕ) → Option (List ℕ × ℕ) → u.State → Result (Option (List ℕ × ℕ) × u.State)
  try_paths [] kept s = ok (kept, s)
  try_paths (path ∷ paths) kept s =
      try_path path s >>= λ p. let q = keep_ready path p.0 kept p.1 in try_paths paths q.0 q.1

  -- The test of `service_wfd` after the loop.
  abbrev pub require_service : Option (List ℕ × ℕ) × u.State → Result ((List ℕ × ℕ) × u.State)
  require_service (none, s) = err runtime_error
  require_service (some service, s) = ok (service, s)

  unfoldable pub open_service_socket : Option (List ℕ) → u.State → Result ((List ℕ × ℕ) × u.State)
  open_service_socket env s = try_paths (socket_cand env) none s >>= require_service
