-- ===== src/ClientLib/Connection.antt =====
-- projects/mpitofino/client_lib/mpitofino.cc, the constructor of `Client`: the connection of a process to
-- the daemon of its node.
use mpitofino.Prelude.{
  ℕ, Option, none, some, List, [], ◌∷◌, Result, ok, ◌>>=◌, or_throw, runtime_error, system_error,
}
use mpitofino.UnixSockets.{UnixSockets, not_found, socket_file, other_file}
use mpitofino.NodeDaemon.ServiceSocket.{socket_cand, sun_path}
use mpitofino.ClientLib.Device.{GidTable, open_ib_device}

-- `nd_wfd`, and the socket that the connection leads to.
pub record NdConnection : Type 0 where
  pub nd_socket_path : List ℕ
  pub nd_fd : ℕ
  pub peer : ℕ

module _ (u : UnixSockets) where
  -- The first path that exists.
  unfoldable pub find_socket_path : List (List ℕ) → u.State → Result (Option (List ℕ))
  find_socket_path [] s = ok none
  find_socket_path (path ∷ paths) s =
      let rest = find_socket_path paths s in
      or_throw (u.symlink_status (u.entry path) s) system_error >>= λ type. elim type [
        | not_found ↦ rest
        | socket_file ↦ ok (some path)
        | other_file ↦ ok (some path)
      ]

  unfoldable pub connect_path : List ℕ → u.State → Result (NdConnection × u.State)
  connect_path path s = or_throw (u.socket s) system_error >>= λ p.
      or_throw (u.connect p.0 (u.entry (sun_path path)) p.1) system_error >>= λ q.
      ok (record { nd_socket_path = path; nd_fd = p.0; peer = q.0 }, q.1)

  unfoldable pub connect_to_nd : Option (List ℕ) → u.State → Result (NdConnection × u.State)
  connect_to_nd env s = find_socket_path (socket_cand env) s >>= λ found.
      or_throw found runtime_error >>= λ path. connect_path path s

  -- The constructor; `devices` and `tables` are as in `open_ib_device`.
  unfoldable pub construct_client :
      Option (List ℕ)
      → (ℕ → GidTable)
      → Option (List ℕ)
      → u.State
      → Result ((ℕ × ℕ) × NdConnection × u.State)
  construct_client devices tables env s =
      open_ib_device devices tables >>= λ ib. connect_to_nd env s >>= λ q. ok (ib, q.0, q.1)
