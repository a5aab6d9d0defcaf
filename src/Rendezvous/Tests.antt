-- ===== src/Rendezvous/Tests.antt =====
-- The theorems at a system in memory.
use mpitofino.Prelude.{
  ℕ, ◌≡◌, refl, ◌↔◌, Bool, true, false, some, List, [], ◌∷◌, ◌++◌, ◌==◌, ok, err, Returns,
  system_error, arith,
}
use mpitofino.UnixSockets.Memory.{Memory, memory_sockets, memory_sockets-IsLawful, bound_in, fresh}
use mpitofino.NodeDaemon.ServiceSocket.{
  run_dir, socket_name, socket_cand, runtime_dir, open_service_socket, try_paths, keep_ready,
  close_kept, try_path, replace_file, unlinked, bind_path, listen_on,
}
use mpitofino.ClientLib.Connection.{connect_to_nd}
use mpitofino.Rendezvous.Found.{IsFirst}
use mpitofino.Rendezvous.Meeting.{connect_to_nd-open_service_socket, connect_to_nd-both_ready}

abbrev run_path : List ℕ
run_path = run_dir ++ socket_name

-- XDG_RUNTIME_DIR=/x
abbrev user_dir : List ℕ
user_dir = 47 ∷ 120 ∷ []

abbrev user_path : List ℕ
user_path = user_dir ++ socket_name

-- No user may write to /run, whose path has 17 bytes.
abbrev of_user : List (ℕ × Bool) → Memory
of_user open_for = record { names = []; open_for = open_for; forbidden = λ e. e == 17 }

abbrev served_user : Memory
served_user = record (of_user ((3, true) ∷ (3, false) ∷ [])) { names = (15, some 3) ∷ [] }

connect_to_nd-open_service_socket_example :
    Returns (λ q. q.0.peer ≡ 3) (connect_to_nd memory_sockets (some user_dir) served_user)
    ↔ IsFirst memory_sockets 15 (socket_cand (some user_dir)) served_user
unfolding open_service_socket try_paths keep_ready close_kept try_path replace_file unlinked
    bind_path listen_on runtime_dir bound_in fresh
connect_to_nd-open_service_socket_example =
    connect_to_nd-open_service_socket memory_sockets memory_sockets-IsLawful (some user_dir)
      (of_user []) served_user served_user user_path 3 7 (refl, (refl, tt))
      ((omega arith, tt), (tt, tt)) refl refl refl

abbrev of_root : Memory
of_root = record { names = []; open_for = []; forbidden = λ e. false }

abbrev first_ready : Memory
first_ready = record of_root { names = (17, some 3) ∷ []; open_for = (3, true) ∷ [] }

abbrev both_ready : Memory
both_ready = record of_root {
  names = (15, some 7) ∷ (17, some 3) ∷ [];
  open_for = (7, true) ∷ (3, true) ∷ [];
}

connect_to_nd-both_ready_example :
    (open_service_socket memory_sockets (some user_dir) of_root
      ≡ ok ((user_path, 7), memory_sockets.close 3 both_ready))
    × (connect_to_nd memory_sockets (some user_dir) (memory_sockets.close 3 both_ready)
        ≡ err system_error)
unfolding try_path replace_file unlinked bind_path listen_on runtime_dir bound_in fresh
connect_to_nd-both_ready_example =
    connect_to_nd-both_ready memory_sockets memory_sockets-IsLawful (some user_dir) of_root
      first_ready both_ready user_path 3 7 refl refl (omega arith) refl refl
