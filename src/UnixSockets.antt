-- ===== src/UnixSockets.antt =====
-- The interface to the operating system that common/utils.h, nd/node_daemon.cc and
-- client_lib/mpitofino.cc use for unix domain sockets: files, sockets, and what is documented of them.
-- A path counts by the directory entry that it names, and a descriptor by the socket that it stands for.
pub mod Memory
pub mod Frames
use mpitofino.Prelude.{ℕ, ◌≡◌, ◌≢◌, Bool, true, false, List, Option, none, some}

pub data FileType : Type 0 where
  not_found socket_file other_file : FileType

-- A system call that may fail with EACCES, or with another error.
pub data Answer {ℓ} (A : Type ℓ) : Type ℓ where
  done : A → Answer A
  denied : Answer A
  failed : Answer A

-- `status` and `symlink_status` give nothing where the functions of `std::filesystem` throw. The last
-- three fields are what an observer sees: the socket that was bound to an entry, whether a socket is
-- open and listens, and whether the client's process may write to an entry.
pub record UnixSockets : Type 1 where
  pub State : Type 0
  pub entry : List ℕ → ℕ
  pub status : ℕ → State → Option FileType
  pub symlink_status : ℕ → State → Option FileType
  pub unlink : ℕ → State → Answer State
  pub socket : State → Option (ℕ × State)
  pub bind_to : ℕ → ℕ → State → Answer State
  pub listen : ℕ → State → Option State
  pub close : ℕ → State → State
  pub connect : ℕ → ℕ → State → Option (ℕ × State)
  pub bound : ℕ → State → Option ℕ
  pub listens : ℕ → State → Bool
  pub may_write : ℕ → State → Bool

-- A call that concerns the entry `e`, if any, and the socket `fd` leaves the others as they were.
pub record LeavesOthers (u : UnixSockets) (e : Option ℕ) (fd : ℕ) (s t : u.State) : Type 0 where
  pub same_bound : (d : ℕ) → some d ≢ e → u.bound d t ≡ u.bound d s
  pub same_status : (d : ℕ) → some d ≢ e → u.symlink_status d t ≡ u.symlink_status d s
  pub same_may_write : (d : ℕ) → some d ≢ e → u.may_write d t ≡ u.may_write d s
  pub same_listens : (g : ℕ) → g ≢ fd → u.listens g t ≡ u.listens g s

-- What is documented of the calls: a new socket is bound to nothing; `bind` makes a socket file;
-- a closed socket does not listen; `connect` reaches the socket that was bound to the entry, and it is
-- refused if that one does not listen.
pub record IsLawful (u : UnixSockets) : Type 0 where
  pub socket-fresh :
      (s t : u.State) (fd : ℕ) → u.socket s ≡ some (fd, t) → (e : ℕ) → u.bound e s ≢ some fd
  pub socket-others :
      (s t : u.State) (fd : ℕ) → u.socket s ≡ some (fd, t) → LeavesOthers u none fd s t
  pub unlink-others :
      (s t : u.State) (e fd : ℕ) → u.unlink e s ≡ done t → LeavesOthers u (some e) fd s t
  pub unlink-bound : (s t : u.State) (e : ℕ) → u.unlink e s ≡ done t → u.bound e t ≡ none
  pub bind-others :
      (s t : u.State) (fd e : ℕ) → u.bind_to fd e s ≡ done t → LeavesOthers u (some e) fd s t
  pub bind-bound : (s t : u.State) (fd e : ℕ) → u.bind_to fd e s ≡ done t → u.bound e t ≡ some fd
  pub bind-status :
      (s t : u.State) (fd e : ℕ)
      → u.bind_to fd e s ≡ done t
      → u.symlink_status e t ≡ some socket_file
  pub listen-others : (s t : u.State) (fd : ℕ) → u.listen fd s ≡ some t → LeavesOthers u none fd s t
  pub listen-listens : (s t : u.State) (fd : ℕ) → u.listen fd s ≡ some t → u.listens fd t ≡ true
  pub close-others : (s : u.State) (fd : ℕ) → LeavesOthers u none fd s (u.close fd s)
  pub close-listens : (s : u.State) (fd : ℕ) → u.listens fd (u.close fd s) ≡ false
  pub connect-accepted :
      (s : u.State) (fd e g : ℕ)
      → u.bound e s ≡ some g
      → u.listens g s ≡ true
      → u.may_write e s ≡ true
      → (t : u.State) × (u.connect fd e s ≡ some (g, t))
  pub connect-bound :
      (s t : u.State) (fd e g : ℕ) → u.connect fd e s ≡ some (g, t) → u.bound e s ≡ some g
  pub connect-listens :
      (s t : u.State) (fd e g : ℕ) → u.connect fd e s ≡ some (g, t) → u.listens g s ≡ true
