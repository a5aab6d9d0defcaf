-- ===== src/Rendezvous.antt =====
-- projects/mpitofino/nd/node_daemon.cc and client_lib/mpitofino.cc: how the processes of a node find the
-- daemon of the node.
pub mod Opened
pub mod Kept
pub mod Found
pub mod Meeting
mod Tests
