-- ===== src/ClientLib.antt =====
-- projects/mpitofino/client_lib: the library that an MPI program links against.
pub mod Endianess
pub mod Allreduce
pub mod Channels
pub mod Connection
pub mod Device
mod Tests
