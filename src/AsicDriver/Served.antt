-- ===== src/AsicDriver/Served.antt =====
-- `ASICDriver::on_st_repo_channels`: what a channel whose clients are all known has in the tables.
pub mod Named
pub mod Written
pub mod Addresses
pub mod Channel
pub mod Plan
pub mod Entries
