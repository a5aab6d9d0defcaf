-- ===== src/AsicDriver.antt =====
-- projects/mpitofino/sd/asic_driver.h and .cc: the match-action tables of the switch chip, and how they
-- follow the channels of the state repository. The tables are those of the vendor's run-time library.
pub mod Tables
pub mod Bitmaps
pub mod Plan
pub mod Sync
pub mod Sweeping
pub mod Cleaning
pub mod Workers
pub mod Programmed
pub mod Follows
pub mod Driven
pub mod Refusals
pub mod Learning
pub mod Stations
pub mod Groups
pub mod Iterator
pub mod Memory
pub mod Row
pub mod Served
mod Tests
