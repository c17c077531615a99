-- ===== src/Tests.antt =====
-- Tests, and each property at a concrete input.
mod Toy
mod Engine
mod Crates
mod Receipts
mod Sealed
mod Policies
mod Keys
mod Keystores
mod Indexes
mod Pages
mod Dashboards
mod Inputs
mod Disks
mod Commands
