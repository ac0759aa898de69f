-- ===== src/Examples.antt =====
-- The theorems at concrete inputs, and tests.
mod Data
mod Lookup
mod Delivery
mod Upkeep
mod Joining
mod Working
mod Files
mod Nodes
mod Rounds
