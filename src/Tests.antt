-- ===== src/Tests.antt =====
-- Runs of the models on inputs that can be followed in the source, and each theorem at an input.
mod Protocol
mod Buffers
mod Texts
mod Stores
mod Turns
mod Agents
mod Inventories
mod Relays
mod Connections
mod Listings
mod Sources
mod Runs
