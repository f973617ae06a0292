-- ===== src/Tests.antt =====
-- Runs of the program on small inputs, and the theorems at such inputs.
mod Drivers
mod Channels
mod Exes
mod Doers
mod Walks
mod Queries
mod Transfers
mod Confirms
mod Frontends
mod Parts
mod Streams
