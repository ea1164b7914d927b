-- ===== src/Checks.antt =====
-- Concrete runs: tests of the definitions, and each theorem applied to an input that exercises it.
mod Election
mod Agreement
mod Replication
mod Gossip
mod Sharding
mod Training
mod World
mod Network
mod Address
mod Datagram
