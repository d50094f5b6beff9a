-- ===== src/Discovery.antt =====
-- Service discovery, net/discovery: the members of a cluster.
pub mod Default
pub mod Nats
mod Tests
