-- ===== src/Cluster.antt =====
-- The transport of messages between nodes, net/cluster.
pub mod Message
pub mod Serving
pub mod Client
pub mod Workers
pub mod Rabbit
mod Tests
