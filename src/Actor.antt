-- ===== src/Actor.antt =====
-- The actor runtime of net/actor.
pub mod Queue
pub mod Mailbox
pub mod Events
pub mod Routing
pub mod Timer
pub mod Loop
pub mod Life
pub mod Family
mod Tests
