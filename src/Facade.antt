-- ===== src/Facade.antt =====
-- The types of facade that the other packages share.
pub mod Result
pub mod NodeId
pub mod Path
mod Tests
