-- ===== src/Routing.antt =====
-- The routing programs of mp3/src.
pub mod Map
pub mod Line
pub mod LinkState
pub mod DistVec
mod Tests
