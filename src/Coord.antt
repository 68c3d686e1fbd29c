-- ===== src/Coord.antt =====
-- src/riaps/run/dc.py: distributed coordination
pub mod Poll
pub mod Message
pub mod Thread
pub mod Outcome
pub mod Polling
pub mod Timeout
pub mod Net
pub mod Comp
pub mod Member
pub mod Loop
pub mod Stable
pub mod Turns
pub mod Coherent
pub mod Election
pub mod Group
pub mod Coordinator
