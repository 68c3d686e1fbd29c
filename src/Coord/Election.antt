-- ===== src/Coord/Election.antt =====
-- Properties of the leader election of src/riaps/run/dc.py.
pub mod Ballots
pub mod Winning
pub mod Quiet
pub mod Stall
pub mod Counting
