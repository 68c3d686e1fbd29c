-- ===== src/Actor.antt =====
-- src/riaps/run: the process of an actor, its parts, their ports and the threads that run the
-- components.
pub mod Port
pub mod Thread
pub mod Jobs
pub mod Scheduler
pub mod Run
pub mod Part
pub mod Options
pub mod Params
pub mod Process
