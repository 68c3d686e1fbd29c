-- ===== src/Samples.antt =====
-- Concrete inputs on which the theorems of the other modules are applied.
pub mod Group
pub mod Actor
pub mod Front
pub mod Component
pub mod Deployment
pub mod Discovery
pub mod Client
