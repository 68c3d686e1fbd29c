-- ===== src/Disco.antt =====
-- discd: the discovery service and its database.
pub mod Dbase
pub mod Redis
pub mod Keys
pub mod Service
pub mod Update
pub mod Client
