-- ===== src/Deploy.antt =====
-- deplo: the deployment service's application database and process monitors.
pub mod AppDbase
pub mod ProcessManager
pub mod Client
