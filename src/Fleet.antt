-- ===== src/Fleet.antt =====
-- The fleet package, amr_warehouse_sim/fleet: one module per Python file.
pub mod Errors
pub mod RobotState
pub mod Robots
pub mod Registry
pub mod Events
pub mod Assignment
pub mod Stations
pub mod Tasks
pub mod Dispatcher
pub mod Lifecycle
pub mod Context
pub mod Haul
pub mod Resources
pub mod Examples
pub mod Heartbeat
