-- ===== src/Inspection.antt =====
-- amr_warehouse_sim/inspection: the inspection of one point.
pub mod Models
pub mod Rules
pub mod Lifecycle
pub mod Image
pub mod Route
mod Examples
