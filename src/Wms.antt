-- ===== src/Wms.antt =====
-- The Mock WMS of amr_warehouse_sim: the task store, the executor that drives a task to its target,
-- and the runner that drains the queue of pending tasks.
pub mod Reasons
pub mod Targets
pub mod Tasks
pub mod Runtime
pub mod Executor
pub mod Queue
pub mod Http
pub mod Examples
