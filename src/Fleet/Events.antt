-- ===== src/Fleet/Events.antt =====
-- amr_warehouse_sim/fleet/dispatcher.py, `FleetEvent`, and the reason texts of the package.
-- A formatted text is kept as the values that it is formatted from.
use amr_warehouse_navigation.Common.{Option, String, ℕ}
use amr_warehouse_navigation.Common.Int.{ℤ}

pub data Reason : Type 0 where
  text : String → Reason
  -- 'distance=… from … to …; workload_penalty=…; priority_penalty=…'
  cost : ℤ → Option String → String → ℤ → ℤ → Reason
  -- a fixed text followed by a station or robot name
  about : String → String → Reason
  -- 'pickup=…; dropoff=…'
  stations : String → String → Reason
  -- 'Heartbeat timeout after …s; last_heartbeat=….'
  timeout : ℤ → Option ℕ → Reason
  -- the same, with ' Task … is past pickup; demo-level reassignment is blocked.'
  timeout_past_pickup : ℤ → Option ℕ → Option ℕ → Reason

pub record FleetEvent : Type 0 where
  pub timestamp : ℕ
  pub event : String
  pub task_id : Option ℕ
  pub robot_id : Option String
  pub reason : Option Reason
