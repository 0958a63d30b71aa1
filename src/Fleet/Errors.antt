-- ===== src/Fleet/Errors.antt =====
-- The exception classes of amr_warehouse_sim/fleet. Callers tell them apart by class, never by
-- message, so a message is not kept.
pub data Error : Type 0 where
  robot_not_found : Error
  invalid_robot_transition : Error
  robot_not_available : Error
  robot_active_task_conflict : Error
  invalid_lifecycle_transition : Error
  station_not_found : Error
  task_already_assigned : Error
  no_available_robot : Error
  resource_not_found : Error
  resource_ownership : Error
  key_error : Error
  value_error : Error
