-- ===== src/Wms/Reasons.antt =====
-- The exceptions of the Mock WMS modules, and the reason texts that they store. As in the fleet
-- package, a formatted text is kept as the values that it is formatted from.
use amr_warehouse_navigation.Common.{Bool, true, false, Option, String, ℕ}
use amr_warehouse_navigation.Common.Int.{ℤ}

pub data WmsError : Type 0 where
  -- `KeyError` and `ValueError`
  missing_key bad_value : WmsError
  -- `FileNotFoundError`
  missing_file : WmsError
  -- `HttpTaskSourceUnavailableError` and `InvalidHttpTaskPayloadError`
  source_unavailable invalid_payload : WmsError
  -- A wait whose rounds ran out: no exception of the program, and never met with enough rounds.
  out_of_rounds : WmsError

pub data WmsReason : Type 0 where
  text : String → WmsReason
  -- 'Target resolution failed: …'
  target_failed : WmsError → WmsReason
  -- 'Nav2 ready gate not satisfied: …'
  not_ready : WmsReason → WmsReason
  -- '… lifecycle state is …'
  lifecycle_state : String → String → WmsReason
  -- '… action server is unavailable'
  server_unavailable : String → WmsReason
  -- 'NavigateToPose timed out after …s.'
  navigation_timeout : ℤ → WmsReason
  -- 'NavigateToPose result status code: ….'
  status_code : Option ℕ → WmsReason

-- `except (KeyError, ValueError)`
abbrev pub is_resolution_error : WmsError → Bool
is_resolution_error missing_key = true
is_resolution_error bad_value = true
is_resolution_error _ = false
