-- ===== src/Manager/Fields.antt =====
-- The fields of SystemManager behind its mutex, and the sections that touch them alone.
use slam_system_manager.Base.{ℕ, Bool, true, false, ◌||◌, String, Option, if◌then◌else◌}
use slam_system_manager.State.{State, is, can_transition}
use slam_system_manager.State.{
  mapping_starting, mapping, map_saving, localization_starting, relocalizing, localized,
}

-- struct SensorStatus of health_monitor.hpp.
pub record SensorStatus (D : Type 0) : Type 0 where
  pub pointcloud_alive : Bool
  pub imu_alive : Bool
  pub pointcloud_hz : D
  pub imu_hz : D
  pub pointcloud_rate_ok : Bool
  pub imu_rate_ok : Bool
  pub sensor_ready : Bool
  pub startup_grace_elapsed : Bool

-- Steady-clock times are nanoseconds.
pub record Manager (D : Type 0) : Type 0 where
  pub current_state : State
  pub current_map : String
  pub error_code : String
  pub error_message : String
  pub sensor_status : SensorStatus D
  pub operation_in_progress : Bool
  pub previous_pointcloud_alive : Bool
  pub previous_imu_alive : Bool
  pub previous_sensor_ready : Bool
  pub sensor_failure_started_at : Option ℕ
  pub shutting_down : Bool

abbrev pub is_mapping_state : State → Bool
is_mapping_state s = is s mapping_starting || is s mapping || is s map_saving

abbrev pub is_localization_state : State → Bool
is_localization_state s = is s localization_starting || is s relocalizing || is s localized

abbrev pub is_active_slam_state : State → Bool
is_active_slam_state s = is_mapping_state s || is_localization_state s

module _ {D : Type 0} where
  -- transitionToLocked: the state after the request, and whether it was carried out.
  unfoldable pub transition_to_locked : State → Manager D → Manager D × Bool
  transition_to_locked next m =
      if can_transition m.current_state next
      then (record m { current_state = next }, true)
      else (m, false)

  unfoldable pub set_system_error : String → String → Manager D → Manager D × Unit {0}
  set_system_error code message m = (record m { error_code = code; error_message = message }, tt)

  unfoldable pub finish_operation : Manager D → Manager D × Unit {0}
  finish_operation m = (record m { operation_in_progress = false }, tt)

  unfoldable pub clear_error : Manager D → Manager D × Unit {0}
  clear_error m = (record m { error_code = ""; error_message = "" }, tt)

  unfoldable pub clear_map : Manager D → Manager D × Unit {0}
  clear_map m = (record m { current_map = "" }, tt)

  -- A section that only reads.
  unfoldable pub look : {R : Type 0} → (Manager D → R) → Manager D → Manager D × R
  look f m = (m, f m)
