-- ===== src/Manager/Components.antt =====
-- What SystemManager asks of the other components: their calls, on one state of all that lies
-- outside the manager (the adapters with their processes, the map directory, the monitors, the
-- clock, the subscribers).
use slam_system_manager.Outcome.{Attempt}
use slam_system_manager.Base.{ℕ, Bool, List, String, Option}
use slam_system_manager.Doubles.{Doubles}
use slam_system_manager.Program.{Outcome}
use slam_system_manager.Manager.Fields.{SensorStatus}

pub record Components : Type 1 where
  pub doubles : Doubles
  pub open doubles use *
  pub World : Type 0
  pub Pose : Type 0
  pub ExitCode : Type 0
  -- process_manager_
  pub process_running : String → World → World × Bool
  pub last_exit_code : String → World → World × Option ExitCode
  pub exit_code_text : ExitCode → String
  -- mapping_adapter_
  pub mapping_running : World → World × Bool
  pub save_service_available : World → World × Bool
  pub mapping_start : String → String → World → World × Attempt
  pub mapping_stop : World → World × Attempt
  pub mapping_save : String → World → World × Outcome Attempt
  -- localization_adapter_
  pub localization_running : World → World × Bool
  pub localization_start : String → String → World → World × Outcome Attempt
  pub localization_stop : World → World × Attempt
  -- map_manager_
  pub is_valid_map_name : String → Bool
  pub list_maps : World → World × Outcome (List String)
  pub create_map : String → World → World × Outcome (Unit {0})
  pub delete_map : String → World → World × Outcome (Unit {0})
  pub load_map : String → World → World × Outcome String
  pub map_exists : String → World → World × Outcome Bool
  pub mark_map_saved : String → World → World × Outcome (Unit {0})
  pub get_map_path : String → Outcome String
  -- std::filesystem
  pub is_regular_file : String → World → World × Outcome Bool
  pub parent_path : String → String
  -- relocalization_adapter_
  pub reset_session : World → World × Unit {0}
  pub set_localized : Bool → World → World × Unit {0}
  pub localization_confirmed : World → World × Bool
  pub load_last_pose : String → World → World × Outcome (Option Pose × String)
  pub wait_for_initial_pose_consumer : Double → World → World × Bool
  pub publish_initial_pose : Pose → World → World × Attempt
  pub request_last_pose_save : String → World → World × Outcome Attempt
  -- localization_quality_monitor_
  pub quality_reset : World → World × Unit {0}
  pub quality_pose_valid : World → World × Bool
  -- health_monitor_
  pub health_status : World → World × SensorStatus Double
  pub active_failure_grace_sec : Double
  -- the steady clock
  pub steady_now : World → World × ℕ
  pub sleep_for : ℕ → World → World × Unit {0}
  -- config_manager_
  pub last_pose_enable : Bool
  pub initial_pose_settle_sec : Double
  pub initial_pose_wait_timeout_sec : Double
  pub last_pose_retry_count : ℕ
  pub last_pose_retry_interval_sec : Double
  -- duration_cast of a duration<double>
  pub nanoseconds : Double → ℕ
  -- a double written to a stream
  pub double_text : Double → String
  -- std::to_string of a size
  pub size_text : ℕ → String
  -- std::string::find != npos
  pub contains : String → String → Bool
