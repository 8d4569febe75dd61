-- ===== src/Quality.antt =====
-- localization_quality_monitor.cpp and .hpp: the messages, the configuration and the fields of
-- LocalizationQualityMonitor. Times are nanoseconds, counters are 64 bits wide.
pub mod Config
pub mod Evaluate
pub mod Score
pub mod History
pub mod Observe
pub mod Safety
pub mod Valid
use slam_system_manager.Base.{ℕ, ◌==◌, Bool, String}

-- enum class LocalizationQualityState.
pub data QualityState : Type 0 where
  unknown localized degraded lost : QualityState

-- The value of the enumerator.
abbrev pub rank : QualityState → ℕ
rank unknown = 0
rank localized = 1
rank degraded = 2
rank lost = 3

-- `==` on the enumeration.
abbrev pub same : QualityState → QualityState → Bool
same s t = rank s == rank t

unfoldable pub quality_to_string : QualityState → String
quality_to_string unknown = "UNKNOWN"
quality_to_string localized = "LOCALIZED"
quality_to_string degraded = "DEGRADED"
quality_to_string lost = "LOST"

-- LocalizationQualityConfig.
pub record QualityConfig (D : Type 0) : Type 0 where
  pub publish_hz : D
  pub pose_timeout_sec : D
  pub correction_timeout_sec : D
  pub registration_timeout_sec : D
  pub max_position_jump_m : D
  pub max_yaw_jump_deg : D
  pub max_linear_velocity_mps : D
  pub max_angular_velocity_dps : D
  pub max_correction_position_jump_m : D
  pub max_correction_yaw_jump_deg : D
  pub min_registration_fitness : D
  pub max_registration_residual_m : D
  pub bad_frames_to_degraded : ℕ
  pub bad_frames_to_lost : ℕ
  pub good_frames_to_recover : ℕ
  pub localized_threshold : D
  pub degraded_threshold : D
  pub update_weight : D
  pub motion_weight : D
  pub registration_weight : D
  pub overlap_weight : D

-- geometry_msgs.
pub record Point (D : Type 0) : Type 0 where
  pub x : D
  pub y : D
  pub z : D

pub record Quaternion (D : Type 0) : Type 0 where
  pub x : D
  pub y : D
  pub z : D
  pub w : D

pub record Pose (D : Type 0) : Type 0 where
  pub position : Point D
  pub orientation : Quaternion D

-- nav_msgs/Odometry, the fields that are read.
pub record Odometry (D : Type 0) : Type 0 where
  pub stamp : ℕ
  pub pose : Pose D

-- msg/RegistrationQuality.msg, less its header.
pub record Registration (F : Type 0) : Type 0 where
  pub valid : Bool
  pub accepted : Bool
  pub fitness : F
  pub mean_residual : F
  pub correspondence_count : ℕ
  pub source_point_count : ℕ

-- msg/LocalizationStatus.msg, with the header's two fields.
pub record Status (F : Type 0) : Type 0 where
  pub stamp : ℕ
  pub frame_id : String
  pub state : String
  pub confidence : F
  pub pose_valid : Bool
  pub position_jump : F
  pub yaw_jump : F
  pub update_age : F
  pub linear_velocity : F
  pub angular_velocity : F
  pub matching_score : F
  pub inlier_ratio : F
  pub map_overlap_ratio : F
  pub registration_residual : F
  pub registration_age : F
  pub correspondence_count : ℕ
  pub consecutive_good_frames : ℕ
  pub consecutive_bad_frames : ℕ
  pub reason : String

-- The fields behind the monitor's mutex.
pub record Monitor (D F : Type 0) : Type 0 where
  pub state : QualityState
  pub status : Status F
  pub have_odometry : Bool
  pub have_pose : Bool
  pub have_correction : Bool
  pub have_registration : Bool
  pub last_odometry_receipt : ℕ
  pub last_pose_receipt : ℕ
  pub last_correction_receipt : ℕ
  pub last_registration_receipt : ℕ
  pub last_odometry_stamp : ℕ
  pub last_correction_stamp : ℕ
  pub last_odometry_pose : Pose D
  pub last_correction_pose : Pose D
  pub position_jump : D
  pub yaw_jump : D
  pub linear_velocity : D
  pub angular_velocity : D
  pub correction_position_jump : D
  pub correction_yaw_jump : D
  pub motion_sample_valid : Bool
  pub motion_sample_fault : Bool
  pub pose_sample_fault : Bool
  pub correction_sample_fault : Bool
  pub motion_fault_reason : String
  pub pose_fault_reason : String
  pub correction_fault_reason : String
  pub registration : Registration F
  pub consecutive_good_frames : ℕ
  pub consecutive_bad_frames : ℕ
  pub consecutive_critical_frames : ℕ
