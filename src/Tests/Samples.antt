-- ===== src/Tests/Samples.antt =====
-- A configuration, a monitor and messages for the quality monitor.
use slam_system_manager.Base.{ℕ, true, false, List, [], ◌∷◌}
use slam_system_manager.Manager.Pose.{QualityContext}
use slam_system_manager.Quality.{
  unknown, QualityConfig, Pose, Odometry, Registration, Monitor, Status,
}
use slam_system_manager.Quality.History.{
  Event, odometry_message, correction_message, pose_message, evaluation,
}

abbrev pub quick_config : QualityConfig ℕ
quick_config = record {
  publish_hz = 5;
  pose_timeout_sec = 10;
  correction_timeout_sec = 10;
  registration_timeout_sec = 10;
  max_position_jump_m = 1;
  max_yaw_jump_deg = 25;
  max_linear_velocity_mps = 3;
  max_angular_velocity_dps = 180;
  max_correction_position_jump_m = 1;
  max_correction_yaw_jump_deg = 30;
  min_registration_fitness = 0;
  max_registration_residual_m = 1;
  bad_frames_to_degraded = 1;
  bad_frames_to_lost = 2;
  good_frames_to_recover = 2;
  localized_threshold = 1;
  degraded_threshold = 1;
  update_weight = 1;
  motion_weight = 1;
  registration_weight = 1;
  overlap_weight = 1;
}

abbrev pub upright : Pose ℕ
upright = record {
  position = record { x = 0; y = 0; z = 0 };
  orientation = record { x = 0; y = 0; z = 0; w = 1 };
}

abbrev pub sample : Odometry ℕ
sample = record { stamp = 1; pose = upright }

abbrev pub silent : Registration ℕ
silent = record {
  valid = false;
  accepted = false;
  fitness = 0;
  mean_residual = 0;
  correspondence_count = 0;
  source_point_count = 0;
}

abbrev pub blank : Status ℕ
blank = record {
  stamp = 0;
  frame_id = "";
  state = "UNKNOWN";
  confidence = 0;
  pose_valid = false;
  position_jump = 0;
  yaw_jump = 0;
  update_age = 0;
  linear_velocity = 0;
  angular_velocity = 0;
  matching_score = 0;
  inlier_ratio = 0;
  map_overlap_ratio = 0;
  registration_residual = 0;
  registration_age = 0;
  correspondence_count = 0;
  consecutive_good_frames = 0;
  consecutive_bad_frames = 0;
  reason = "";
}

abbrev pub new_monitor : Monitor ℕ ℕ
new_monitor = record {
  state = unknown;
  status = blank;
  have_odometry = false;
  have_pose = false;
  have_correction = false;
  have_registration = false;
  last_odometry_receipt = 0;
  last_pose_receipt = 0;
  last_correction_receipt = 0;
  last_registration_receipt = 0;
  last_odometry_stamp = 0;
  last_correction_stamp = 0;
  last_odometry_pose = upright;
  last_correction_pose = upright;
  position_jump = 0;
  yaw_jump = 0;
  linear_velocity = 0;
  angular_velocity = 0;
  correction_position_jump = 0;
  correction_yaw_jump = 0;
  motion_sample_valid = false;
  motion_sample_fault = false;
  pose_sample_fault = false;
  correction_sample_fault = false;
  motion_fault_reason = "";
  pose_fault_reason = "";
  correction_fault_reason = "";
  registration = silent;
  consecutive_good_frames = 0;
  consecutive_bad_frames = 0;
  consecutive_critical_frames = 0;
}

abbrev pub running : QualityContext
running = record {
  localization_active = true;
  localization_initialized = true;
  localization_process_alive = true;
  sensors_healthy = true;
}

-- One sample of each stream, then one evaluation.
abbrev pub samples : List (Event ℕ ℕ)
samples =
    odometry_message sample 5
    ∷ pose_message upright 5
    ∷ correction_message sample 5
    ∷ evaluation "map" 6 running
    ∷ []

-- An evaluation before any sample.
abbrev pub nothing_yet : List (Event ℕ ℕ)
nothing_yet = evaluation "map" 6 running ∷ []
