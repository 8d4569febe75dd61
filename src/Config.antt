-- ===== src/Config.antt =====
-- config_manager.cpp and .hpp: the system configuration, its reading from YAML and its checks.
pub mod Load
pub mod Accepts
use slam_system_manager.Base.{ℕ, Bool, String}

pub record FrameConfig : Type 0 where
  pub map : String
  pub odom : String
  pub base : String
  pub lidar : String

pub record TopicConfig : Type 0 where
  pub pointcloud : String
  pub imu : String
  pub initial_pose : String
  pub localization_raw_odometry : String
  pub localization_correction : String
  pub localization_odometry : String
  pub localization_pose : String
  pub system_status : String

pub record LastPoseConfig (D : Type 0) : Type 0 where
  pub enable : Bool
  pub save_interval_sec : D

pub record RelocalizationConfig (D : Type 0) : Type 0 where
  pub initial_pose_wait_timeout_sec : D
  pub initial_pose_settle_sec : D
  pub last_pose_retry_count : ℕ
  pub last_pose_retry_interval_sec : D
  pub min_initial_pose_subscribers : ℕ

pub record ExtrinsicConfig (D : Type 0) : Type 0 where
  pub translation : D × D × D
  pub rotation_rpy : D × D × D

pub record SystemConfig (D : Type 0) : Type 0 where
  pub map_root : String
  pub frames : FrameConfig
  pub topics : TopicConfig
  pub last_pose : LastPoseConfig D
  pub relocalization : RelocalizationConfig D
  pub lidar_to_base : ExtrinsicConfig D
  pub status_publish_hz : D

-- The fields of ConfigManager.
pub record ConfigManager (D : Type 0) : Type 0 where
  pub config : SystemConfig D
  pub loaded : Bool
