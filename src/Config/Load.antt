-- ===== src/Config/Load.antt =====
-- ConfigManager::load, get and isLoaded.
use slam_system_manager.Base.{
  is_empty, starts_at_root, ◌==◌, ltb, Bool, true, not, ◌||◌, List, [], ◌∷◌, String, ◌+++◌, none,
  some, if◌then◌else◌,
}
use slam_system_manager.Doubles.{Doubles}
use slam_system_manager.Outcome.{Outcome, value, throws, relabelled, refuse, ◌>>=◌, ◌>>◌}
use slam_system_manager.Yaml.{Yaml, required, section_at}
use slam_system_manager.Config.{SystemConfig, ConfigManager}

unfoldable pub require_non_empty : String → String → Outcome (Unit {0})
require_non_empty text key =
    refuse (is_empty text) ("Configuration key '" +++ key +++ "' must not be empty")

unfoldable pub require_absolute_topic : String → String → Outcome (Unit {0})
require_absolute_topic text key = do
  require_non_empty text key
  refuse (not (starts_at_root text)) ("Configuration topic '" +++ key +++ "' must start with '/'")

module _ (f : Doubles) where
  open f use {Double, lt, le, zero_d}

  unfoldable pub check_names : SystemConfig Double → Outcome (Unit {0})
  check_names c = do
    require_non_empty c.map_root "map_root"
    refuse (not (starts_at_root c.map_root)) "Configuration key 'map_root' must be an absolute path"
    require_non_empty c.frames.map "frames.map"
    require_non_empty c.frames.odom "frames.odom"
    require_non_empty c.frames.base "frames.base"
    require_non_empty c.frames.lidar "frames.lidar"
    require_absolute_topic c.topics.pointcloud "topics.pointcloud"
    require_absolute_topic c.topics.imu "topics.imu"
    require_absolute_topic c.topics.initial_pose "topics.initial_pose"
    require_absolute_topic c.topics.localization_raw_odometry "topics.localization_raw_odometry"
    require_absolute_topic c.topics.localization_correction "topics.localization_correction"
    require_absolute_topic c.topics.localization_odometry "topics.localization_odometry"
    require_absolute_topic c.topics.localization_pose "topics.localization_pose"
    require_absolute_topic c.topics.system_status "topics.system_status"

  unfoldable pub check_numbers : SystemConfig Double → Outcome (Unit {0})
  check_numbers c = do
    refuse (le c.status_publish_hz zero_d)
        "Configuration key 'status_publish_hz' must be greater than zero"
    refuse (le c.last_pose.save_interval_sec zero_d)
        "Configuration key 'last_pose.save_interval_sec' must be greater than zero"
    refuse (le c.relocalization.initial_pose_wait_timeout_sec zero_d)
        "Configuration key 'relocalization.initial_pose_wait_timeout_sec' must be greater than zero"
    refuse (lt c.relocalization.initial_pose_settle_sec zero_d)
        "Configuration key 'relocalization.initial_pose_settle_sec' must not be negative"
    refuse
        (c.relocalization.last_pose_retry_count == 0
          || le c.relocalization.last_pose_retry_interval_sec zero_d)
        "Relocalization Last Pose retry count and interval must be greater than zero"
    refuse (ltb c.relocalization.min_initial_pose_subscribers 2)
        "Configuration key 'relocalization.min_initial_pose_subscribers' must be at least 2"

  unfoldable pub checked : SystemConfig Double → Outcome (SystemConfig Double)
  checked c = do check_names c; check_numbers c; value c

  module _ (yaml : Yaml Double) where
    open yaml use {Node, child, is_sequence, elements, as_string, as_bool, as_double, as_size}

    abbrev pub required_value : {T : Type 0} → (Node → Outcome T) → Node → String → Outcome T
    required_value =
        required yaml (λ key. "Missing required configuration key: " +++ key)
          (λ key. "Invalid value for configuration key '" +++ key +++ "': ")

    abbrev pub three_numbers : String → List Node → Outcome (Double × Double × Double)
    three_numbers why (a ∷ b ∷ c ∷ []) = do
      x ← as_double a
      y ← as_double b
      z ← as_double c
      value (x, y, z)
    three_numbers why _ = throws why

    unfoldable pub required_vector3 : Node → String → Outcome (Double × Double × Double)
    required_vector3 parent key =
        let why = "Configuration key '" +++ key +++ "' must contain exactly three numbers" in
        elim (child parent key) [
          | none ↦ throws why
          | some node ↦ if is_sequence node then three_numbers why (elements node) else throws why
        ]

    unfoldable pub lidar_section : Node → Outcome Node
    lidar_section root = elim (child root "extrinsics") [
      | none ↦ throws "Missing required configuration section: extrinsics.lidar_to_base"
      | some extrinsics ↦
          section_at yaml "Missing required configuration section: extrinsics.lidar_to_base"
            extrinsics "lidar_to_base"
    ]

    unfoldable pub read_system : Node → Outcome (SystemConfig Double)
    read_system root = do
      map_root ← required_value as_string root "map_root"
      status_publish_hz ← required_value as_double root "status_publish_hz"
      frames ← section_at yaml "Missing required configuration section: frames" root "frames"
      frame_map ← required_value as_string frames "map"
      frame_odom ← required_value as_string frames "odom"
      frame_base ← required_value as_string frames "base"
      frame_lidar ← required_value as_string frames "lidar"
      topics ← section_at yaml "Missing required configuration section: topics" root "topics"
      pointcloud ← required_value as_string topics "pointcloud"
      imu ← required_value as_string topics "imu"
      initial_pose ← required_value as_string topics "initial_pose"
      localization_raw_odometry ← required_value as_string topics "localization_raw_odometry"
      localization_correction ← required_value as_string topics "localization_correction"
      localization_odometry ← required_value as_string topics "localization_odometry"
      localization_pose ← required_value as_string topics "localization_pose"
      system_status ← required_value as_string topics "system_status"
      last_pose ←
          section_at yaml "Missing required configuration section: last_pose" root "last_pose"
      enable ← required_value as_bool last_pose "enable"
      save_interval_sec ← required_value as_double last_pose "save_interval_sec"
      relocalization ←
          section_at yaml "Missing required configuration section: relocalization" root
            "relocalization"
      initial_pose_wait_timeout_sec ←
          required_value as_double relocalization "initial_pose_wait_timeout_sec"
      initial_pose_settle_sec ← required_value as_double relocalization "initial_pose_settle_sec"
      last_pose_retry_count ← required_value as_size relocalization "last_pose_retry_count"
      last_pose_retry_interval_sec ←
          required_value as_double relocalization "last_pose_retry_interval_sec"
      min_initial_pose_subscribers ←
          required_value as_size relocalization "min_initial_pose_subscribers"
      lidar_to_base ← lidar_section root
      translation ← required_vector3 lidar_to_base "translation"
      rotation_rpy ← required_vector3 lidar_to_base "rotation_rpy"
      value (record {
        map_root = map_root;
        status_publish_hz = status_publish_hz;
        frames = record {
          map = frame_map;
          odom = frame_odom;
          base = frame_base;
          lidar = frame_lidar;
        };
        topics = record {
          pointcloud = pointcloud;
          imu = imu;
          initial_pose = initial_pose;
          localization_raw_odometry = localization_raw_odometry;
          localization_correction = localization_correction;
          localization_odometry = localization_odometry;
          localization_pose = localization_pose;
          system_status = system_status;
        };
        last_pose = record { enable = enable; save_interval_sec = save_interval_sec };
        relocalization = record {
          initial_pose_wait_timeout_sec = initial_pose_wait_timeout_sec;
          initial_pose_settle_sec = initial_pose_settle_sec;
          last_pose_retry_count = last_pose_retry_count;
          last_pose_retry_interval_sec = last_pose_retry_interval_sec;
          min_initial_pose_subscribers = min_initial_pose_subscribers;
        };
        lidar_to_base = record { translation = translation; rotation_rpy = rotation_rpy };
      })

    module _ (load_file : String → Outcome Node) where
      unfoldable pub parse_system : String → Outcome (SystemConfig Double)
      parse_system path = do
        root ← relabelled ("Unable to load system config '" +++ path +++ "': ") (load_file path)
        next ← read_system root
        checked next

      -- The fields change only behind the last check.
      unfoldable pub load :
          String → ConfigManager Double → ConfigManager Double × Outcome (Unit {0})
      load path m = elim (parse_system path) [
        | throws why ↦ (m, throws why)
        | value next ↦ (record m { config = next; loaded = true }, value tt)
      ]

  unfoldable pub get : ConfigManager Double → Outcome (SystemConfig Double)
  get m = if not m.loaded then throws "System configuration has not been loaded" else value m.config

  unfoldable pub is_loaded : ConfigManager Double → Bool
  is_loaded m = m.loaded
