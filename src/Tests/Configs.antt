-- ===== src/Tests/Configs.antt =====
-- The theorems of the system configuration at concrete inputs.
use slam_system_manager.Base.{arith, refl, ℕ, ◌≡◌, ◌↔◌, ◌⊎◌, true, false, some, [], ◌∷◌, String}
use slam_system_manager.Outcome.{Outcome, value, throws}
use slam_system_manager.Doubles.{Comparisons}
use slam_system_manager.Yaml.{Yaml}
use slam_system_manager.Config.{SystemConfig, ConfigManager}
use slam_system_manager.Config.Load.{checked, parse_system, load, get}
use slam_system_manager.Config.Accepts.{IsAccepted, IsProper, checked_iff-IsProper, load_cases}
use slam_system_manager.Tests.Simulation.{whole}

-- A file in which every text is "/a" and every number is 2.
abbrev pub system_file : Yaml ℕ
system_file = record {
  Node = String;
  child = λ parent key. some key;
  is_null = λ node. false;
  is_map = λ node. true;
  is_sequence = λ node. true;
  elements = λ node. node ∷ node ∷ node ∷ [];
  entries = λ node. [];
  as_string = λ node. value "/a";
  as_bool = λ node. value true;
  as_double = λ node. value 2;
  as_size = λ node. value 2;
}

abbrev present : String → Outcome String
present path = value ""

abbrev pub system_config : SystemConfig ℕ
system_config = record {
  map_root = "/a";
  frames = record { map = "/a"; odom = "/a"; base = "/a"; lidar = "/a" };
  topics = record {
    pointcloud = "/a";
    imu = "/a";
    initial_pose = "/a";
    localization_raw_odometry = "/a";
    localization_correction = "/a";
    localization_odometry = "/a";
    localization_pose = "/a";
    system_status = "/a";
  };
  last_pose = record { enable = true; save_interval_sec = 2 };
  relocalization = record {
    initial_pose_wait_timeout_sec = 2;
    initial_pose_settle_sec = 2;
    last_pose_retry_count = 2;
    last_pose_retry_interval_sec = 2;
    min_initial_pose_subscribers = 2;
  };
  lidar_to_base = record { translation = (2, 2, 2); rotation_rpy = (2, 2, 2) };
  status_publish_hz = 2;
}

abbrev not_loaded : ConfigManager ℕ
not_loaded = record { config = system_config; loaded = false }

whole_comparisons : Comparisons whole
whole_comparisons = record {
  not_le = λ x y. (λ h. ground arith, λ h. ground arith);
  not_lt = λ x y. (λ h. ground arith, λ h. ground arith);
  zero_ordered = refl;
}

checked_iff-IsProper_example :
    (checked whole system_config ≡ value system_config) ↔ IsProper whole system_config
checked_iff-IsProper_example = checked_iff-IsProper whole whole_comparisons system_config

load_cases_example :
    ((why : String) × (parse_system whole system_file present "system.yaml" ≡ throws why)
      × (load whole system_file present "system.yaml" not_loaded ≡ (not_loaded, throws why)))
    ⊎ ((c : SystemConfig ℕ) × (parse_system whole system_file present "system.yaml" ≡ value c)
        × IsAccepted whole c
        × ((load whole system_file present "system.yaml" not_loaded).1 ≡ value tt)
        × (get whole (load whole system_file present "system.yaml" not_loaded).0 ≡ value c))
load_cases_example = load_cases whole system_file present "system.yaml" not_loaded
