-- ===== src/Tests/Files.antt =====
-- The theorems of the configuration file at concrete inputs.
use slam_system_manager.Base.{
  ℕ, ◌≡◌, ◌↔◌, refl, true, false, some, [], ◌∷◌, String, str_eq, ◌||◌, if◌then◌else◌,
}
use slam_system_manager.Outcome.{Outcome, value}
use slam_system_manager.Yaml.{Yaml, required, map_at, section_at}
use slam_system_manager.Quality.{QualityConfig}
use slam_system_manager.Quality.Config.{
  rates_positive, thresholds_valid, frames_valid, weights_valid, validated, sections,
  quality_section, read_config, load_config,
}
use slam_system_manager.Quality.Valid.{IsValid, validated_iff-IsValid, load_config-IsValid}
use slam_system_manager.Tests.Simulation.{whole}

abbrev any_file : String → Outcome String
any_file path = value ""

-- A file in which every key is there; each number is 1 but the two lower thresholds, which are 0.
abbrev plain_file : Yaml ℕ
plain_file = record {
  Node = String;
  child = λ parent key. some key;
  is_null = λ node. false;
  is_map = λ node. true;
  is_sequence = λ node. true;
  elements = λ node. node ∷ node ∷ node ∷ [];
  entries = λ node. [];
  as_string = λ node. value "/a";
  as_bool = λ node. value true;
  as_double = λ node.
      if str_eq node "degraded_threshold" || str_eq node "min_registration_fitness"
      then value 0
      else value 1;
  as_size = λ node. value 1;
}

abbrev plain_config : QualityConfig ℕ
plain_config = record {
  publish_hz = 1;
  pose_timeout_sec = 1;
  correction_timeout_sec = 1;
  registration_timeout_sec = 1;
  max_position_jump_m = 1;
  max_yaw_jump_deg = 1;
  max_linear_velocity_mps = 1;
  max_angular_velocity_dps = 1;
  max_correction_position_jump_m = 1;
  max_correction_yaw_jump_deg = 1;
  min_registration_fitness = 0;
  max_registration_residual_m = 1;
  bad_frames_to_degraded = 1;
  bad_frames_to_lost = 1;
  good_frames_to_recover = 1;
  localized_threshold = 1;
  degraded_threshold = 0;
  update_weight = 1;
  motion_weight = 1;
  registration_weight = 1;
  overlap_weight = 1;
}

loaded : load_config whole plain_file any_file "quality.yaml" ≡ value plain_config
unfolding load_config quality_section read_config required map_at section_at sections validated
    rates_positive thresholds_valid frames_valid weights_valid
loaded = refl

load_config-IsValid_example : IsValid whole plain_config
load_config-IsValid_example =
    load_config-IsValid whole plain_file any_file "quality.yaml" plain_config loaded

validated_iff-IsValid_example :
    (validated whole plain_config ≡ value plain_config) ↔ IsValid whole plain_config
validated_iff-IsValid_example = validated_iff-IsValid whole plain_config
