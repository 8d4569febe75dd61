-- ===== src/Quality/Config.antt =====
-- LocalizationQualityMonitor::loadConfig: reading and validating the configuration. yaml-cpp is an
-- interface.
use slam_system_manager.Base.{◌==◌, ltb, Bool, not, ◌||◌, none, some, String, ◌+++◌, if◌then◌else◌}
use slam_system_manager.Doubles.{Doubles}
use slam_system_manager.Outcome.{Outcome, value, throws, relabelled, ◌>>=◌}
use slam_system_manager.Yaml.{Yaml, required, map_at, section_at}
use slam_system_manager.Quality.{QualityConfig}
use slam_system_manager.Quality.Observe.{one}

module _ (f : Doubles) where
  open f use {Double, lt, le, add, zero_d}

  unfoldable pub rates_positive : QualityConfig Double → Bool
  rates_positive c = not (
      le c.publish_hz zero_d
      || le c.pose_timeout_sec zero_d
      || le c.correction_timeout_sec zero_d
      || le c.registration_timeout_sec zero_d
      || le c.max_position_jump_m zero_d
      || le c.max_yaw_jump_deg zero_d
      || le c.max_linear_velocity_mps zero_d
      || le c.max_angular_velocity_dps zero_d
      || le c.max_correction_position_jump_m zero_d
      || le c.max_correction_yaw_jump_deg zero_d
      || le c.max_registration_residual_m zero_d)

  unfoldable pub thresholds_valid : QualityConfig Double → Bool
  thresholds_valid c = not (
      lt c.min_registration_fitness zero_d
      || le (one f) c.min_registration_fitness
      || lt c.degraded_threshold zero_d
      || lt (one f) c.localized_threshold
      || le c.localized_threshold c.degraded_threshold)

  unfoldable pub frames_valid : QualityConfig Double → Bool
  frames_valid c = not (
      c.bad_frames_to_degraded == 0
      || c.bad_frames_to_lost == 0
      || c.good_frames_to_recover == 0
      || ltb c.bad_frames_to_lost c.bad_frames_to_degraded)

  unfoldable pub weights_valid : QualityConfig Double → Bool
  weights_valid c = not (
      lt c.update_weight zero_d
      || lt c.motion_weight zero_d
      || lt c.registration_weight zero_d
      || lt c.overlap_weight zero_d
      || le (add (add (add c.update_weight c.motion_weight) c.registration_weight) c.overlap_weight)
          zero_d)

  -- The checks at the end of loadConfig.
  unfoldable pub validated : QualityConfig Double → Outcome (QualityConfig Double)
  validated c =
      if not (rates_positive c)
      then throws "Localization quality rates, timeouts, and limits must be positive"
      else if not (thresholds_valid c)
      then throws "Localization quality confidence and fitness thresholds are invalid"
      else if not (frames_valid c)
      then throws "Localization quality hysteresis frame counts are invalid"
      else if not (weights_valid c)
      then throws "Localization quality weights must be non-negative with a positive sum"
      else value c

  module _ (yaml : Yaml Double) where
    open yaml use {Node, as_double, as_size}

    abbrev pub required_value : {T : Type 0} → (Node → Outcome T) → Node → String → Outcome T
    required_value =
        required yaml (λ key. "Missing localization quality key: " +++ key)
          (λ key. "Invalid localization quality key '" +++ key +++ "': ")

    unfoldable pub sections : Node → Outcome (Node × Node)
    sections quality = elim (map_at yaml quality "confidence") [
      | none ↦ throws "Localization quality confidence and weights must be maps"
      | some confidence ↦ elim (map_at yaml quality "weights") [
        | none ↦ throws "Localization quality confidence and weights must be maps"
        | some weights ↦ value (confidence, weights)
      ]
    ]

    unfoldable pub read_config : Node → Outcome (QualityConfig Double)
    read_config quality = do
      publish_hz ← required_value as_double quality "publish_hz"
      pose_timeout_sec ← required_value as_double quality "pose_timeout_sec"
      correction_timeout_sec ← required_value as_double quality "correction_timeout_sec"
      registration_timeout_sec ← required_value as_double quality "registration_timeout_sec"
      max_position_jump_m ← required_value as_double quality "max_position_jump_m"
      max_yaw_jump_deg ← required_value as_double quality "max_yaw_jump_deg"
      max_linear_velocity_mps ← required_value as_double quality "max_linear_velocity_mps"
      max_angular_velocity_dps ← required_value as_double quality "max_angular_velocity_dps"
      max_correction_position_jump_m ←
          required_value as_double quality "max_correction_position_jump_m"
      max_correction_yaw_jump_deg ← required_value as_double quality "max_correction_yaw_jump_deg"
      min_registration_fitness ← required_value as_double quality "min_registration_fitness"
      max_registration_residual_m ← required_value as_double quality "max_registration_residual_m"
      bad_frames_to_degraded ← required_value as_size quality "bad_frames_to_degraded"
      bad_frames_to_lost ← required_value as_size quality "bad_frames_to_lost"
      good_frames_to_recover ← required_value as_size quality "good_frames_to_recover"
      (confidence, weights) ← sections quality
      localized_threshold ← required_value as_double confidence "localized_threshold"
      degraded_threshold ← required_value as_double confidence "degraded_threshold"
      update_weight ← required_value as_double weights "update"
      motion_weight ← required_value as_double weights "motion"
      registration_weight ← required_value as_double weights "registration"
      overlap_weight ← required_value as_double weights "overlap"
      value (record {
        publish_hz = publish_hz;
        pose_timeout_sec = pose_timeout_sec;
        correction_timeout_sec = correction_timeout_sec;
        registration_timeout_sec = registration_timeout_sec;
        max_position_jump_m = max_position_jump_m;
        max_yaw_jump_deg = max_yaw_jump_deg;
        max_linear_velocity_mps = max_linear_velocity_mps;
        max_angular_velocity_dps = max_angular_velocity_dps;
        max_correction_position_jump_m = max_correction_position_jump_m;
        max_correction_yaw_jump_deg = max_correction_yaw_jump_deg;
        min_registration_fitness = min_registration_fitness;
        max_registration_residual_m = max_registration_residual_m;
        bad_frames_to_degraded = bad_frames_to_degraded;
        bad_frames_to_lost = bad_frames_to_lost;
        good_frames_to_recover = good_frames_to_recover;
        localized_threshold = localized_threshold;
        degraded_threshold = degraded_threshold;
        update_weight = update_weight;
        motion_weight = motion_weight;
        registration_weight = registration_weight;
        overlap_weight = overlap_weight;
      })

    module _ (load_file : String → Outcome Node) where
      unfoldable pub quality_section : String → Outcome Node
      quality_section path = do
        root ←
            relabelled ("Unable to load localization quality config '" +++ path +++ "': ")
              (load_file path)
        section_at yaml "Missing localization_quality configuration section" root
            "localization_quality"

      unfoldable pub load_config : String → Outcome (QualityConfig Double)
      load_config path = do
        quality ← quality_section path
        config ← read_config quality
        validated config
