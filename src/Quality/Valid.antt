-- ===== src/Quality/Valid.antt =====
-- What a loaded configuration of LocalizationQualityMonitor satisfies.
use slam_system_manager.Base.{◌≤◌, ◌<◌, ◌≡◌, ◌↔◌, refl, subst, false, String, arith, true}
use slam_system_manager.Doubles.{Doubles}
use slam_system_manager.Outcome.{Outcome, value, >>=-ensures, ◌>>=◌}
use slam_system_manager.Yaml.{Yaml}
use slam_system_manager.Quality.{QualityConfig}
use slam_system_manager.Quality.Observe.{one}
use slam_system_manager.Quality.Config.{
  rates_positive, thresholds_valid, frames_valid, weights_valid, validated, quality_section,
  read_config, load_config,
}

module _ (f : Doubles) where
  open f use {Double, lt, le, add, zero_d}

  -- Each test of loadConfig, negated. A comparison with a NaN is false, so that a NaN passes.
  pub record IsValid (c : QualityConfig Double) : Type 0 where
    pub publish_hz_positive : le c.publish_hz zero_d ≡ false
    pub pose_timeout_sec_positive : le c.pose_timeout_sec zero_d ≡ false
    pub correction_timeout_sec_positive : le c.correction_timeout_sec zero_d ≡ false
    pub registration_timeout_sec_positive : le c.registration_timeout_sec zero_d ≡ false
    pub max_position_jump_m_positive : le c.max_position_jump_m zero_d ≡ false
    pub max_yaw_jump_deg_positive : le c.max_yaw_jump_deg zero_d ≡ false
    pub max_linear_velocity_mps_positive : le c.max_linear_velocity_mps zero_d ≡ false
    pub max_angular_velocity_dps_positive : le c.max_angular_velocity_dps zero_d ≡ false
    pub max_correction_position_jump_m_positive : le c.max_correction_position_jump_m zero_d ≡ false
    pub max_correction_yaw_jump_deg_positive : le c.max_correction_yaw_jump_deg zero_d ≡ false
    pub max_registration_residual_m_positive : le c.max_registration_residual_m zero_d ≡ false
    pub fitness_low : lt c.min_registration_fitness zero_d ≡ false
    pub fitness_high : le (one f) c.min_registration_fitness ≡ false
    pub degraded_low : lt c.degraded_threshold zero_d ≡ false
    pub localized_high : lt (one f) c.localized_threshold ≡ false
    pub ordered : le c.localized_threshold c.degraded_threshold ≡ false
    pub degrades : 0 < c.bad_frames_to_degraded
    pub degrades_first : c.bad_frames_to_degraded ≤ c.bad_frames_to_lost
    pub recovers : 0 < c.good_frames_to_recover
    pub update_low : lt c.update_weight zero_d ≡ false
    pub motion_low : lt c.motion_weight zero_d ≡ false
    pub registration_low : lt c.registration_weight zero_d ≡ false
    pub overlap_low : lt c.overlap_weight zero_d ≡ false
    pub sum_positive :
        le
          (add (add (add c.update_weight c.motion_weight) c.registration_weight) c.overlap_weight)
          zero_d
        ≡ false

  validated-split :
      (c c' : QualityConfig Double)
      → validated f c ≡ value c'
      → (rates_positive f c ≡ true)
        × (thresholds_valid f c ≡ true)
        × (frames_valid f c ≡ true)
        × (weights_valid f c ≡ true)
        × (c ≡ c')
  unfolding validated
  validated-split c c' h = ground arith

  validated-join :
      (c : QualityConfig Double)
      → rates_positive f c ≡ true
      → thresholds_valid f c ≡ true
      → frames_valid f c ≡ true
      → weights_valid f c ≡ true
      → validated f c ≡ value c
  unfolding validated
  validated-join c p q r s = rw (p, validated, q, r, s) refl

  tests-IsValid :
      (c : QualityConfig Double)
      → rates_positive f c ≡ true
      → thresholds_valid f c ≡ true
      → frames_valid f c ≡ true
      → weights_valid f c ≡ true
      → IsValid c
  unfolding rates_positive thresholds_valid frames_valid weights_valid
  tests-IsValid c p q r s = ground arith

  IsValid-tests :
      (c : QualityConfig Double)
      → IsValid c
      → (rates_positive f c ≡ true)
        × (thresholds_valid f c ≡ true)
        × (frames_valid f c ≡ true)
        × (weights_valid f c ≡ true)
  unfolding rates_positive thresholds_valid frames_valid weights_valid
  IsValid-tests c v = ground arith

  -- loadConfig's checks accept a configuration exactly if it is valid.
  pub validated_iff-IsValid : (c : QualityConfig Double) → (validated f c ≡ value c) ↔ IsValid c
  validated_iff-IsValid c = (
    λ h. let (p, q, r, s, e) = validated-split c c h in tests-IsValid c p q r s,
    λ v. let (p, q, r, s) = IsValid-tests c v in validated-join c p q r s,
  )

  validated-IsValid : (c c' : QualityConfig Double) → validated f c ≡ value c' → IsValid c'
  validated-IsValid c c' h =
      let (p, q, r, s, e) = validated-split c c' h in subst IsValid e (tests-IsValid c p q r s)

  -- Whatever the file holds, a configuration that loadConfig returns is valid: no rate, timeout or
  -- limit compares as at most zero (a NaN does not), no threshold, fitness bound or weight compares as out of its range or
  -- order, and the frame counts satisfy 0 < bad_frames_to_degraded <= bad_frames_to_lost and
  -- 0 < good_frames_to_recover.
  pub load_config-IsValid :
      (yaml : Yaml Double) (load_file : String → Outcome yaml.Node) (path : String)
      (c : QualityConfig Double)
      → load_config f yaml load_file path ≡ value c
      → IsValid c
  unfolding load_config
  load_config-IsValid yaml load_file path c h =
      >>=-ensures IsValid (λ quality. read_config f yaml quality >>= validated f)
        (λ quality.
          >>=-ensures IsValid (validated f) validated-IsValid (read_config f yaml quality))
        (quality_section f yaml load_file path) c h
