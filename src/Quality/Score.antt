-- ===== src/Quality/Score.antt =====
-- The first half of LocalizationQualityMonitor::evaluate: the ages, the chain of critical conditions and
-- the weighted score of a frame.
use slam_system_manager.Base.{
  ℕ, Bool, true, false, not, ◌&&◌, ◌||◌, Option, none, some, String, if◌then◌else◌,
}
use slam_system_manager.Doubles.{Doubles}
use slam_system_manager.Manager.Pose.{QualityContext}
use slam_system_manager.Quality.{QualityConfig, Monitor}
use slam_system_manager.Quality.Observe.{radians, one}

pub record Ages (D : Type 0) : Type 0 where
  pub update : D
  pub correction : D
  pub registration : D

-- The local variables of the scoring part.
pub record Frame (D : Type 0) : Type 0 where
  pub critical : Bool
  pub reason : String
  pub weighted_score : D
  pub available_weight : D

abbrev pub healthy : String
healthy = "Localization quality is healthy"

module _ (f : Doubles) where
  open f use {
    Double, Float, lt, le, add, sub, mul, div, zero_d, time_seconds, decimal, is_finite, quiet_nan,
    narrow, widen, float_nan,
  }

  unfoldable pub clamp01 : Double → Double
  clamp01 value = if lt value zero_d then zero_d else if lt (one f) value then one f else value

  -- std::max.
  unfoldable pub larger : Double → Double → Double
  larger a b = if lt a b then b else a

  unfoldable pub freshness_score : Double → Double → Double
  freshness_score age timeout =
      let full_score_until = mul timeout (decimal 5 1) in
      if not (is_finite age) || lt age zero_d || le timeout age
      then zero_d
      else if le age full_score_until
      then one f
      else clamp01 (div (sub timeout age) (sub timeout full_score_until))

  unfoldable pub ages : ℕ → Monitor Double Float → Ages Double
  ages now m =
      let since =
        (λ (have : Bool) (receipt : ℕ). if have then time_seconds now receipt else quiet_nan) in
      record {
        update =
            if m.have_odometry && m.have_pose
            then larger (since m.have_odometry m.last_odometry_receipt)
                (since m.have_pose m.last_pose_receipt)
            else quiet_nan;
        correction = since m.have_correction m.last_correction_receipt;
        registration = since m.have_registration m.last_registration_receipt;
      }

  module _ (config : QualityConfig Double) where
    -- The chain of critical conditions: the first that holds names its reason.
    unfoldable pub diagnose : QualityContext → Ages Double → Monitor Double Float → Option String
    diagnose context a m =
        if not context.localization_process_alive
        then some "Localization process is not running"
        else if not context.sensors_healthy
        then some "Ouster data is not healthy"
        else if not m.have_odometry || not m.have_pose
        then some "Waiting for unified localization pose updates"
        else if not (is_finite a.update) || lt a.update zero_d
        then some "Localization update time is invalid"
        else if lt config.pose_timeout_sec a.update
        then some "Localization pose update timed out"
        else if m.motion_sample_fault
        then some m.motion_fault_reason
        else if m.pose_sample_fault
        then some m.pose_fault_reason
        else if not m.have_correction
        then some "Waiting for map_to_odom updates"
        else if not (is_finite a.correction)
            || lt a.correction zero_d
            || lt config.correction_timeout_sec a.correction
        then some "map_to_odom update timed out"
        else if m.correction_sample_fault
        then some m.correction_fault_reason
        else none

    unfoldable pub first_frame : QualityContext → Ages Double → Monitor Double Float → Frame Double
    first_frame context a m = elim (diagnose context a m) [
      | some why ↦ record {
        critical = true;
        reason = why;
        weighted_score = zero_d;
        available_weight = zero_d;
      }
      | none ↦ record {
        critical = false;
        reason = healthy;
        weighted_score = zero_d;
        available_weight = zero_d;
      }
    ]

    unfoldable pub weigh : Double → Double → Frame Double → Frame Double
    weigh weight score frame = record frame {
      weighted_score = add frame.weighted_score (mul weight score);
      available_weight = add frame.available_weight weight;
    }

    unfoldable pub score_update : Ages Double → Monitor Double Float → Frame Double → Frame Double
    score_update a m frame =
        if m.have_odometry && m.have_pose && is_finite a.update
        then weigh config.update_weight (freshness_score a.update config.pose_timeout_sec) frame
        else frame

    unfoldable pub score_motion : Monitor Double Float → Frame Double → Frame Double
    score_motion m frame =
        let ratio =
          larger (div m.linear_velocity config.max_linear_velocity_mps)
            (div m.angular_velocity (radians f config.max_angular_velocity_dps)) in
        let score =
          if le ratio (decimal 8 1)
          then one f
          else clamp01 (div (sub (one f) ratio) (decimal 2 1)) in
        if m.motion_sample_valid then weigh config.motion_weight score frame else frame

    unfoldable pub registration_score : Monitor Double Float → Double
    registration_score m =
        let fitness_score = clamp01 (
          div (sub (widen m.registration.fitness) config.min_registration_fitness)
            (sub (one f) config.min_registration_fitness)) in
        let residual_score = clamp01 (
          sub (one f)
            (div (widen m.registration.mean_residual) config.max_registration_residual_m)) in
        add (mul (decimal 7 1) fitness_score) (mul (decimal 3 1) residual_score)

    unfoldable pub score_registration :
        Ages Double → Monitor Double Float → Frame Double → Frame Double
    score_registration a m frame =
        let late =
          not (is_finite a.registration)
          || lt a.registration zero_d
          || lt config.registration_timeout_sec a.registration in
        let in_time =
          is_finite a.registration
          && le zero_d a.registration
          && le a.registration config.registration_timeout_sec in
        if m.have_registration && m.registration.valid && in_time
        then (if not m.registration.accepted
            then weigh config.registration_weight zero_d
                (record frame { critical = true; reason = "Scan-to-map registration was rejected" })
            else if lt config.max_registration_residual_m (widen m.registration.mean_residual)
            then weigh config.registration_weight (registration_score m) (record frame {
              critical = true;
              reason = "Scan-to-map registration residual exceeded the threshold";
            })
            else weigh config.registration_weight (registration_score m) frame)
        else if m.have_registration && late
        then record frame { critical = true; reason = "Registration quality update timed out" }
        else frame

    unfoldable pub assess : QualityContext → Ages Double → Monitor Double Float → Frame Double
    assess context a m =
        score_registration a m (score_motion m (score_update a m (first_frame context a m)))

    unfoldable pub frame_confidence : Frame Double → Double
    frame_confidence frame = clamp01 (
        if frame.critical
        then zero_d
        else if lt zero_d frame.available_weight
        then div frame.weighted_score frame.available_weight
        else zero_d)

    unfoldable pub is_good : Frame Double → Bool
    is_good frame = not frame.critical && le config.localized_threshold (frame_confidence frame)

    unfoldable pub is_critical : Frame Double → Bool
    is_critical frame = frame.critical || lt (frame_confidence frame) config.degraded_threshold
