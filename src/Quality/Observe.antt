-- ===== src/Quality/Observe.antt =====
-- The messages that LocalizationQualityMonitor takes in: reset, observeOdometry, observePose,
-- observeCorrection and observeRegistration, with the geometry they use.
use slam_system_manager.Base.{
  ℕ, ◌==◌, leb, ltb, Bool, true, false, not, ◌&&◌, ◌||◌, Option, none, some, String, if◌then◌else◌,
}
use slam_system_manager.Doubles.{Doubles}
use slam_system_manager.Quality.{
  QualityConfig, Point, Quaternion, Pose, Odometry, Registration, Monitor, unknown,
  quality_to_string,
}

module _ (f : Doubles) where
  open f use {
    Double, Float, lt, add, sub, mul, div, zero_d, time_seconds, decimal, is_finite, sqrt, abs, sin,
    cos, atan2, narrow, widen, float_nan,
  }

  abbrev pub two : Double
  two = decimal 2 0

  abbrev pub one : Double
  one = decimal 1 0

  -- kPi / 180.0 times an angle in degrees, in the source's order of operations.
  unfoldable pub radians : Double → Double
  radians degrees = div (mul degrees (decimal 314159265358979323846 20)) (decimal 180 0)

  unfoldable pub norm3 : Point Double → Point Double → Double
  norm3 a b =
      let dx = sub a.x b.x in
      let dy = sub a.y b.y in
      let dz = sub a.z b.z in sqrt (add (add (mul dx dx) (mul dy dy)) (mul dz dz))

  unfoldable pub yaw_from_quaternion : Quaternion Double → Double
  yaw_from_quaternion q =
      atan2 (mul two (add (mul q.w q.z) (mul q.x q.y)))
        (sub one (mul two (add (mul q.y q.y) (mul q.z q.z))))

  unfoldable pub wrapped_angle_difference : Double → Double → Double
  wrapped_angle_difference current previous =
      let difference = sub current previous in atan2 (sin difference) (cos difference)

  unfoldable pub finite_pose : Pose Double → Bool
  finite_pose pose =
      let p = pose.position in
      let q = pose.orientation in
      if not (is_finite p.x)
        || not (is_finite p.y)
        || not (is_finite p.z)
        || not (is_finite q.x)
        || not (is_finite q.y)
        || not (is_finite q.z)
        || not (is_finite q.w)
      then false
      else lt (decimal 1 12)
          (add (add (add (mul q.x q.x) (mul q.y q.y)) (mul q.z q.z)) (mul q.w q.w))

  unfoldable pub yaw_between : Pose Double → Pose Double → Double
  yaw_between a b = abs (
      wrapped_angle_difference (yaw_from_quaternion a.orientation)
        (yaw_from_quaternion b.orientation))

  unfoldable pub reset : Monitor Double Float → Monitor Double Float
  reset m = record m {
    state = unknown;
    status = record {
      stamp = 0;
      frame_id = "";
      state = quality_to_string unknown;
      confidence = narrow zero_d;
      pose_valid = false;
      position_jump = narrow zero_d;
      yaw_jump = narrow zero_d;
      update_age = float_nan;
      linear_velocity = narrow zero_d;
      angular_velocity = narrow zero_d;
      matching_score = float_nan;
      inlier_ratio = float_nan;
      map_overlap_ratio = float_nan;
      registration_residual = float_nan;
      registration_age = float_nan;
      correspondence_count = 0;
      consecutive_good_frames = 0;
      consecutive_bad_frames = 0;
      reason = "Localization has not been initialized";
    };
    have_odometry = false;
    have_pose = false;
    have_correction = false;
    have_registration = false;
    motion_sample_valid = false;
    motion_sample_fault = false;
    pose_sample_fault = false;
    correction_sample_fault = false;
    motion_fault_reason = "";
    pose_fault_reason = "";
    correction_fault_reason = "";
    position_jump = zero_d;
    yaw_jump = zero_d;
    linear_velocity = zero_d;
    angular_velocity = zero_d;
    correction_position_jump = zero_d;
    correction_yaw_jump = zero_d;
    consecutive_good_frames = 0;
    consecutive_bad_frames = 0;
    consecutive_critical_frames = 0;
  }

  module _ (config : QualityConfig Double) where
    -- Which limit a sample of the motion broke, if any.
    unfoldable pub motion_fault : Double → Double → Double → Double → Option String
    motion_fault position_jump yaw_jump linear angular =
        let too_fast = lt config.max_linear_velocity_mps linear in
        let too_fast_turn = lt (radians config.max_angular_velocity_dps) angular in
        if lt config.max_position_jump_m position_jump && too_fast
        then some "Position jump and linear velocity exceeded thresholds"
        else if lt (radians config.max_yaw_jump_deg) yaw_jump && too_fast_turn
        then some "Yaw jump and angular velocity exceeded thresholds"
        else if too_fast
        then some "Linear velocity exceeded the configured physical limit"
        else if too_fast_turn
        then some "Angular velocity exceeded the configured physical limit"
        else none

    unfoldable pub fault_motion : String → Monitor Double Float → Monitor Double Float
    fault_motion why m = record m { motion_sample_fault = true; motion_fault_reason = why }

    unfoldable pub note_fault : Option String → Monitor Double Float → Monitor Double Float
    note_fault (some why) m = fault_motion why m
    note_fault none m = m

    unfoldable pub clear_motion : Monitor Double Float → Monitor Double Float
    clear_motion m = record m {
      motion_sample_fault = false;
      motion_fault_reason = "";
      motion_sample_valid = false;
    }

    -- The velocities of a sample that comes `delta` seconds behind the last one.
    unfoldable pub note_velocity : Double → Monitor Double Float → Monitor Double Float
    note_velocity delta m =
        if not (lt zero_d delta && is_finite delta)
        then m
        else (let linear = div m.position_jump delta in
            let angular = div m.yaw_jump delta in
            let m' = record m {
              linear_velocity = linear;
              angular_velocity = angular;
              motion_sample_valid = true;
            } in
            note_fault (motion_fault m.position_jump m.yaw_jump linear angular) m')

    -- The comparison with the last sample.
    unfoldable pub note_motion : Odometry Double → Monitor Double Float → Monitor Double Float
    note_motion message m =
        note_velocity (time_seconds message.stamp m.last_odometry_stamp) (record m {
          position_jump = norm3 message.pose.position m.last_odometry_pose.position;
          yaw_jump = yaw_between message.pose m.last_odometry_pose;
        })

    unfoldable pub keep_odometry : Odometry Double → ℕ → Monitor Double Float → Monitor Double Float
    keep_odometry message receipt_time m = record m {
      last_odometry_pose = message.pose;
      last_odometry_stamp = message.stamp;
      last_odometry_receipt = receipt_time;
      have_odometry = true;
    }

    unfoldable pub observe_odometry :
        Odometry Double → ℕ → Monitor Double Float → Monitor Double Float
    observe_odometry message receipt_time m =
        if not (finite_pose message.pose)
        then fault_motion "Localization odometry contains NaN, Inf, or an invalid quaternion" m
        else if m.have_odometry && leb message.stamp m.last_odometry_stamp
        then fault_motion "Localization odometry timestamp moved backwards or repeated" m
        else keep_odometry message receipt_time
            (if m.have_odometry then note_motion message (clear_motion m) else clear_motion m)

    unfoldable pub observe_pose : Pose Double → ℕ → Monitor Double Float → Monitor Double Float
    observe_pose pose receipt_time m =
        if not (finite_pose pose)
        then record m {
          pose_sample_fault = true;
          pose_fault_reason = "Localization pose contains NaN, Inf, or an invalid quaternion";
        }
        else record m {
          pose_sample_fault = false;
          pose_fault_reason = "";
          last_pose_receipt = receipt_time;
          have_pose = true;
        }

    unfoldable pub fault_correction : String → Monitor Double Float → Monitor Double Float
    fault_correction why m = record m {
      correction_sample_fault = true;
      correction_fault_reason = why;
    }

    unfoldable pub note_correction : Odometry Double → Monitor Double Float → Monitor Double Float
    note_correction message m =
        let jump = norm3 message.pose.position m.last_correction_pose.position in
        let turned = yaw_between message.pose m.last_correction_pose in
        let m' = record m { correction_position_jump = jump; correction_yaw_jump = turned } in
        if lt config.max_correction_position_jump_m jump
        then fault_correction "map_to_odom position correction jumped beyond the threshold" m'
        else if lt (radians config.max_correction_yaw_jump_deg) turned
        then fault_correction "map_to_odom yaw correction jumped beyond the threshold" m'
        else m'

    unfoldable pub keep_correction :
        Odometry Double → ℕ → Monitor Double Float → Monitor Double Float
    keep_correction message receipt_time m = record m {
      last_correction_pose = message.pose;
      last_correction_stamp = message.stamp;
      last_correction_receipt = receipt_time;
      have_correction = true;
    }

    unfoldable pub observe_correction :
        Odometry Double → ℕ → Monitor Double Float → Monitor Double Float
    observe_correction message receipt_time m =
        if not (finite_pose message.pose)
        then fault_correction "map_to_odom contains NaN, Inf, or an invalid quaternion" m
        else if m.have_correction && leb message.stamp m.last_correction_stamp
        then fault_correction "map_to_odom timestamp moved backwards or repeated" m
        else (let m' = record m { correction_sample_fault = false; correction_fault_reason = "" } in
            keep_correction message receipt_time
              (if m.have_correction then note_correction message m' else m'))

    unfoldable pub observe_registration :
        Registration Float → ℕ → Monitor Double Float → Monitor Double Float
    observe_registration message receipt_time m =
        let refused =
          message.valid
          && (not (is_finite (widen message.fitness))
              || not (is_finite (widen message.mean_residual))
              || message.source_point_count == 0
              || ltb message.source_point_count message.correspondence_count) in
        record m {
          registration =
              if refused then record message { valid = false; accepted = false } else message;
          last_registration_receipt = receipt_time;
          have_registration = true;
        }
