-- ===== src/Quality/Evaluate.antt =====
-- LocalizationQualityMonitor::evaluate behind the score of a frame: the frame counters, the hysteresis of
-- the state and the status.
use slam_system_manager.Base.{
  ℕ, ◌+◌, ◌-◌, ◌%◌, ◌^◌, leb, Bool, false, not, ◌&&◌, ◌||◌, Option, none, some, String, str_eq,
  if◌then◌else◌,
}
use slam_system_manager.Doubles.{Doubles}
use slam_system_manager.Manager.Pose.{QualityContext}
use slam_system_manager.Quality.{
  QualityState, unknown, localized, degraded, lost, same, quality_to_string, QualityConfig, Monitor,
}
use slam_system_manager.Quality.Score.{
  Ages, Frame, healthy, ages, assess, frame_confidence, is_good, is_critical,
}

unfoldable pub saturating_count : ℕ → ℕ
saturating_count n = if leb n (2 ^ 32 - 1) then n else 2 ^ 32 - 1

-- `++` on std::size_t.
unfoldable pub next_count : ℕ → ℕ
next_count n = (n + 1) % 2 ^ 64

module _ (f : Doubles) where
  open f use {
    Double, Float, lt, le, add, sub, mul, div, zero_d, time_seconds, decimal, is_finite, quiet_nan,
    narrow, widen, float_nan,
  }

  unfoldable pub transition_quality : QualityState → Monitor Double Float → Monitor Double Float
  transition_quality next m = if same next m.state then m else record m { state = next }

  -- The measurements that go into the status as they are.
  unfoldable pub report : Ages Double → Monitor Double Float → Monitor Double Float
  report a m =
      let usable = m.have_registration && m.registration.valid in
      record m {
        status = record m.status {
          update_age = narrow a.update;
          position_jump = narrow m.position_jump;
          yaw_jump = narrow m.yaw_jump;
          linear_velocity = narrow m.linear_velocity;
          angular_velocity = narrow m.angular_velocity;
          registration_age = narrow a.registration;
          matching_score = if usable then m.registration.fitness else float_nan;
          inlier_ratio = if usable then m.registration.fitness else float_nan;
          registration_residual = if usable then m.registration.mean_residual else float_nan;
          correspondence_count =
              if m.have_registration then m.registration.correspondence_count else 0;
        };
      }

  -- The frame without an operation mode to judge.
  unfoldable pub idle_frame : String → Monitor Double Float → Monitor Double Float
  idle_frame why m =
      let m' = transition_quality unknown m in
      record m' {
        consecutive_good_frames = 0;
        consecutive_bad_frames = 0;
        consecutive_critical_frames = 0;
        status = record m'.status { confidence = narrow zero_d; pose_valid = false; reason = why };
      }

  unfoldable pub stamped : String → ℕ → Monitor Double Float → Monitor Double Float
  stamped map_frame now m = record m {
    status = record m.status { stamp = now; frame_id = map_frame; map_overlap_ratio = float_nan };
  }

  -- The end of evaluate.
  unfoldable pub publishable : Monitor Double Float → Monitor Double Float
  publishable m = record m {
    status = record m.status {
      state = quality_to_string m.state;
      consecutive_good_frames = saturating_count m.consecutive_good_frames;
      consecutive_bad_frames = saturating_count m.consecutive_bad_frames;
    };
  }

  -- The branch that a frame takes: counters.
  unfoldable pub count_frame : Bool → Bool → Monitor Double Float → Monitor Double Float
  count_frame good critically_bad m =
      if good
      then record m {
        consecutive_good_frames = next_count m.consecutive_good_frames;
        consecutive_bad_frames = 0;
        consecutive_critical_frames = 0;
      }
      else record m {
        consecutive_good_frames = 0;
        consecutive_bad_frames = next_count m.consecutive_bad_frames;
        consecutive_critical_frames =
            if critically_bad then next_count m.consecutive_critical_frames else 0;
      }

  -- The reason that a frame leaves behind its counters.
  unfoldable pub count_reason : Bool → Bool → String → String
  count_reason good critically_bad reason =
      if not good && not critically_bad && str_eq reason healthy
      then "Confidence is below the localized threshold"
      else reason

  module _ (config : QualityConfig Double) where
    -- The state that the counters ask for, if any.
    unfoldable pub wanted : Monitor Double Float → Option QualityState
    wanted m =
        let many_bad = leb config.bad_frames_to_degraded m.consecutive_bad_frames in
        if leb config.bad_frames_to_lost m.consecutive_critical_frames
        then some lost
        else if same m.state unknown && many_bad
        then some degraded
        else if same m.state localized && many_bad
        then some degraded
        else if (same m.state unknown || same m.state degraded || same m.state lost)
            && leb config.good_frames_to_recover m.consecutive_good_frames
        then some localized
        else none

    unfoldable pub settle : Monitor Double Float → Monitor Double Float
    settle m = elim (wanted m) [ some next ↦ transition_quality next m | none ↦ m ]

    unfoldable pub settled_reason : Monitor Double Float → String → String
    settled_reason m reason = elim (wanted m) [ some localized ↦ healthy | _ ↦ reason ]

    unfoldable pub judge : Frame Double → Monitor Double Float → Monitor Double Float
    judge frame m =
        let counted = count_frame (is_good f config frame) (is_critical f config frame) m in
        let m' = settle counted in
        record m' {
          status = record m'.status {
            confidence = narrow (frame_confidence f config frame);
            pose_valid =
                not (same m'.state unknown)
                && not (same m'.state lost)
                && not frame.critical
                && not m'.motion_sample_fault
                && not m'.pose_sample_fault
                && not m'.correction_sample_fault;
            reason =
                settled_reason counted
                  (count_reason (is_good f config frame) (is_critical f config frame) frame.reason);
          };
        }

    unfoldable pub evaluate :
        String → ℕ → QualityContext → Monitor Double Float → Monitor Double Float
    evaluate map_frame now context m =
        let m' = stamped map_frame now m in
        publishable (
          if not context.localization_active
          then idle_frame "Localization is not active" m'
          else if not context.localization_initialized
          then idle_frame "Waiting for localization initialization" m'
          else judge (assess f config context (ages f now m') m') (report (ages f now m') m'))
