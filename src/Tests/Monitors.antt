-- ===== src/Tests/Monitors.antt =====
-- The theorems of the two monitors at concrete inputs.
use slam_system_manager.Base.{ℕ, ◌≤◌, ◌<◌, ◌≡◌, ◌≢◌, ◌⊎◌, refl, sym, ◌∙◌, true, [], ◌∷◌, arith}
use slam_system_manager.Quality.{unknown, localized, degraded, lost, Monitor}
use slam_system_manager.Quality.Observe.{
  reset, finite_pose, norm3, yaw_from_quaternion, wrapped_angle_difference, yaw_between, radians,
  observe_odometry, observe_pose, observe_correction, fault_motion, clear_motion, note_fault,
  note_velocity, note_motion, motion_fault, keep_odometry, fault_correction, note_correction,
  keep_correction,
}
use slam_system_manager.Quality.Evaluate.{
  transition_quality, report, idle_frame, stamped, publishable, count_frame, count_reason, wanted,
  settle, settled_reason, judge, evaluate, next_count, saturating_count,
}
use slam_system_manager.Quality.Score.{
  clamp01, larger, freshness_score, ages, diagnose, first_frame, weigh, score_update, score_motion,
  score_registration, registration_score, assess, frame_confidence, is_good, is_critical,
}
use slam_system_manager.Quality.Safety.{
  Passed, evaluate-pose_valid, IsConfident, evaluate-IsConfident, observe_odometry-order,
}
use slam_system_manager.Quality.History.{
  streak, counts_good, counts_bad, counts_critical, good, critical, verdict, apply, note, follow,
}
use slam_system_manager.Quality.History.Runs.{
  evaluate-IsCounted, evaluate-lost, evaluate-localized, evaluate-degraded, evaluate-recovers,
  evaluate-loses,
}
use slam_system_manager.Tests.Simulation.{whole}
use slam_system_manager.Tests.Samples.{
  quick_config, upright, sample, new_monitor, running, samples, nothing_yet,
}

abbrev seen : Monitor ℕ ℕ
seen = (follow whole quick_config samples (reset whole new_monitor, [])).0

abbrev unseen : Monitor ℕ ℕ
unseen = (follow whole quick_config nothing_yet (reset whole new_monitor, [])).0

seen-verdict : verdict whole quick_config "map" 7 running seen ≡ good
unfolding reset finite_pose norm3 yaw_from_quaternion wrapped_angle_difference yaw_between radians
    observe_odometry observe_pose observe_correction fault_motion clear_motion note_fault
    note_velocity note_motion motion_fault keep_odometry fault_correction note_correction
    keep_correction clamp01 larger freshness_score transition_quality ages report idle_frame stamped
    publishable count_frame count_reason diagnose first_frame weigh score_update score_motion
    score_registration registration_score assess frame_confidence is_good is_critical wanted settle
    settled_reason judge evaluate next_count saturating_count streak verdict apply note follow
seen-verdict = refl

seen_state : seen.state ≡ unknown
unfolding reset finite_pose norm3 yaw_from_quaternion wrapped_angle_difference yaw_between radians
    observe_odometry observe_pose observe_correction fault_motion clear_motion note_fault
    note_velocity note_motion motion_fault keep_odometry fault_correction note_correction
    keep_correction clamp01 larger freshness_score transition_quality ages report idle_frame stamped
    publishable count_frame count_reason diagnose first_frame weigh score_update score_motion
    score_registration registration_score assess frame_confidence is_good is_critical wanted settle
    settled_reason judge evaluate next_count saturating_count streak verdict apply note follow
seen_state = refl

seen_next : (evaluate whole quick_config "map" 7 running seen).state ≡ localized
unfolding reset finite_pose norm3 yaw_from_quaternion wrapped_angle_difference yaw_between radians
    observe_odometry observe_pose observe_correction fault_motion clear_motion note_fault
    note_velocity note_motion motion_fault keep_odometry fault_correction note_correction
    keep_correction clamp01 larger freshness_score transition_quality ages report idle_frame stamped
    publishable count_frame count_reason diagnose first_frame weigh score_update score_motion
    score_registration registration_score assess frame_confidence is_good is_critical wanted settle
    settled_reason judge evaluate next_count saturating_count streak verdict apply note follow
seen_next = refl

unseen-verdict : verdict whole quick_config "map" 7 running unseen ≡ critical
unfolding reset finite_pose norm3 yaw_from_quaternion wrapped_angle_difference yaw_between radians
    observe_odometry observe_pose observe_correction fault_motion clear_motion note_fault
    note_velocity note_motion motion_fault keep_odometry fault_correction note_correction
    keep_correction clamp01 larger freshness_score transition_quality ages report idle_frame stamped
    publishable count_frame count_reason diagnose first_frame weigh score_update score_motion
    score_registration registration_score assess frame_confidence is_good is_critical wanted settle
    settled_reason judge evaluate next_count saturating_count streak verdict apply note follow
unseen-verdict = refl

unseen_state : unseen.state ≡ degraded
unfolding reset finite_pose norm3 yaw_from_quaternion wrapped_angle_difference yaw_between radians
    observe_odometry observe_pose observe_correction fault_motion clear_motion note_fault
    note_velocity note_motion motion_fault keep_odometry fault_correction note_correction
    keep_correction clamp01 larger freshness_score transition_quality ages report idle_frame stamped
    publishable count_frame count_reason diagnose first_frame weigh score_update score_motion
    score_registration registration_score assess frame_confidence is_good is_critical wanted settle
    settled_reason judge evaluate next_count saturating_count streak verdict apply note follow
unseen_state = refl

unseen_next : (evaluate whole quick_config "map" 7 running unseen).state ≡ lost
unfolding reset finite_pose norm3 yaw_from_quaternion wrapped_angle_difference yaw_between radians
    observe_odometry observe_pose observe_correction fault_motion clear_motion note_fault
    note_velocity note_motion motion_fault keep_odometry fault_correction note_correction
    keep_correction clamp01 larger freshness_score transition_quality ages report idle_frame stamped
    publishable count_frame count_reason diagnose first_frame weigh score_update score_motion
    score_registration registration_score assess frame_confidence is_good is_critical wanted settle
    settled_reason judge evaluate next_count saturating_count streak verdict apply note follow
unseen_next = refl

evaluate-IsCounted_example :
    (evaluate whole quick_config "map" 7 running seen).consecutive_good_frames ≡ 2
unfolding reset finite_pose norm3 yaw_from_quaternion wrapped_angle_difference yaw_between radians
    observe_odometry observe_pose observe_correction fault_motion clear_motion note_fault
    note_velocity note_motion motion_fault keep_odometry fault_correction note_correction
    keep_correction clamp01 larger freshness_score transition_quality ages report idle_frame stamped
    publishable count_frame count_reason diagnose first_frame weigh score_update score_motion
    score_registration registration_score assess frame_confidence is_good is_critical wanted settle
    settled_reason judge evaluate next_count saturating_count streak verdict apply note follow
evaluate-IsCounted_example =
    (evaluate-IsCounted whole quick_config samples new_monitor "map" 7 running).0

evaluate-lost_example : 2 ≤ streak counts_critical (critical ∷ critical ∷ [])
unfolding reset finite_pose norm3 yaw_from_quaternion wrapped_angle_difference yaw_between radians
    observe_odometry observe_pose observe_correction fault_motion clear_motion note_fault
    note_velocity note_motion motion_fault keep_odometry fault_correction note_correction
    keep_correction clamp01 larger freshness_score transition_quality ages report idle_frame stamped
    publishable count_frame count_reason diagnose first_frame weigh score_update score_motion
    score_registration registration_score assess frame_confidence is_good is_critical wanted settle
    settled_reason judge evaluate next_count saturating_count streak verdict apply note follow
evaluate-lost_example =
    evaluate-lost whole quick_config nothing_yet new_monitor "map" 7 running
      (λ e. cc (sym unseen_state ∙ e)) unseen_next

evaluate-localized_example : 2 ≤ streak counts_good (good ∷ good ∷ [])
unfolding reset finite_pose norm3 yaw_from_quaternion wrapped_angle_difference yaw_between radians
    observe_odometry observe_pose observe_correction fault_motion clear_motion note_fault
    note_velocity note_motion motion_fault keep_odometry fault_correction note_correction
    keep_correction clamp01 larger freshness_score transition_quality ages report idle_frame stamped
    publishable count_frame count_reason diagnose first_frame weigh score_update score_motion
    score_registration registration_score assess frame_confidence is_good is_critical wanted settle
    settled_reason judge evaluate next_count saturating_count streak verdict apply note follow
evaluate-localized_example =
    evaluate-localized whole quick_config samples new_monitor "map" 7 running
      (λ e. cc (sym seen_state ∙ e)) seen_next

evaluate-degraded_example : (unknown ≢ lost) × (1 ≤ streak counts_bad (critical ∷ []))
unfolding reset finite_pose norm3 yaw_from_quaternion wrapped_angle_difference yaw_between radians
    observe_odometry observe_pose observe_correction fault_motion clear_motion note_fault
    note_velocity note_motion motion_fault keep_odometry fault_correction note_correction
    keep_correction clamp01 larger freshness_score transition_quality ages report idle_frame stamped
    publishable count_frame count_reason diagnose first_frame weigh score_update score_motion
    score_registration registration_score assess frame_confidence is_good is_critical wanted settle
    settled_reason judge evaluate next_count saturating_count streak verdict apply note follow
evaluate-degraded_example =
    evaluate-degraded whole quick_config [] new_monitor "map" 6 running (λ e. cc) unseen_state

evaluate-recovers_example : (evaluate whole quick_config "map" 7 running seen).state ≡ localized
unfolding reset finite_pose norm3 yaw_from_quaternion wrapped_angle_difference yaw_between radians
    observe_odometry observe_pose observe_correction fault_motion clear_motion note_fault
    note_velocity note_motion motion_fault keep_odometry fault_correction note_correction
    keep_correction clamp01 larger freshness_score transition_quality ages report idle_frame stamped
    publishable count_frame count_reason diagnose first_frame weigh score_update score_motion
    score_registration registration_score assess frame_confidence is_good is_critical wanted settle
    settled_reason judge evaluate next_count saturating_count streak verdict apply note follow
evaluate-recovers_example =
    evaluate-recovers whole quick_config samples new_monitor "map" 7 running seen-verdict
      (omega arith) (omega arith) (omega arith) (omega arith)

evaluate-loses_example : (evaluate whole quick_config "map" 7 running unseen).state ≡ lost
unfolding reset finite_pose norm3 yaw_from_quaternion wrapped_angle_difference yaw_between radians
    observe_odometry observe_pose observe_correction fault_motion clear_motion note_fault
    note_velocity note_motion motion_fault keep_odometry fault_correction note_correction
    keep_correction clamp01 larger freshness_score transition_quality ages report idle_frame stamped
    publishable count_frame count_reason diagnose first_frame weigh score_update score_motion
    score_registration registration_score assess frame_confidence is_good is_critical wanted settle
    settled_reason judge evaluate next_count saturating_count streak verdict apply note follow
evaluate-loses_example =
    evaluate-loses whole quick_config nothing_yet new_monitor "map" 7 running unseen-verdict
      (omega arith) (omega arith)

seen_valid : (evaluate whole quick_config "map" 7 running seen).status.pose_valid ≡ true
unfolding reset finite_pose norm3 yaw_from_quaternion wrapped_angle_difference yaw_between radians
    observe_odometry observe_pose observe_correction fault_motion clear_motion note_fault
    note_velocity note_motion motion_fault keep_odometry fault_correction note_correction
    keep_correction clamp01 larger freshness_score transition_quality ages report idle_frame stamped
    publishable count_frame count_reason diagnose first_frame weigh score_update score_motion
    score_registration registration_score assess frame_confidence is_good is_critical wanted settle
    settled_reason judge evaluate next_count saturating_count streak verdict apply note follow
seen_valid = refl

evaluate-pose_valid_example :
    (true ≡ true)
    × (true ≡ true)
    × Passed whole quick_config running (ages whole 7 seen) seen
    × ((evaluate whole quick_config "map" 7 running seen).state ≢ unknown)
    × ((evaluate whole quick_config "map" 7 running seen).state ≢ lost)
evaluate-pose_valid_example = evaluate-pose_valid whole quick_config "map" 7 running seen seen_valid

evaluate-IsConfident_example :
    IsConfident whole quick_config (evaluate whole quick_config "map" 7 running seen)
evaluate-IsConfident_example =
    evaluate-IsConfident whole quick_config "map" 7 running seen refl refl refl

observe_odometry-order_example :
    ((observe_odometry whole quick_config sample 9 seen).last_odometry_stamp
        ≡ seen.last_odometry_stamp)
      × ((observe_odometry whole quick_config sample 9 seen).last_odometry_pose
          ≡ seen.last_odometry_pose)
      × ((observe_odometry whole quick_config sample 9 seen).have_odometry ≡ seen.have_odometry)
      × ((observe_odometry whole quick_config sample 9 seen).motion_sample_fault ≡ true)
    ⊎ (finite_pose whole upright ≡ true)
      × ((observe_odometry whole quick_config sample 9 seen).last_odometry_pose ≡ upright)
      × ((observe_odometry whole quick_config sample 9 seen).have_odometry ≡ true)
      × (seen.have_odometry ≡ true
          → seen.last_odometry_stamp
            < (observe_odometry whole quick_config sample 9 seen).last_odometry_stamp)
observe_odometry-order_example = observe_odometry-order whole quick_config sample 9 seen
