-- ===== src/Quality/Safety.antt =====
-- What LocalizationQualityMonitor promises of a single call: a pose that is declared valid, the
-- confidence, the order of the odometry.
use slam_system_manager.Base.{
  ℕ, ◌<◌, ◌≡◌, ◌≢◌, ◌⊎◌, refl, Bool, true, false, not, if_both, none, String, arith, if◌then◌else◌,
}
use slam_system_manager.Doubles.{Doubles}
use slam_system_manager.Manager.Pose.{QualityContext}
use slam_system_manager.Quality.{QualityState, unknown, lost, QualityConfig, Odometry, Monitor}
use slam_system_manager.Quality.Observe.{
  one, finite_pose, fault_motion, keep_odometry, observe_odometry,
}
use slam_system_manager.Quality.Evaluate.{stamped, report, idle_frame, publishable, judge, evaluate}
use slam_system_manager.Quality.Score.{
  Ages, Frame, clamp01, ages, diagnose, first_frame, weigh, score_update, score_motion,
  score_registration, assess, frame_confidence,
}

module _ (f : Doubles) (config : QualityConfig f.Double) where
  open f use {Double, Float, lt, zero_d, narrow, is_finite, le}

  -- clamp01 keeps every value that compares at all between 0 and 1.
  clamp01-bounds :
      (x : Double)
      → lt zero_d zero_d ≡ false
      → lt (one f) (one f) ≡ false
      → lt (one f) zero_d ≡ false
      → (lt (clamp01 f x) zero_d ≡ false) × (lt (one f) (clamp01 f x) ≡ false)
  unfolding clamp01
  clamp01-bounds x a b c = ground arith

  -- What a frame without a critical condition has passed.
  pub record Passed (context : QualityContext) (a : Ages Double) (m : Monitor Double Float)
      : Type 0 where
    pub alive : context.localization_process_alive ≡ true
    pub sensors : context.sensors_healthy ≡ true
    pub odometry : m.have_odometry ≡ true
    pub pose : m.have_pose ≡ true
    pub finite : is_finite a.update ≡ true
    pub in_time : lt config.pose_timeout_sec a.update ≡ false
    pub correction : m.have_correction ≡ true
    pub corrected : lt config.correction_timeout_sec a.correction ≡ false
    pub motion_ok : m.motion_sample_fault ≡ false
    pub pose_ok : m.pose_sample_fault ≡ false
    pub correction_ok : m.correction_sample_fault ≡ false

  diagnose-Passed :
      (context : QualityContext) (a : Ages Double) (m : Monitor Double Float)
      → diagnose f config context a m ≡ none
      → Passed context a m
  unfolding diagnose
  diagnose-Passed context a m h = ground arith

  assess-critical :
      (context : QualityContext) (a : Ages Double) (m : Monitor Double Float)
      → (assess f config context a m).critical ≡ false
      → diagnose f config context a m ≡ none
  unfolding assess first_frame weigh score_update score_motion score_registration
  assess-critical context a m h = ground arith

  judge-pose_valid :
      (frame : Frame Double) (m : Monitor Double Float)
      → (judge f config frame m).status.pose_valid ≡ true
      → (frame.critical ≡ false)
        × ((judge f config frame m).state ≢ unknown)
        × ((judge f config frame m).state ≢ lost)
  unfolding judge
  judge-pose_valid frame m h = ground arith

  idle_frame-pose_valid :
      (why : String) (m : Monitor Double Float) → (idle_frame f why m).status.pose_valid ≡ false
  unfolding idle_frame
  idle_frame-pose_valid why m = refl

  branch-pose_valid :
      (a b : Bool) (x y z : Monitor Double Float)
      → x.status.pose_valid ≡ false
      → y.status.pose_valid ≡ false
      → (publishable f (if not a then x else if not b then y else z)).status.pose_valid ≡ true
      → (a ≡ true)
        × (b ≡ true)
        × (z.status.pose_valid ≡ true)
        × ((s : QualityState)
            → z.state ≢ s
            → (publishable f (if not a then x else if not b then y else z)).state ≢ s)
  unfolding publishable
  branch-pose_valid true true x y z p q h = (refl, refl, h, λ s n. n)
  branch-pose_valid true false x y z p q h = cc
  branch-pose_valid false b x y z p q h = cc

  -- A pose is declared valid only if localization is active and initialized, its process and its sensors
  -- are up, odometry, pose and correction have come and are not too old, no sample of them is at fault,
  -- and the quality is LOCALIZED or DEGRADED.
  pub evaluate-pose_valid :
      (map_frame : String) (now : ℕ) (context : QualityContext) (m : Monitor Double Float)
      → (evaluate f config map_frame now context m).status.pose_valid ≡ true
      → (context.localization_active ≡ true)
        × (context.localization_initialized ≡ true)
        × Passed context (ages f now m) m
        × ((evaluate f config map_frame now context m).state ≢ unknown)
        × ((evaluate f config map_frame now context m).state ≢ lost)
  unfolding evaluate stamped report ages
  evaluate-pose_valid map_frame now context m h =
      let (a, b, v, s) =
        branch-pose_valid context.localization_active context.localization_initialized _ _ _
          (idle_frame-pose_valid _ _) (idle_frame-pose_valid _ _) h in
      let (quiet, u, l) = judge-pose_valid _ _ v in
      let p = diagnose-Passed _ _ _ (assess-critical _ _ _ quiet) in
      let passed : Passed context (ages f now m) m = record {
        alive = p.alive;
        sensors = p.sensors;
        odometry = p.odometry;
        pose = p.pose;
        finite = p.finite;
        in_time = p.in_time;
        correction = p.correction;
        corrected = p.corrected;
        motion_ok = p.motion_ok;
        pose_ok = p.pose_ok;
        correction_ok = p.correction_ok;
      } in
      (a, b, passed, s unknown u, s lost l)

  frame_confidence-bounds :
      (frame : Frame Double)
      → lt zero_d zero_d ≡ false
      → lt (one f) (one f) ≡ false
      → lt (one f) zero_d ≡ false
      → (lt (frame_confidence f config frame) zero_d ≡ false)
        × (lt (one f) (frame_confidence f config frame) ≡ false)
  unfolding frame_confidence
  frame_confidence-bounds frame a b c = clamp01-bounds _ a b c

  -- The confidence in the status is rounded from a number that is neither below 0 nor above 1.
  abbrev pub IsConfident : Monitor Double Float → Type 0
  IsConfident m =
      (c : Double) × (m.status.confidence ≡ narrow c)
      × (lt c zero_d ≡ false)
      × (lt (one f) c ≡ false)

  judge-IsConfident :
      (frame : Frame Double) (m : Monitor Double Float)
      → lt zero_d zero_d ≡ false
      → lt (one f) (one f) ≡ false
      → lt (one f) zero_d ≡ false
      → IsConfident (judge f config frame m)
  unfolding judge
  judge-IsConfident frame m p q r =
      let (low, high) = frame_confidence-bounds frame p q r in
      (frame_confidence f config frame, refl, low, high)

  -- Where 0 < 0, 1 < 1 and 1 < 0 are false, evaluate leaves a confidence in the status that is rounded
  -- from a number neither below 0 nor above 1.
  pub evaluate-IsConfident :
      (map_frame : String) (now : ℕ) (context : QualityContext) (m : Monitor Double Float)
      → lt zero_d zero_d ≡ false
      → lt (one f) (one f) ≡ false
      → lt (one f) zero_d ≡ false
      → IsConfident (evaluate f config map_frame now context m)
  unfolding evaluate publishable idle_frame
  evaluate-IsConfident map_frame now context m p q r =
      if_both IsConfident (not context.localization_active) (λ _. (zero_d, refl, p, r))
        λ _.
          if_both IsConfident (not context.localization_initialized) (λ _. (zero_d, refl, p, r))
            λ _. judge-IsConfident _ _ p q r

  -- observeOdometry either refuses a message, keeps the last sample and marks a motion fault, or takes a
  -- message with a finite pose and, behind another sample, a later stamp.
  pub observe_odometry-order :
      (message : Odometry Double) (receipt : ℕ) (m : Monitor Double Float)
      → (((observe_odometry f config message receipt m).last_odometry_stamp ≡ m.last_odometry_stamp)
          × ((observe_odometry f config message receipt m).last_odometry_pose
              ≡ m.last_odometry_pose)
          × ((observe_odometry f config message receipt m).have_odometry ≡ m.have_odometry)
          × ((observe_odometry f config message receipt m).motion_sample_fault ≡ true))
        ⊎ ((finite_pose f message.pose ≡ true)
            × ((observe_odometry f config message receipt m).last_odometry_pose ≡ message.pose)
            × ((observe_odometry f config message receipt m).have_odometry ≡ true)
            × (m.have_odometry ≡ true
                → m.last_odometry_stamp
                  < (observe_odometry f config message receipt m).last_odometry_stamp))
  unfolding observe_odometry fault_motion keep_odometry
  observe_odometry-order message receipt m = ground arith
