-- ===== src/Quality/History.antt =====
-- What LocalizationQualityMonitor remembers of its evaluations: a history of verdicts, and the
-- counters and the state as functions of it.
pub mod Steps
pub mod Machine
pub mod Streaks
pub mod Runs
use slam_system_manager.Base.{
  ℕ, suc, ◌%◌, ◌^◌, ◌≡◌, Bool, true, false, not, List, [], ◌∷◌, String, if◌then◌else◌,
}
use slam_system_manager.Doubles.{Doubles}
use slam_system_manager.Manager.Pose.{QualityContext}
use slam_system_manager.Quality.{QualityConfig, Odometry, Pose, Registration, Monitor}
use slam_system_manager.Quality.Observe.{
  reset, observe_odometry, observe_pose, observe_correction, observe_registration,
}
use slam_system_manager.Quality.Evaluate.{stamped, evaluate}
use slam_system_manager.Quality.Score.{ages, assess, is_good, is_critical}

-- How evaluate judges: not at all, good, neither good nor critically bad, critically bad.
pub data Verdict : Type 0 where
  idle good poor critical : Verdict

abbrev pub counts_good : Verdict → Bool
counts_good good = true
counts_good _ = false

abbrev pub counts_bad : Verdict → Bool
counts_bad poor = true
counts_bad critical = true
counts_bad _ = false

abbrev pub counts_critical : Verdict → Bool
counts_critical critical = true
counts_critical _ = false

abbrev pub verdict_of : Bool → Bool → Verdict
verdict_of true _ = good
verdict_of false true = critical
verdict_of false false = poor

-- How many of the latest verdicts satisfy a test, without a gap. The newest verdict is the first.
unfoldable pub streak : (Verdict → Bool) → List Verdict → ℕ
streak p [] = 0
streak p (v ∷ h) = let rest = streak p h in if p v then suc rest else 0

-- The calls of the monitor that change its fields.
pub data Event (D F : Type 0) : Type 0 where
  restart : Event D F
  odometry_message correction_message : Odometry D → ℕ → Event D F
  pose_message : Pose D → ℕ → Event D F
  registration_message : Registration F → ℕ → Event D F
  evaluation : String → ℕ → QualityContext → Event D F

module _ (f : Doubles) (config : QualityConfig f.Double) where
  open f use {Double, Float}

  unfoldable pub verdict : String → ℕ → QualityContext → Monitor Double Float → Verdict
  verdict map_frame now context m =
      let m' = stamped f map_frame now m in
      let frame = assess f config context (ages f now m') m' in
      if not context.localization_active
      then idle
      else if not context.localization_initialized
      then idle
      else verdict_of (is_good f config frame) (is_critical f config frame)

  unfoldable pub apply : Event Double Float → Monitor Double Float → Monitor Double Float
  apply restart m = reset f m
  apply (odometry_message message receipt) m = observe_odometry f config message receipt m
  apply (correction_message message receipt) m = observe_correction f config message receipt m
  apply (pose_message pose receipt) m = observe_pose f config pose receipt m
  apply (registration_message message receipt) m = observe_registration f config message receipt m
  apply (evaluation map_frame now context) m = evaluate f config map_frame now context m

  -- The history behind an event.
  unfoldable pub note : Event Double Float → Monitor Double Float → List Verdict → List Verdict
  note restart m h = []
  note (evaluation map_frame now context) m h = verdict map_frame now context m ∷ h
  note _ m h = h

  unfoldable pub follow :
      List (Event Double Float)
      → Monitor Double Float × List Verdict
      → Monitor Double Float × List Verdict
  follow [] s = s
  follow (e ∷ es) (m, h) = follow es (apply e m, note e m h)
