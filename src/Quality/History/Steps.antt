-- ===== src/Quality/History/Steps.antt =====
-- How each call of LocalizationQualityMonitor moves its counters and its state.
use slam_system_manager.Base.{ℕ, ◌≡◌, refl, if_both, Option, none, some, String, not, ◌&&◌, arith}
use slam_system_manager.Doubles.{Doubles}
use slam_system_manager.Quality.{QualityState, QualityConfig, Odometry, Pose, Registration, Monitor}
use slam_system_manager.Quality.Observe.{
  fault_motion, clear_motion, note_fault, note_velocity, note_motion, keep_odometry,
  observe_odometry, observe_pose, fault_correction, note_correction, keep_correction,
  observe_correction, observe_registration,
}

-- What the frames have left: the state and the three counters.
pub record Memory : Type 0 where
  pub state : QualityState
  pub goods : ℕ
  pub bads : ℕ
  pub criticals : ℕ

abbrev pub memory : {D F : Type 0} → Monitor D F → Memory
memory m = record {
  state = m.state;
  goods = m.consecutive_good_frames;
  bads = m.consecutive_bad_frames;
  criticals = m.consecutive_critical_frames;
}

module _ (f : Doubles) (config : QualityConfig f.Double) where
  open f use {Double, Float, lt, zero_d, is_finite}

  note_fault-memory :
      (o : Option String) (m : Monitor Double Float) → memory (note_fault f config o m) ≡ memory m
  unfolding note_fault fault_motion
  note_fault-memory (some why) m = refl
  note_fault-memory none m = refl

  note_velocity-memory :
      (delta : Double) (m : Monitor Double Float)
      → memory (note_velocity f config delta m) ≡ memory m
  unfolding note_velocity
  note_velocity-memory delta m =
      if_both (λ (m' : Monitor Double Float). memory m' ≡ memory m)
        (not (lt zero_d delta && is_finite delta)) (λ _. refl) (λ _. note_fault-memory _ _)

  note_motion-memory :
      (message : Odometry Double) (m : Monitor Double Float)
      → memory (note_motion f config message m) ≡ memory m
  unfolding note_motion
  note_motion-memory message m = note_velocity-memory _ _

  pub observe_odometry-memory :
      (message : Odometry Double) (receipt : ℕ) (m : Monitor Double Float)
      → memory (observe_odometry f config message receipt m) ≡ memory m
  unfolding observe_odometry fault_motion keep_odometry clear_motion
  observe_odometry-memory message receipt m =
      ground (arith, note_motion-memory message (clear_motion f config m))

  pub observe_correction-memory :
      (message : Odometry Double) (receipt : ℕ) (m : Monitor Double Float)
      → memory (observe_correction f config message receipt m) ≡ memory m
  unfolding observe_correction fault_correction keep_correction note_correction
  observe_correction-memory message receipt m = ground arith

  pub observe_pose-memory :
      (pose : Pose Double) (receipt : ℕ) (m : Monitor Double Float)
      → memory (observe_pose f config pose receipt m) ≡ memory m
  unfolding observe_pose
  observe_pose-memory pose receipt m = ground arith

  pub observe_registration-memory :
      (message : Registration Float) (receipt : ℕ) (m : Monitor Double Float)
      → memory (observe_registration f config message receipt m) ≡ memory m
  unfolding observe_registration
  observe_registration-memory message receipt m = refl
