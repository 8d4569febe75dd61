-- ===== src/Relocalization/Calls.antt =====
-- RelocalizationAdapter: everything that its threads run.
use slam_system_manager.Base.{Bool}
use slam_system_manager.Steps.{Steps, done, step, ◌>>=◌}
use slam_system_manager.Config.{SystemConfig}
use slam_system_manager.Relocalization.{StampedPose, OdometryMessage, Ros}
use slam_system_manager.Relocalization.Session.{
  Here, reset_session, set_localized, localization_confirmed, initial_pose_consumer_ready,
  wait_for_initial_pose_consumer, publish_initial_pose, handle_initial_pose, handle_raw_odometry,
  handle_correction,
}
use slam_system_manager.Relocalization.Saving.{request_last_pose_save, worker_round, stop_saving}
use slam_system_manager.Relocalization.LastPose.{load_last_pose}

module _ (ros : Ros) (config : SystemConfig ros.Double) where
  open ros use {Double, World, FilePath}

  -- A call of the adapter, a message, a round of the worker, or another component's change of the world.
  pub data Call : Type 0 where
    reset confirmed consumer_ready save_round stop : Call
    localized : Bool → Call
    wait_for_consumer : Double → Call
    publish on_initial_pose : StampedPose Double → Call
    on_raw_odometry on_correction : OdometryMessage Double → Call
    save load : FilePath → Call
    outside : (World → World) → Call

  abbrev silent : {R : Type 0} → Steps (Here ros config) R → Steps (Here ros config) (Unit {0})
  silent p = p >>= λ _. done tt

  -- What a call runs, less its result.
  unfoldable pub body : Call → Steps (Here ros config) (Unit {0})
  body reset = reset_session ros config
  body confirmed = silent (localization_confirmed ros config)
  body consumer_ready = silent (initial_pose_consumer_ready ros config)
  body save_round = worker_round ros config
  body stop = stop_saving ros config
  body (localized b) = set_localized ros config b
  body (wait_for_consumer t) = silent (wait_for_initial_pose_consumer ros config t)
  body (publish p) = silent (publish_initial_pose ros config p)
  body (on_initial_pose m) = handle_initial_pose ros config m
  body (on_raw_odometry m) = handle_raw_odometry ros config m
  body (on_correction m) = handle_correction ros config m
  body (save d) = silent (request_last_pose_save ros config d)
  body (load d) =
      step (λ s. record s { world = (load_last_pose ros config d s.world).0 }) (λ s. done tt)
  body (outside f) = step (λ s. record s { world = f s.world }) (λ s. done tt)

  -- A section that a thread runs somewhere in its steps, after whatever its former sections have found.
  pub data Runs
      : Steps (Here ros config) (Unit {0}) → (Here ros config → Here ros config) → Type 0 where
    first :
        (u : Here ros config → Here ros config)
        (k : Here ros config → Steps (Here ros config) (Unit {0}))
        → Runs (step u k) u
    later :
        (u v : Here ros config → Here ros config)
        (k : Here ros config → Steps (Here ros config) (Unit {0})) (s : Here ros config)
        → Runs (k s) v
        → Runs (step u k) v

  -- Any interleaving of calls: one section of some call after the other.
  pub data Interleaved : Here ros config → Here ros config → Type 0 where
    nothing : (s : Here ros config) → Interleaved s s
    next :
        (s t : Here ros config) (c : Call) (v : Here ros config → Here ros config)
        → Interleaved s t
        → Runs (body c) v
        → Interleaved s (v t)
