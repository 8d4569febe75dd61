-- ===== src/Relocalization/Session.antt =====
-- RelocalizationAdapter: the session, and the handlers of messages. A lock_guard block is one section; a call
-- of ROS outside the locks is one of its own.
use slam_system_manager.Outcome.{Attempt}
use slam_system_manager.Base.{
  ℕ, zero, suc, ◌+◌, ◌/◌, ltb, leb, Bool, true, false, not, none, some, if◌then◌else◌,
}
use slam_system_manager.Steps.{Steps, done, act, ◌>>=◌, ◌>>◌}
use slam_system_manager.Config.{SystemConfig}
use slam_system_manager.Relocalization.{StampedPose, OdometryMessage, Adapter, Ros}
use slam_system_manager.Relocalization.Validate.{validate_pose}

module _ (ros : Ros) (config : SystemConfig ros.Double) where
  open ros use {
    Double, World, FilePath, zero_odometry, compose, ok, ros_now, steady_now, sleep_for,
    nanoseconds, subscription_count, publish_initial_pose_message, publish_localization_odometry,
    publish_localization_pose, initial_pose_callback, localization_confirmed_callback, doubles,
  }

  abbrev pub Here : Type 0
  Here = Adapter FilePath Double World

  -- A call that reaches the world and gives a result, or gives none.
  abbrev pub ask : {R : Type 0} → (World → World × R) → Steps Here R
  ask f = act λ s. (record s { world = (f s.world).0 }, (f s.world).1)

  abbrev pub tell : (World → World) → Steps Here (Unit {0})
  tell f = act λ s. (record s { world = f s.world }, tt)

  unfoldable pub reset_session : Steps Here (Unit {0})
  reset_session = act λ s. (
    record s {
      localized = false;
      correction_available = false;
      relocalization_started_at = (ros_now s.world).1;
      correction = zero_odometry;
      latest_trusted_pose = none;
      world = (ros_now s.world).0;
    },
    tt,
  )

  unfoldable pub set_localized : Bool → Steps Here (Unit {0})
  set_localized localized = act λ s. (
    record s {
      localized = localized;
      latest_trusted_pose = if not localized then none else s.latest_trusted_pose;
    },
    tt,
  )

  unfoldable pub localization_confirmed : Steps Here Bool
  localization_confirmed = act λ s. (s, s.correction_available)

  unfoldable pub initial_pose_consumer_ready : Steps Here Bool
  initial_pose_consumer_ready =
      act λ s.
        (s, leb config.relocalization.min_initial_pose_subscribers (subscription_count s.world))

  -- The 100 ms of the loop below.
  abbrev pub consumer_poll_ns : ℕ
  consumer_poll_ns = 100000000

  -- The loop of waitForInitialPoseConsumer, on fuel.
  unfoldable pub consumer_rounds : ℕ → ℕ → Steps Here Bool
  consumer_rounds zero deadline = initial_pose_consumer_ready
  consumer_rounds (suc fuel) deadline = do
    alive ← act λ s. (s, ok s.world)
    if not alive then initial_pose_consumer_ready else (do
      t ← ask steady_now
      if not (ltb t deadline) then initial_pose_consumer_ready else (do
        ready ← initial_pose_consumer_ready
        if ready
            then done true
            else (do ask (sleep_for consumer_poll_ns); consumer_rounds fuel deadline)))

  unfoldable pub wait_for_initial_pose_consumer : Double → Steps Here Bool
  wait_for_initial_pose_consumer timeout_sec = do
    started ← ask steady_now
    consumer_rounds (nanoseconds timeout_sec / consumer_poll_ns + 2)
        (started + nanoseconds timeout_sec)

  -- publishInitialPose behind validatePose.
  unfoldable pub publish_validated : StampedPose Double × Attempt → Steps Here Attempt
  publish_validated (pose, (false, why)) = done (false, why)
  publish_validated (pose, (true, why)) = do
    ready ← initial_pose_consumer_ready
    if not ready then done (false, "Localization initial pose subscriber is not ready") else (do
      t ← ask ros_now
      tell (publish_initial_pose_message (record pose { stamp = t }))
      done (true, ""))

  unfoldable pub publish_initial_pose : StampedPose Double → Steps Here Attempt
  publish_initial_pose pose = publish_validated (validate_pose doubles pose config.frames.map)

  unfoldable pub initial_pose_validated : StampedPose Double × Attempt → Steps Here (Unit {0})
  initial_pose_validated (pose, (false, why)) = done tt
  initial_pose_validated (pose, (true, why)) = tell (initial_pose_callback pose)

  unfoldable pub handle_initial_pose : StampedPose Double → Steps Here (Unit {0})
  handle_initial_pose message =
      initial_pose_validated (validate_pose doubles message config.frames.map)

  -- The pose of the base in the map frame, as handleRawOdometry publishes it.
  unfoldable pub map_odometry :
      OdometryMessage Double → OdometryMessage Double → OdometryMessage Double
  map_odometry correction message = record message {
    frame_id = config.frames.map;
    child_frame_id = config.frames.base;
    pose = compose correction.pose message.pose;
  }

  abbrev pub pose_of : OdometryMessage Double → StampedPose Double
  pose_of m = record {
    stamp = m.stamp;
    frame_id = m.frame_id;
    pose = m.pose;
    covariance = m.covariance;
  }

  -- The section at the end of handleRawOdometry.
  unfoldable pub trust : StampedPose Double → Here → Here
  trust pose s = if s.localized then record s { latest_trusted_pose = some pose } else s

  unfoldable pub publish_corrected : Bool → OdometryMessage Double → Steps Here (Unit {0})
  publish_corrected localized output = do
    tell (publish_localization_odometry output)
    tell (publish_localization_pose (pose_of output))
    if localized then act (λ s. (trust (pose_of output) s, tt)) else done tt

  unfoldable pub handle_raw_odometry : OdometryMessage Double → Steps Here (Unit {0})
  handle_raw_odometry message = do
    (available, correction, localized) ←
        act λ s. (s, (s.correction_available, s.correction, s.localized))
    if not available then done tt else publish_corrected localized (map_odometry correction message)

  -- The section of handleCorrection: whether this is the first correction of the session.
  unfoldable pub take_correction : OdometryMessage Double → StampedPose Double → Here → Here × Bool
  take_correction message pose s =
      if leb message.stamp s.relocalization_started_at then (s, false) else (
        record s {
          correction = record message { pose = pose.pose; covariance = pose.covariance };
          correction_available = true;
        },
        not s.correction_available,
      )

  unfoldable pub correction_validated :
      OdometryMessage Double → StampedPose Double × Attempt → Steps Here (Unit {0})
  correction_validated message (pose, (false, why)) = done tt
  correction_validated message (pose, (true, why)) = do
    first_confirmation ← act (take_correction message pose)
    if first_confirmation then tell localization_confirmed_callback else done tt

  unfoldable pub handle_correction : OdometryMessage Double → Steps Here (Unit {0})
  handle_correction message =
      correction_validated message (validate_pose doubles (pose_of message) config.frames.map)
