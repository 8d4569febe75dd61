-- ===== src/Relocalization/Trust.antt =====
-- What the session's fields say of each other, whatever its threads do.
use slam_system_manager.Base.{
  ℕ, zero, suc, leb, ltb, ◌<◌, ◌≡◌, refl, Bool, true, false, not, Option, none, some, if◌then◌else◌,
  if_both, arith,
}
use slam_system_manager.Outcome.{Attempt, Outcome, value, throws}
use slam_system_manager.Steps.{Steps, done, step, act, ◌>>=◌, ◌>>◌}
use slam_system_manager.Config.{SystemConfig}
use slam_system_manager.Relocalization.{StampedPose, OdometryMessage, SaveRequest, Ros}
use slam_system_manager.Relocalization.Session.{
  consumer_poll_ns, Here, ask, reset_session, set_localized, localization_confirmed,
  initial_pose_consumer_ready, consumer_rounds, wait_for_initial_pose_consumer, publish_validated,
  publish_initial_pose, initial_pose_validated, handle_initial_pose, trust, publish_corrected,
  handle_raw_odometry, take_correction, correction_validated, handle_correction, pose_of,
  map_odometry,
}
use slam_system_manager.Relocalization.Saving.{
  trusted, queued, request_last_pose_save, take_request, worker_round, stop_saving,
}
use slam_system_manager.Relocalization.LastPose.{under_root, write_last_pose}
use slam_system_manager.Relocalization.Calls.{
  Call, reset, confirmed, consumer_ready, save_round, stop, localized, wait_for_consumer, publish,
  on_initial_pose, on_raw_odometry, on_correction, save, load, outside, body, Runs, first, later,
  Interleaved, nothing, next,
}

module _ (ros : Ros) (config : SystemConfig ros.Double) where
  open ros use {Double, World, FilePath, doubles}

  -- A trusted pose is there only while the session is localized, and a correction only if it is newer than the session.
  pub record IsSound (s : Here ros config) : Type 0 where
    pub trusts : (p : StampedPose Double) → s.latest_trusted_pose ≡ some p → s.localized ≡ true
    pub corrects : s.correction_available ≡ true → s.relocalization_started_at < s.correction.stamp

  abbrev Keeps : {R : Type 0} → Steps (Here ros config) R → Type 0
  Keeps (done r) = Unit {0}
  Keeps (step u k) =
      ((s : Here ros config) → IsSound s → IsSound (u s)) × ((s : Here ros config) → Keeps (k s))

  Keeps-bind :
      {R T : Type 0} (p : Steps (Here ros config) R) (k : R → Steps (Here ros config) T)
      → Keeps p
      → ((r : R) → Keeps (k r))
      → Keeps (p >>= k)
  Keeps-bind (done r) k h rest = rest r
  Keeps-bind (step u p) k (h, hs) rest = (h, λ s. Keeps-bind (p s) k (hs s) rest)

  -- A section that only reaches the world.
  kept : (s : Here ros config) (w : World) → IsSound s → IsSound (record s { world = w })
  kept s w h = record { trusts = h.trusts; corrects = h.corrects }

  reset_session-Keeps : Keeps (reset_session ros config)
  unfolding reset_session
  reset_session-Keeps = ((λ s h. record { trusts = λ p e. cc; corrects = λ e. cc }), λ s. tt)

  set_localized-Keeps : (b : Bool) → Keeps (set_localized ros config b)
  unfolding set_localized
  set_localized-Keeps true =
      ((λ s h. record { trusts = λ p e. refl; corrects = h.corrects }), λ s. tt)
  set_localized-Keeps false =
      ((λ s h. record { trusts = λ p e. cc; corrects = h.corrects }), λ s. tt)

  trust-IsSound :
      (p : StampedPose Double) (s : Here ros config) → IsSound s → IsSound (trust ros config p s)
  unfolding trust
  trust-IsSound p s h =
      if_both (λ (t : Here ros config). IsSound t) s.localized
        (λ e. record { trusts = λ q k. e; corrects = h.corrects }) (λ e. h)

  take_correction-IsSound :
      (m : OdometryMessage Double) (p : StampedPose Double) (s : Here ros config)
      → IsSound s
      → IsSound (take_correction ros config m p s).0
  unfolding take_correction
  take_correction-IsSound m p s h =
      if_both (λ (t : Here ros config × Bool). IsSound t.0)
        (leb m.stamp s.relocalization_started_at) (λ e. h)
        (λ e. record { trusts = h.trusts; corrects = λ k. ground arith })

  consumer_ready-Keeps : Keeps (initial_pose_consumer_ready ros config)
  unfolding initial_pose_consumer_ready
  consumer_ready-Keeps = ((λ s h. h), λ s. tt)

  consumer_rounds-Keeps : (fuel deadline : ℕ) → Keeps (consumer_rounds ros config fuel deadline)
  unfolding consumer_rounds
  consumer_rounds-Keeps zero deadline = consumer_ready-Keeps
  consumer_rounds-Keeps (suc fuel) deadline = (
    (λ s h. h),
    λ s.
        if_both Keeps (not (ros.ok s.world)) (λ _. consumer_ready-Keeps)
          (λ _.
            let round : (t : Here ros config)
                → Keeps (
                    if not (ltb (ros.steady_now t.world).1 deadline)
                    then initial_pose_consumer_ready ros config
                    else (do
                      ready ← initial_pose_consumer_ready ros config
                      if ready then done true else (do
                        ask ros config (ros.sleep_for (consumer_poll_ns ros config))
                        consumer_rounds ros config fuel deadline))) =
              λ t.
                if_both Keeps (not (ltb (ros.steady_now t.world).1 deadline))
                  (λ _. consumer_ready-Keeps)
                  (λ _.
                    Keeps-bind (initial_pose_consumer_ready ros config) _ consumer_ready-Keeps
                      (λ ready.
                        if_both Keeps ready (λ _. tt)
                          (λ _.
                            ((λ u h. kept u _ h), λ u. consumer_rounds-Keeps fuel deadline)))) in
            ((λ t h. kept t _ h), round)),
  )

  wait-Keeps : (t : Double) → Keeps (wait_for_initial_pose_consumer ros config t)
  unfolding wait_for_initial_pose_consumer
  wait-Keeps t = ((λ s h. kept s _ h), λ s. consumer_rounds-Keeps _ _)

  publish_validated-Keeps :
      (v : StampedPose Double × Attempt) → Keeps (publish_validated ros config v)
  unfolding publish_validated
  publish_validated-Keeps (pose, (false, why)) = tt
  publish_validated-Keeps (pose, (true, why)) =
      Keeps-bind (initial_pose_consumer_ready ros config) _ consumer_ready-Keeps (λ ready.
        if_both Keeps (not ready) (λ _. tt)
          (λ _. ((λ s h. kept s _ h), λ s. ((λ t h. kept t _ h), λ t. tt))))

  initial_pose_validated-Keeps :
      (v : StampedPose Double × Attempt) → Keeps (initial_pose_validated ros config v)
  unfolding initial_pose_validated
  initial_pose_validated-Keeps (pose, (false, why)) = tt
  initial_pose_validated-Keeps (pose, (true, why)) = ((λ s h. kept s _ h), λ s. tt)

  publish_corrected-Keeps :
      (b : Bool) (m : OdometryMessage Double) → Keeps (publish_corrected ros config b m)
  unfolding publish_corrected
  publish_corrected-Keeps b m = (
    (λ s h. kept s _ h),
    λ s. (
      (λ t h. kept t _ h),
      λ t.
          if_both Keeps b (λ _. ((λ u h. trust-IsSound (pose_of ros config m) u h), λ u. tt))
            (λ _. tt),
    ),
  )

  handle_raw_odometry-Keeps :
      (m : OdometryMessage Double) → Keeps (handle_raw_odometry ros config m)
  unfolding handle_raw_odometry
  handle_raw_odometry-Keeps m = (
    (λ s h. h),
    λ s.
        if_both Keeps (not s.correction_available) (λ _. tt)
          (λ _. publish_corrected-Keeps s.localized (map_odometry ros config s.correction m)),
  )

  correction_validated-Keeps :
      (m : OdometryMessage Double) (v : StampedPose Double × Attempt)
      → Keeps (correction_validated ros config m v)
  unfolding correction_validated
  correction_validated-Keeps m (pose, (false, why)) = tt
  correction_validated-Keeps m (pose, (true, why)) = (
    (λ s h. take_correction-IsSound m pose s h),
    λ s.
        if_both Keeps (take_correction ros config m pose s).1 (λ _. ((λ t h. kept t _ h), λ t. tt))
          (λ _. tt),
  )

  queued-Keeps : (d : FilePath) (o : Option (StampedPose Double)) → Keeps (queued ros config d o)
  queued-Keeps d none = tt
  queued-Keeps d (some pose) =
      ((λ s h. record { trusts = h.trusts; corrects = h.corrects }), λ s. tt)

  after_directory-Keeps :
      (d : FilePath) (o : Outcome Bool)
      → Keeps (elim o as (λ _. Steps (Here ros config) (Outcome Attempt)) [
        | throws why ↦ done (throws why)
        | value false ↦ done (value (false, "Last Pose map directory is invalid"))
        | value true ↦ do pose ← act λ s. (s, trusted ros config s); queued ros config d pose
      ])
  after_directory-Keeps d (throws why) = tt
  after_directory-Keeps d (value false) = tt
  after_directory-Keeps d (value true) = ((λ s h. h), λ s. queued-Keeps d _)

  request_last_pose_save-Keeps : (d : FilePath) → Keeps (request_last_pose_save ros config d)
  unfolding request_last_pose_save
  request_last_pose_save-Keeps d =
      if_both Keeps (not config.last_pose.enable) (λ _. tt)
        (λ _.
          if_both Keeps (not (under_root ros config (ros.lexically_normal d))) (λ _. tt)
            (λ _. ((λ s h. h), λ s. after_directory-Keeps (ros.lexically_normal d) _)))

  served-Keeps :
      (o : Option (SaveRequest FilePath Double))
      → Keeps (elim o as (λ _. Steps (Here ros config) (Unit {0})) [
        | none ↦ done tt
        | some r ↦ do ask ros config (write_last_pose ros config r); done tt
      ])
  served-Keeps none = tt
  served-Keeps (some r) = ((λ s h. kept s _ h), λ s. tt)

  worker_round-Keeps : Keeps (worker_round ros config)
  unfolding worker_round take_request
  worker_round-Keeps = (
    (λ s h. record { trusts = h.trusts; corrects = h.corrects }),
    λ s. served-Keeps s.pending_save,
  )

  -- Every section of every call keeps the invariant.
  body-Keeps : (c : Call ros config) → Keeps (body ros config c)
  unfolding body publish_initial_pose handle_initial_pose handle_correction localization_confirmed
      stop_saving
  body-Keeps reset = reset_session-Keeps
  body-Keeps confirmed = ((λ s h. h), λ s. tt)
  body-Keeps consumer_ready =
      Keeps-bind (initial_pose_consumer_ready ros config) _ consumer_ready-Keeps (λ r. tt)
  body-Keeps save_round = worker_round-Keeps
  body-Keeps stop = ((λ s h. record { trusts = h.trusts; corrects = h.corrects }), λ s. tt)
  body-Keeps (localized b) = set_localized-Keeps b
  body-Keeps (wait_for_consumer t) =
      Keeps-bind (wait_for_initial_pose_consumer ros config t) _ (wait-Keeps t) (λ r. tt)
  body-Keeps (publish p) =
      Keeps-bind (publish_initial_pose ros config p) _ (publish_validated-Keeps _) (λ r. tt)
  body-Keeps (on_initial_pose m) = initial_pose_validated-Keeps _
  body-Keeps (on_raw_odometry m) = handle_raw_odometry-Keeps m
  body-Keeps (on_correction m) = correction_validated-Keeps m _
  body-Keeps (save d) =
      Keeps-bind (request_last_pose_save ros config d) _ (request_last_pose_save-Keeps d) (λ r. tt)
  body-Keeps (load d) = ((λ s h. kept s _ h), λ s. tt)
  body-Keeps (outside f) = ((λ s h. kept s _ h), λ s. tt)

  Runs-IsSound :
      (p : Steps (Here ros config) (Unit {0})) (v : Here ros config → Here ros config)
      → Runs ros config p v
      → Keeps p
      → (s : Here ros config) → IsSound s
      → IsSound (v s)
  Runs-IsSound _ _ (first u k) (h, hs) s i = h s i
  Runs-IsSound _ _ (later u v k t r) (h, hs) s i = Runs-IsSound (k t) v r (hs t) s i

  -- However the sections of any calls interleave, and whatever happens outside, a trusted pose is there only while the session is
  -- localized, and a correction only if its stamp is newer than the session's start.
  pub Interleaved-IsSound :
      (s t : Here ros config) → IsSound s → Interleaved ros config s t → IsSound t
  Interleaved-IsSound s _ h (nothing _) = h
  Interleaved-IsSound s _ h (next _ t c v before r) =
      Runs-IsSound (body ros config c) v r (body-Keeps c) t (Interleaved-IsSound s t h before)
