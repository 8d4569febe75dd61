-- ===== src/Relocalization/Saving.antt =====
-- RelocalizationAdapter: requests to save the last pose, and the worker that serves them.
use slam_system_manager.Base.{true, false, not, Option, none, some, if◌then◌else◌}
use slam_system_manager.Steps.{Steps, done, act, ◌>>=◌, ◌>>◌}
use slam_system_manager.Config.{SystemConfig}
use slam_system_manager.Relocalization.{StampedPose, SaveRequest, Ros}
use slam_system_manager.Outcome.{Attempt, Outcome, value, throws}
use slam_system_manager.Relocalization.Session.{Here, ask}
use slam_system_manager.Relocalization.LastPose.{under_root, write_last_pose}

module _ (ros : Ros) (config : SystemConfig ros.Double) where
  open ros use {
    Double, World, FilePath, lexically_normal, parent_path, same_path, from_text, is_absolute,
    is_directory,
  }

  -- The trusted pose, if the session is localized and has one.
  unfoldable pub trusted : Here ros config → Option (StampedPose Double)
  trusted s = if not s.localized then none else s.latest_trusted_pose

  abbrev pub queued :
      FilePath → Option (StampedPose Double) → Steps (Here ros config) (Outcome Attempt)
  queued directory none = done (value (false, "No trusted localized pose is available"))
  queued directory (some pose) = do
    act λ s.
        (record s { pending_save = some (record { map_directory = directory; pose = pose }) }, tt)
    done (value (true, ""))

  unfoldable pub request_last_pose_save : FilePath → Steps (Here ros config) (Outcome Attempt)
  request_last_pose_save map_directory =
      if not config.last_pose.enable
      then done (value (false, "Last Pose saving is disabled"))
      else if not (under_root ros config (lexically_normal map_directory))
      then done (value (false, "Last Pose map directory is invalid"))
      else (do
        there ← act λ s. (s, is_directory (lexically_normal map_directory) s.world)
        elim there [
          | throws why ↦ done (throws why)
          | value false ↦ done (value (false, "Last Pose map directory is invalid"))
          | value true ↦ do
            pose ← act λ s. (s, trusted s)
            queued (lexically_normal map_directory) pose
        ])

  -- What the worker takes when it wakes: nothing if it is to end, or still waits.
  unfoldable pub take_request :
      Here ros config → Here ros config × Option (SaveRequest FilePath Double)
  take_request s = (record s { pending_save = none }, s.pending_save)

  -- One round of the worker; an exception of writeLastPose is only logged.
  unfoldable pub worker_round : Steps (Here ros config) (Unit {0})
  worker_round = do
    request ← act take_request
    elim request [
      | none ↦ done tt
      | some r ↦ do ask ros config (write_last_pose ros config r); done tt
    ]

  -- The section of the destructor.
  unfoldable pub stop_saving : Steps (Here ros config) (Unit {0})
  stop_saving = act λ s. (record s { stop_worker = true }, tt)
