-- ===== src/Relocalization/Requests.antt =====
-- What requestLastPoseSave queues.
use slam_system_manager.Base.{
  ◌≡◌, ◌⊎◌, inl, inr, true, ◌&&◌, String, some, Bool-cases, Option-cases, arith,
}
use slam_system_manager.Outcome.{value, Outcome-cases}
use slam_system_manager.Steps.{alone}
use slam_system_manager.Config.{SystemConfig}
use slam_system_manager.Relocalization.{StampedPose, Ros}
use slam_system_manager.Relocalization.Session.{Here}
use slam_system_manager.Relocalization.Saving.{trusted, request_last_pose_save}
use slam_system_manager.Relocalization.LastPose.{under_root}

module _ (ros : Ros) (config : SystemConfig ros.Double) where
  open ros use {Double, World, FilePath, doubles}

  -- Run alone, requestLastPoseSave either queues the trusted pose of a localized session for a directory
  -- right under the map root, and returns true, or changes nothing and does not return true.
  pub request_last_pose_save_cases :
      (d : FilePath) (s : Here ros config)
      → ((p : StampedPose Double) × (config.last_pose.enable ≡ true)
          × (under_root ros config (ros.lexically_normal d) ≡ true)
          × (ros.is_directory (ros.lexically_normal d) s.world ≡ value true)
          × (s.localized ≡ true)
          × (s.latest_trusted_pose ≡ some p)
          × (alone (request_last_pose_save ros config d) s ≡ (
            record s {
              pending_save = some (record { map_directory = ros.lexically_normal d; pose = p });
            },
            value (true, ""),
          )))
        ⊎ (((alone (request_last_pose_save ros config d) s).0 ≡ s)
            × (¬ (
                (why : String) × ((alone (request_last_pose_save ros config d) s).1
                  ≡ value (true, why)))))
  unfolding request_last_pose_save trusted alone
  request_last_pose_save_cases d s =
      elim (Outcome-cases (ros.is_directory (ros.lexically_normal d) s.world)) [
        | inr (why, e) ↦ inr (ground arith, λ h. ground arith)
        | inl (b, e) ↦ elim (Option-cases s.latest_trusted_pose) [
          | inl k ↦ inr (ground arith, λ h. ground arith)
          | inr (p, k) ↦
              elim (Bool-cases (
                config.last_pose.enable
                && under_root ros config (ros.lexically_normal d)
                && b
                && s.localized)) [
                  | inl t ↦
                      inl
                        (p, ground arith, ground arith, ground arith, ground arith, k, ground arith)
                  | inr f ↦ inr (ground arith, λ h. ground arith)
                ]
        ]
      ]
