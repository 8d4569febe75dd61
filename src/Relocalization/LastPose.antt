-- ===== src/Relocalization/LastPose.antt =====
-- RelocalizationAdapter: the file last_pose.yaml, which writeLastPose writes and loadLastPose reads.
use slam_system_manager.Base.{
  Bool, true, false, not, ◌&&◌, List, [], ◌∷◌, String, ◌+++◌, Option, none, some, if◌then◌else◌,
}
use slam_system_manager.Outcome.{Attempt, Outcome, value, throws}
use slam_system_manager.Config.{SystemConfig}
use slam_system_manager.Store.{written, not_opened, not_written}
use slam_system_manager.Store.Io.{Io, ◌>>=◌, done, refused, effect}
use slam_system_manager.Relocalization.{StampedPose, SaveRequest, Member, text, numbers, Ros}
use slam_system_manager.Relocalization.Validate.{validate_pose}
use slam_system_manager.Relocalization.Reading.{read_pose}

module _ (ros : Ros) (config : SystemConfig ros.Double) where
  open ros use {
    Double, World, FilePath, ros_now, slash, text_of, lexically_normal, parent_path, same_path,
    from_text, is_absolute, is_regular_file, load_file, emit, write_file, rename, remove, getpid,
    doubles, yaml, zero_covariance,
  }

  -- The directory of a map: absolute and right under the map root.
  abbrev pub under_root : FilePath → Bool
  under_root directory =
      is_absolute directory
      && same_path (parent_path directory) (lexically_normal (from_text config.map_root))

  unfoldable pub pose_members : StampedPose Double → List (String × Member Double)
  pose_members p =
      let position = p.pose.position in
      let orientation = p.pose.orientation in
      ("frame_id", text p.frame_id)
      ∷ ("position", numbers (("x", position.x) ∷ ("y", position.y) ∷ ("z", position.z) ∷ []))
      ∷ (
        "orientation",
        numbers (
            ("x", orientation.x)
            ∷ ("y", orientation.y)
            ∷ ("z", orientation.z)
            ∷ ("w", orientation.w)
            ∷ []),
      )
      ∷ []

  abbrev pub temporary : FilePath → FilePath
  temporary directory = slash directory (".last_pose.yaml.tmp." +++ getpid)

  abbrev pub last_pose_yaml : FilePath → FilePath
  last_pose_yaml directory = slash directory "last_pose.yaml"

  -- The end of writeLastPose: the temporary file takes the place of the old one.
  unfoldable pub install_last_pose : FilePath → Io World (Unit {0})
  install_last_pose directory = do
    error ← effect (rename (temporary directory) (last_pose_yaml directory))
    elim error [
      | none ↦ done tt
      | some why ↦ do
        failure ← effect (remove (temporary directory))
        elim failure [
          | none ↦ refused ("Unable to install Last Pose file: " +++ why)
          | some what ↦ refused what
        ]
    ]

  unfoldable pub write_last_pose : SaveRequest FilePath Double → Io World (Unit {0})
  write_last_pose request = elim (emit (pose_members request.pose)) [
    | none ↦ refused "Unable to serialize Last Pose"
    | some output ↦ do
      outcome ← effect (write_file (temporary request.map_directory) (output +++ "\n"))
      elim outcome [
        | not_opened ↦ refused (
            "Unable to open temporary Last Pose file: "
            +++ text_of (temporary request.map_directory))
        | not_written ↦
            refused
              ("Unable to write Last Pose file: " +++ text_of (temporary request.map_directory))
        | written ↦ install_last_pose request.map_directory
      ]
  ]

  -- loadLastPose behind validatePose.
  unfoldable pub stamped :
      StampedPose Double × Attempt → World → World × (Option (StampedPose Double) × String)
  stamped (pose, (false, why)) w = (w, (none, why))
  stamped (pose, (true, why)) w =
      ((ros_now w).0, (some (record pose { stamp = (ros_now w).1 }), ""))

  -- The `try` block of loadLastPose, with its handler.
  unfoldable pub load_pose : FilePath → World → World × (Option (StampedPose Double) × String)
  load_pose path w = elim (read_pose yaml zero_covariance (λ p. load_file p w) path) [
    | throws what ↦ (w, (none, "Unable to load Last Pose '" +++ text_of path +++ "': " +++ what))
    | value pose ↦ stamped (validate_pose doubles pose config.frames.map) w
  ]

  unfoldable pub load_last_pose :
      FilePath → World → World × Outcome (Option (StampedPose Double) × String)
  load_last_pose map_directory w =
      let directory = lexically_normal map_directory in
      if not (under_root directory)
      then (w, value (none, "Last Pose path escapes the configured map root"))
      else elim (is_regular_file (last_pose_yaml directory) w) [
        | throws why ↦ (w, throws why)
        | value false ↦
            (w, value (none, "Last Pose not found: " +++ text_of (last_pose_yaml directory)))
        | value true ↦
            let (w', result) = load_pose (last_pose_yaml directory) w in (w', value result)
      ]
