-- ===== src/Relocalization/Reading.antt =====
-- RelocalizationAdapter::loadLastPose: what it reads from the file. A message is constructed with the stamp 0
-- and a covariance of zeros.
use slam_system_manager.Base.{List, String, ◌+++◌}
use slam_system_manager.Outcome.{Outcome, value, ◌>>=◌}
use slam_system_manager.Yaml.{Yaml, required, section_at}
use slam_system_manager.Relocalization.{StampedPose}

module _ {Double : Type 0} (yaml : Yaml Double) (zeros : List Double) where
  open yaml use {Node, as_string, as_double}

  abbrev pub required_value : {T : Type 0} → (Node → Outcome T) → Node → String → Outcome T
  required_value = required yaml (λ key. "Missing Last Pose key: " +++ key) (λ key. "")

  unfoldable pub read_last_pose : Node → Outcome (StampedPose Double)
  read_last_pose root = do
    frame_id ← required_value as_string root "frame_id"
    position ← section_at yaml "Last Pose position and orientation must be maps" root "position"
    orientation ←
        section_at yaml "Last Pose position and orientation must be maps" root "orientation"
    x ← required_value as_double position "x"
    y ← required_value as_double position "y"
    z ← required_value as_double position "z"
    qx ← required_value as_double orientation "x"
    qy ← required_value as_double orientation "y"
    qz ← required_value as_double orientation "z"
    qw ← required_value as_double orientation "w"
    value (record {
      stamp = 0;
      frame_id = frame_id;
      pose = record {
        position = record { x = x; y = y; z = z };
        orientation = record { x = qx; y = qy; z = qz; w = qw };
      };
      covariance = zeros;
    })

  unfoldable pub read_pose : {P : Type 0} → (P → Outcome Node) → P → Outcome (StampedPose Double)
  read_pose load_file path = do root ← load_file path; read_last_pose root
