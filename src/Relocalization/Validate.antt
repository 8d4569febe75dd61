-- ===== src/Relocalization/Validate.antt =====
-- RelocalizationAdapter::validatePose. A pose that is null is left out: the callers pass a pose of their own.
use text.Mathlib.TextEquality.{eq_iff}
use text.Mathlib.TextPositions.{eq_refl}
use slam_system_manager.Outcome.{Attempt}
use slam_system_manager.Base.{
  is_empty, ◌↔◌, ◌≡◌, ◌⊎◌, Bool, true, false, not, ◌&&◌, ◌||◌, String, ◌+++◌, str_eq, if◌then◌else◌,
  arith,
}
use slam_system_manager.Doubles.{Doubles}
use slam_system_manager.Quality.{Point, Quaternion}
use slam_system_manager.Relocalization.{StampedPose}

module _ (f : Doubles) where
  open f use {Double, lt, add, mul, div, decimal, is_finite, sqrt}

  unfoldable pub finite_position : Point Double → Bool
  finite_position p = is_finite p.x && is_finite p.y && is_finite p.z

  unfoldable pub quaternion_norm : Quaternion Double → Double
  quaternion_norm q = sqrt (add (add (add (mul q.x q.x) (mul q.y q.y)) (mul q.z q.z)) (mul q.w q.w))

  unfoldable pub normalized : Quaternion Double → Quaternion Double
  normalized q =
      let norm = quaternion_norm q in
      record { x = div q.x norm; y = div q.y norm; z = div q.z norm; w = div q.w norm }

  -- `if (pose->header.frame_id.empty()) { … }`
  unfoldable pub in_frame : String → StampedPose Double → StampedPose Double
  in_frame expected_frame pose =
      if is_empty pose.frame_id then record pose { frame_id = expected_frame } else pose

  -- validatePose behind the empty frame.
  unfoldable pub validate_in_frame : StampedPose Double → String → StampedPose Double × Attempt
  validate_in_frame pose expected_frame =
      let q = pose.pose.orientation in
      if not (str_eq pose.frame_id expected_frame)
      then (
        pose,
        (
          false,
          "Initial pose frame must be '" +++ expected_frame +++ "', got '" +++ pose.frame_id
              +++ "'",
        ),
      )
      else if not (finite_position pose.pose.position)
      then (pose, (false, "Initial pose position contains a non-finite value"))
      else if not (is_finite q.x)
          || not (is_finite q.y)
          || not (is_finite q.z)
          || not (is_finite q.w)
      then (pose, (false, "Initial pose orientation contains a non-finite value"))
      else if lt (quaternion_norm q) (decimal 1 6)
      then (pose, (false, "Initial pose quaternion has zero length"))
      else (
        record pose { pose = record { position = pose.pose.position; orientation = normalized q } },
        (true, ""),
      )

  -- The pose as the call leaves it, and its result.
  unfoldable pub validate_pose : StampedPose Double → String → StampedPose Double × Attempt
  validate_pose pose expected_frame =
      validate_in_frame (in_frame expected_frame pose) expected_frame

  -- The length of an orientation: the square root of the sum of the squares of its components.
  abbrev pub length_of : Quaternion Double → Double
  length_of q =
      let square = λ (a : Double). mul a a in
      sqrt (add (add (add (square q.x) (square q.y)) (square q.z)) (square q.w))

  -- A pose that can be trusted: in this frame, or with none, all its numbers finite, and an orientation of some length.
  pub record IsUsable (expected_frame : String) (pose : StampedPose Double) : Type 0 where
    pub framed : (is_empty pose.frame_id ≡ true) ⊎ (pose.frame_id ≡ expected_frame)
    pub position :
        (is_finite pose.pose.position.x ≡ true)
        × (is_finite pose.pose.position.y ≡ true)
        × (is_finite pose.pose.position.z ≡ true)
    pub orientation :
        (is_finite pose.pose.orientation.x ≡ true)
        × (is_finite pose.pose.orientation.y ≡ true)
        × (is_finite pose.pose.orientation.z ≡ true)
        × (is_finite pose.pose.orientation.w ≡ true)
    pub long : lt (length_of pose.pose.orientation) (decimal 1 6) ≡ false

  -- The second orientation has each component of the first, divided by the length of the first.
  pub record IsUnit (q r : Quaternion Double) : Type 0 where
    pub x_divided : r.x ≡ div q.x (length_of q)
    pub y_divided : r.y ≡ div q.y (length_of q)
    pub z_divided : r.z ≡ div q.z (length_of q)
    pub w_divided : r.w ≡ div q.w (length_of q)

  -- validatePose accepts a pose exactly if it is usable in the frame; what it accepts is then in the frame, at the same position, with
  -- each component of the orientation divided by its length.
  pub validate_pose_iff-IsUsable :
      (pose : StampedPose Double) (frame : String)
      → (((validate_pose pose frame).1.0 ≡ true) ↔ IsUsable frame pose)
        × ((validate_pose pose frame).1.0 ≡ true
            → ((validate_pose pose frame).0.frame_id ≡ frame)
              × ((validate_pose pose frame).0.pose.position ≡ pose.pose.position)
              × IsUnit pose.pose.orientation (validate_pose pose frame).0.pose.orientation)
  unfolding validate_pose validate_in_frame in_frame finite_position quaternion_norm normalized
  validate_pose_iff-IsUsable pose frame = (
    (
      (λ h. ground (arith, eq_iff pose.frame_id frame)),
      (λ v. ground (arith, eq_iff pose.frame_id frame, eq_refl frame)),
    ),
    λ h. ground (arith, eq_iff pose.frame_id frame),
  )
