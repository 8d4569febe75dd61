-- ===== src/Manager/Token/Pose.antt =====
-- The callbacks about poses keep the discipline.
use slam_system_manager.Base.{
  refl, inl, inr, not, ◌&&◌, ◌||◌, String, Option, none, some, Bool-cases, Option-cases, str_eq,
  if◌then◌else◌,
}
use slam_system_manager.State.{is, relocalizing, localized}
use slam_system_manager.Program.{Outcome-cases, Reply}
use slam_system_manager.Manager.Fields.{Manager, transition_to_locked, look}
use slam_system_manager.Manager.Components.{Components}
use slam_system_manager.Manager.Background.{or_raise}
use slam_system_manager.Manager.Pose.{
  handle_initial_pose_observed, handle_localization_confirmed, save_last_pose,
  handle_set_initial_pose,
}
use slam_system_manager.Manager.Token.{Token, idle, Done, Guarded}
use slam_system_manager.Manager.Token.Rules.{keep-Moves, go-Moves}

module _ (c : Components) where
  open c use {
    Double, World, Pose, localization_running, get_map_path, parent_path, publish_initial_pose,
    request_last_pose_save, quality_pose_valid,
  }

  pub initial_pose_observed-Guarded : Guarded Done idle (handle_initial_pose_observed c)
  unfolding handle_initial_pose_observed look
  initial_pose_observed-Guarded m a = (
    idle,
    keep-Moves idle m m a (refl, refl, refl),
    elim (Bool-cases
        (not (is m.current_state relocalizing) && not (is m.current_state localized))) [
          | inl e ↦ rw e tt
          | inr e ↦ rw e (λ w u. elim (Bool-cases (is m.current_state localized)) [
            | inl l ↦ rw l (λ m a. (idle, go-Moves idle relocalizing m refl a, tt))
            | inr l ↦ rw l tt
          ])
        ],
  )

  pub localization_confirmed-Guarded : Guarded Done idle (handle_localization_confirmed c)
  unfolding handle_localization_confirmed look
  localization_confirmed-Guarded m a = (
    idle,
    keep-Moves idle m m a (refl, refl, refl),
    elim (Bool-cases (is m.current_state relocalizing)) [
      | inr e ↦ rw e tt
      | inl e ↦ rw e (λ w. elim (Bool-cases (localization_running w).1) [
        | inr l ↦ rw l tt
        | inl l ↦ rw l (λ m a. (
          idle,
          go-Moves idle localized m refl a,
          elim (Bool-cases (transition_to_locked localized m).1) [
            | inl moved ↦ rw moved (λ w. tt)
            | inr stuck ↦ rw stuck tt
          ],
        ))
      ])
    ],
  )

  abbrev selected : Manager Double → Option String
  selected m =
      if not (is m.current_state localized) || str_eq m.current_map ""
      then none
      else some m.current_map

  -- saveLastPose takes no flag: it keeps whatever token its caller has, and may throw.
  pub save_last_pose-Guarded :
      (E : Token → Reply → Type 0) (tok : Token)
      → ((r : Reply) → E tok r)
      → Guarded E tok (save_last_pose c)
  unfolding save_last_pose look or_raise
  save_last_pose-Guarded E tok end m a = (
    tok,
    keep-Moves tok m m a (refl, refl, refl),
    elim (Bool-cases m.shutting_down) [
      | inl e ↦ rw e (end _)
      | inr e ↦ rw e (λ w. elim (Bool-cases (quality_pose_valid w).1) [
        | inr v ↦ rw v (end _)
        | inl v ↦ rw v (λ m a. (
          tok,
          keep-Moves tok m m a (refl, refl, refl),
          elim (Option-cases (selected m)) [
            | inl s ↦ rw s (end _)
            | inr (name, s) ↦ rw s (elim (Outcome-cases (get_map_path name)) [
              | inr (what, p) ↦ rw (p, or_raise) (end _)
              | inl (path, p) ↦
                  rw (p, or_raise)
                    (λ w. elim (Outcome-cases (request_last_pose_save (parent_path path) w).1) [
                      | inr (what, q) ↦ rw (q, or_raise) (end _)
                      | inl (attempt, q) ↦ rw (q, or_raise) (end _)
                    ])
            ])
          ],
        ))
      ])
    ],
  )

  abbrev refusal : Manager Double → Option String
  refusal m =
      if not (is m.current_state relocalizing) && not (is m.current_state localized)
      then some "Initial pose requires RELOCALIZING or LOCALIZED state"
      else if m.operation_in_progress
      then some "Another system operation is in progress"
      else none

  pub set_initial_pose-Guarded : (pose : Pose) → Guarded Done idle (handle_set_initial_pose c pose)
  unfolding handle_set_initial_pose look
  set_initial_pose-Guarded pose m a = (
    idle,
    keep-Moves idle m m a (refl, refl, refl),
    elim (Option-cases (refusal m)) [
      | inr (message, e) ↦ rw e tt
      | inl e ↦ rw e (λ w. elim (Bool-cases (publish_initial_pose pose w).1.0) [
        | inl p ↦ rw p tt
        | inr p ↦ rw p tt
      ])
    ],
  )
