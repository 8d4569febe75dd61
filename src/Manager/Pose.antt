-- ===== src/Manager/Pose.antt =====
-- Poses: handleInitialPoseObserved, handleLocalizationConfirmed, localizationQualityContext,
-- saveLastPose and handleSetInitialPose.
use slam_system_manager.Base.{Bool, true, false, ◌&&◌, ◌||◌, not, none, some, str_eq, if◌then◌else◌}
use slam_system_manager.State.{is, relocalizing, localized}
use slam_system_manager.Program.{finished, response, Prog, ret, lock, call, ◌>>=◌, ◌>>◌}
use slam_system_manager.Manager.Fields.{Manager, is_localization_state, look}
use slam_system_manager.Manager.Components.{Components}
use slam_system_manager.Manager.Background.{transition_to, or_raise}

-- struct LocalizationQualityContext.
pub record QualityContext : Type 0 where
  pub localization_active : Bool
  pub localization_initialized : Bool
  pub localization_process_alive : Bool
  pub sensors_healthy : Bool

module _ (c : Components) where
  open c use {
    World, Double, Pose, localization_running, get_map_path, parent_path, reset_session,
    set_localized, publish_initial_pose, request_last_pose_save, quality_reset, quality_pose_valid,
  }

  -- Behind relocalization_adapter_, which calls it when an initial pose arrives.
  unfoldable pub handle_initial_pose_observed : Prog (Manager Double) World
  handle_initial_pose_observed = do
    state ← lock (look λ m. m.current_state)
    if not (is state relocalizing) && not (is state localized) then ret finished else (do
      call reset_session
      call quality_reset
      if is state localized then (do transition_to relocalizing; ret finished) else ret finished)

  -- Behind relocalization_adapter_, which calls it at the first correction of a session.
  unfoldable pub handle_localization_confirmed : Prog (Manager Double) World
  handle_localization_confirmed = do
    should_transition ← lock (look λ m. is m.current_state relocalizing)
    if should_transition
        then (do
          alive ← call localization_running
          if alive
              then (do
                moved ← transition_to localized
                if moved then (do call (set_localized true); ret finished) else ret finished)
              else ret finished)
        else ret finished

  -- The part of localizationQualityContext that is read under the lock.
  unfoldable pub quality_context : Bool → Manager Double → QualityContext
  quality_context alive m = record {
    localization_active = is_localization_state m.current_state;
    localization_initialized = is m.current_state localized;
    localization_process_alive = alive;
    sensors_healthy = m.sensor_status.sensor_ready;
  }

  -- saveLastPose
  unfoldable pub save_last_pose : Prog (Manager Double) World
  save_last_pose = do
    stopping ← lock (look λ m. m.shutting_down)
    if stopping then ret finished else (do
      valid ← call quality_pose_valid
      if not valid then ret finished else (do
        selected ← lock (
            look λ m.
              if not (is m.current_state localized) || str_eq m.current_map ""
              then none
              else some m.current_map)
        elim selected [
          | none ↦ ret finished
          | some name ↦ or_raise (get_map_path name) λ path. do
            attempt ← call (request_last_pose_save (parent_path path))
            or_raise attempt λ _. ret finished
        ]))

  unfoldable pub handle_set_initial_pose : Pose → Prog (Manager Double) World
  handle_set_initial_pose pose = do
    refused ← lock (
        look λ m.
          if not (is m.current_state relocalizing) && not (is m.current_state localized)
          then some "Initial pose requires RELOCALIZING or LOCALIZED state"
          else if m.operation_in_progress
          then some "Another system operation is in progress"
          else none)
    elim refused [
      | some message ↦ ret (response false message)
      | none ↦ do
        (published, what) ← call (publish_initial_pose pose)
        if published
            then ret (response true "Initial pose published; waiting for localization confirmation")
            else ret (response false what)
    ]
