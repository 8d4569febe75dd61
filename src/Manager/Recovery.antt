-- ===== src/Manager/Recovery.antt =====
-- handleRecover and performRecovery.
use slam_system_manager.Base.{
  Bool, true, false, not, List, [], ◌∷◌, ◌++◌, String, Option, none, some, if◌then◌else◌, ◌+++◌,
}
use slam_system_manager.State.{is, sensor_starting, wait_mode, error, recovering}
use slam_system_manager.Program.{
  Reply, raised, finished, response, Prog, ret, lock, call, ◌>>=◌, ◌>>◌,
}
use slam_system_manager.Manager.Fields.{
  Manager, SensorStatus, transition_to_locked, set_system_error,
}
use slam_system_manager.Manager.Components.{Components}
use slam_system_manager.Manager.Background.{transition_to, after, launch_operation}

-- The error texts, joined by "; ".
unfoldable pub joined : List String → String
joined [] = ""
joined (x ∷ []) = x
joined (x ∷ y ∷ rest) = x +++ "; " +++ joined (y ∷ rest)

module _ (c : Components) where
  open c use {
    World, Double, mapping_running, mapping_stop, localization_running, localization_stop,
    reset_session, quality_reset, health_status,
  }

  unfoldable pub begin_recover : Manager Double → Manager Double × Option String
  begin_recover m =
      if not (is m.current_state error)
      then (m, some "Recovery is only valid in ERROR state")
      else if m.operation_in_progress
      then (m, some "Another system operation is in progress")
      else let (m', moved) = transition_to_locked recovering m in
        if moved
        then (record m' { operation_in_progress = true }, none)
        else (m', some "Unable to enter RECOVERING state")

  -- Stops one adapter's process; a stop that fails counts only if the process still runs.
  unfoldable pub stop_for_recovery :
      (World → World × Bool)
      → (World → World × (Bool × String))
      → String
      → List String
      → (List String → Prog (Manager Double) World)
      → Prog (Manager Double) World
  stop_for_recovery running stop label errors next = do
    alive ← call running
    if alive
        then (do
          (stopped, what) ← call stop
          if stopped then next errors else (do
            still ← call running
            if still then next (errors ++ (label +++ what) ∷ []) else next errors))
        else next errors

  -- The section that ends the error, if the state is still RECOVERING.
  unfoldable pub forget_error : SensorStatus Double → Manager Double → Manager Double × Bool
  forget_error s m = if not (is m.current_state recovering) then (m, false) else (
    record m {
      current_map = "";
      sensor_status = s;
      sensor_failure_started_at = none;
      error_code = "";
      error_message = "";
    },
    true,
  )

  -- The part of performRecovery behind the two stops.
  unfoldable pub finish_recovery : List String → Prog (Manager Double) World
  finish_recovery (e ∷ errors) = do
    lock (set_system_error "RECOVERY_FAILED" (joined (e ∷ errors)))
    transition_to error
    ret finished
  finish_recovery [] = do
    call reset_session
    call quality_reset
    s ← call health_status
    current ← lock (forget_error s)
    if not current then ret finished else (do
      moved ← transition_to (if s.sensor_ready then wait_mode else sensor_starting)
      if moved then ret finished else (do
        lock (set_system_error "RECOVERY_FAILED" "State changed before recovery completed")
        transition_to error
        ret finished))

  -- The block behind `try`.
  unfoldable pub try_recovery : Prog (Manager Double) World
  try_recovery = stop_for_recovery mapping_running mapping_stop "mapping: " [] λ errors.
      stop_for_recovery localization_running localization_stop "localization: " errors
        finish_recovery

  -- The catch clauses.
  unfoldable pub catch_recovery : Reply → Prog (Manager Double) World
  catch_recovery (raised what) = do
    lock (set_system_error "RECOVERY_FAILED" what)
    transition_to error
    ret finished
  catch_recovery reply = ret reply

  unfoldable pub perform_recovery : Prog (Manager Double) World
  perform_recovery = after try_recovery catch_recovery

  unfoldable pub handle_recover : Prog (Manager Double) World
  handle_recover = do
    refused ← lock begin_recover
    elim refused [
      | some message ↦ ret (response false message)
      | none ↦
          launch_operation perform_recovery
            (response true "Recovery accepted; observe /system/status for completion")
    ]
