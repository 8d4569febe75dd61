-- ===== src/Manager/Localization.antt =====
-- The localization services, handleStartLocalization and handleStopLocalization, each with the
-- background operation that it launches.
use slam_system_manager.Base.{
  ℕ, zero, suc, ◌+◌, ◌/◌, ltb, true, false, not, String, Option, none, some, if◌then◌else◌,
}
use slam_system_manager.State.{wait_mode, localization_starting, relocalizing, error}
use slam_system_manager.Program.{
  finished, response, value, throws, Prog, ret, lock, call, ◌>>=◌, ◌>>◌,
}
use slam_system_manager.Manager.Fields.{
  Manager, is_localization_state, set_system_error, finish_operation, clear_map,
}
use slam_system_manager.Manager.Components.{Components}
use slam_system_manager.Manager.Background.{
  transition_to, launch_operation, or_raise, after, following,
}
use slam_system_manager.Manager.Mapping.{begin_start, select_map, failed_start}
use slam_system_manager.Manager.Pose.{save_last_pose}

-- sleep_for(std::chrono::milliseconds(100)) of the two polling loops.
abbrev pub poll_ns : ℕ
poll_ns = 100000000

module _ (c : Components) where
  open c use {
    World, Double, Pose, is_valid_map_name, mapping_running, localization_running,
    save_service_available, load_map, parent_path, localization_start, localization_stop,
    reset_session, localization_confirmed, load_last_pose, wait_for_initial_pose_consumer,
    publish_initial_pose, quality_reset, steady_now, sleep_for, nanoseconds, last_pose_enable,
    initial_pose_settle_sec, initial_pose_wait_timeout_sec, last_pose_retry_count,
    last_pose_retry_interval_sec,
  }

  -- The inner loop: poll for the confirmation until the deadline. Each round sleeps for `poll_ns`
  -- at least, so the interval bounds the rounds.
  unfoldable pub await_confirmation :
      ℕ → ℕ → Prog (Manager Double) World → Prog (Manager Double) World
  await_confirmation zero deadline next = next
  await_confirmation (suc rounds) deadline next = do
    now ← call steady_now
    elim (ltb now deadline) [
      | false ↦ next
      | true ↦ do
        confirmed ← call localization_confirmed
        elim confirmed [
          | true ↦ ret finished
          | false ↦ do call (sleep_for poll_ns); await_confirmation rounds deadline next
        ]
    ]

  -- The loop over the attempts to publish the stored pose, with so many left.
  unfoldable pub retry_last_pose : ℕ → Pose → Prog (Manager Double) World
  retry_last_pose zero pose = ret finished
  retry_last_pose (suc attempts) pose = do
    (published, what) ← call (publish_initial_pose pose)
    elim published [
      | false ↦ ret finished
      | true ↦ do
        now ← call steady_now
        let interval = nanoseconds last_pose_retry_interval_sec
        await_confirmation (interval / poll_ns + 1) (now + interval) (retry_last_pose attempts pose)
    ]

  -- The background operation behind a start that reached RELOCALIZING.
  unfoldable pub restore_last_pose : String → Prog (Manager Double) World
  restore_last_pose path = if not last_pose_enable then ret finished else (do
    loaded ← call (load_last_pose (parent_path path))
    or_raise loaded λ (last_pose, _). elim last_pose [
      | none ↦ ret finished
      | some pose ↦ do
        call (sleep_for (nanoseconds initial_pose_settle_sec))
        consumer ← call (wait_for_initial_pose_consumer initial_pose_wait_timeout_sec)
        if consumer then retry_last_pose last_pose_retry_count pose else ret finished
    ])

  -- The background operation of handleStartLocalization.
  unfoldable pub localization_start_operation : String → String → Prog (Manager Double) World
  localization_start_operation name path = do
    attempted ← call (localization_start name path)
    or_raise attempted λ a.
        if a.0
        then (do
          moved ← transition_to relocalizing
          if moved then restore_last_pose path else (do call localization_stop; ret finished))
        else (do
          lock (set_system_error "LOCALIZATION_START_FAILED" a.1)
          should_transition ← lock (failed_start c localization_starting)
          if should_transition then (do transition_to error; ret finished) else ret finished)

  unfoldable pub enter_localization : String → String → Prog (Manager Double) World
  enter_localization name path = do
    lock (select_map c name)
    call reset_session
    call quality_reset
    moved ← transition_to localization_starting
    if moved
        then launch_operation (localization_start_operation name path)
            (response true "Localization start accepted")
        else (do
          lock clear_map
          lock finish_operation
          ret (response false "State changed before localization could start"))

  unfoldable pub handle_start_localization : String → Prog (Manager Double) World
  handle_start_localization name =
      if not (is_valid_map_name name) then ret (response false "Invalid map name") else (do
        running ← call mapping_running
        -- `||` asks for the service only if the process does not run.
        conflict ← call (if running then (λ w. (w, true)) else save_service_available)
        if conflict
            then ret (response false "Mapping is running or an external mapping service exists")
            else (do
              localizing ← call localization_running
              if localizing then ret (response false "Localization is already running") else (do
                refused ← lock (begin_start c "Localization")
                elim refused [
                  | some message ↦ ret (response false message)
                  | none ↦ do
                    loaded ← call (load_map name)
                    elim loaded [
                      | throws what ↦ do lock finish_operation; ret (response false what)
                      | value path ↦ enter_localization name path
                    ]
                ])))

  -- The guard of handleStopLocalization.
  unfoldable pub begin_stop_localization : Manager Double → Manager Double × Option String
  begin_stop_localization m =
      if not (is_localization_state m.current_state)
      then (m, some "Stop localization requires an active localization state")
      else if m.operation_in_progress
      then (m, some "Another system operation is in progress")
      else (record m { operation_in_progress = true }, none)

  -- The background operation of handleStopLocalization, behind its call of saveLastPose.
  unfoldable pub stop_localizing : Prog (Manager Double) World
  stop_localizing = do
    (stopped, what) ← call localization_stop
    if stopped
        then (do
          return_to_wait ←
              lock (λ m. (record m { current_map = "" }, is_localization_state m.current_state))
          if return_to_wait
              then (do
                transition_to wait_mode
                call reset_session
                call quality_reset
                ret finished)
              else (do call reset_session; call quality_reset; ret finished))
        else (do
          lock (set_system_error "LOCALIZATION_STOP_FAILED" what)
          transition_to error
          ret finished)

  -- The background operation of handleStopLocalization.
  unfoldable pub localization_stop_operation : Prog (Manager Double) World
  localization_stop_operation = after (save_last_pose c) (following stop_localizing)

  unfoldable pub handle_stop_localization : Prog (Manager Double) World
  handle_stop_localization = do
    refused ← lock begin_stop_localization
    elim refused [
      | some message ↦ ret (response false message)
      | none ↦
          launch_operation localization_stop_operation (response true "Localization stop accepted")
    ]
