-- ===== src/Manager/Sensors.antt =====
-- The two supervising timers: updateSensorState and monitorProcesses.
use slam_system_manager.Base.{
  ℕ, Bool, true, false, ◌&&◌, ◌||◌, not, String, Option, none, some, if◌then◌else◌, ◌+++◌,
}
use slam_system_manager.State.{
  State, is, sensor_starting, sensor_ready, wait_mode, mapping, relocalizing, localized, error,
}
use slam_system_manager.Program.{finished, Prog, ret, lock, call, ◌>>=◌, ◌>>◌}
use slam_system_manager.Manager.Fields.{
  Manager, SensorStatus, is_active_slam_state, set_system_error, clear_error, look,
}
use slam_system_manager.Manager.Components.{Components}
use slam_system_manager.Manager.Background.{transition_to, launch_operation}

module _ (c : Components) where
  open c use {
    World, Double, lt, zero_d, elapsed, ExitCode, exit_code_text, last_exit_code, mapping_running,
    localization_running, mapping_stop, localization_stop, health_status, steady_now,
    active_failure_grace_sec,
  }

  -- previous_pointcloud_alive_, previous_imu_alive_ and previous_sensor_ready_.
  unfoldable pub note_status : SensorStatus Double → Manager Double → Manager Double × Unit {0}
  note_status s m = (
    record m {
      previous_pointcloud_alive = s.pointcloud_alive;
      previous_imu_alive = s.imu_alive;
      previous_sensor_ready = s.sensor_ready;
    },
    tt,
  )

  -- Since when the sensors have failed: the steady-clock time of the first bad status in a row.
  unfoldable pub failure_start : Bool → ℕ → Option ℕ → Option ℕ
  failure_start true now since = none
  failure_start false now none = some now
  failure_start false now (some start) = some start

  unfoldable pub failure_duration : ℕ → Option ℕ → Double
  failure_duration now none = zero_d
  failure_duration now (some start) = elapsed now start

  -- The section that stores the status: the state at that moment, and for how long the sensors
  -- have failed.
  unfoldable pub record_status :
      SensorStatus Double → ℕ → Manager Double → Manager Double × (State × Double)
  record_status s now m =
      let since = failure_start s.sensor_ready now m.sensor_failure_started_at in
      (
        record m { sensor_status = s; sensor_failure_started_at = since },
        (m.current_state, failure_duration now since),
      )

  -- The error of a sensor failure in a mode.
  unfoldable pub set_sensor_error : SensorStatus Double → Manager Double → Manager Double × Unit {0}
  set_sensor_error s m =
      if not s.pointcloud_alive
      then set_system_error "SENSOR_NO_POINTCLOUD" "Ouster PointCloud2 stream timed out" m
      else if not s.imu_alive
      then set_system_error "SENSOR_NO_IMU" "Ouster IMU stream timed out" m
      else set_system_error "SENSOR_RATE_LOW" "Ouster data rate is below the configured minimum" m

  -- What the status reports while the sensors start.
  unfoldable pub set_waiting_error :
      SensorStatus Double → Manager Double → Manager Double × Unit {0}
  set_waiting_error s m =
      if not s.pointcloud_alive
      then set_system_error "SENSOR_NO_POINTCLOUD" "Waiting for Ouster PointCloud2 data" m
      else if not s.imu_alive
      then set_system_error "SENSOR_NO_IMU" "Waiting for Ouster IMU data" m
      else if not s.pointcloud_rate_ok
      then set_system_error "SENSOR_POINTCLOUD_RATE_LOW"
          "PointCloud2 frequency is below the configured minimum" m
      else if not s.imu_rate_ok
      then set_system_error "SENSOR_IMU_RATE_LOW" "IMU frequency is below the configured minimum" m
      else (m, tt)

  -- The operation that stops the processes of a mode after a sensor failure.
  unfoldable pub stop_active_slam : Bool → Bool → Prog (Manager Double) World
  stop_active_slam mapping_was localization_was =
      if mapping_was
      then (do
        call mapping_stop
        if localization_was then (do call localization_stop; ret finished) else ret finished)
      else (if localization_was then (do call localization_stop; ret finished) else ret finished)

  unfoldable pub begin_stop_active : Bool → Manager Double → Manager Double × Bool
  begin_stop_active running m =
      if not m.operation_in_progress && running
      then (record m { operation_in_progress = true }, true)
      else (m, false)

  -- The sensors have failed for too long in a mode.
  unfoldable pub fail_active_slam : SensorStatus Double → Prog (Manager Double) World
  fail_active_slam s = do
    lock (set_sensor_error s)
    transition_to error
    mapping_was ← call mapping_running
    localization_was ← call localization_running
    stop ← lock (begin_stop_active (mapping_was || localization_was))
    if stop
        then launch_operation (stop_active_slam mapping_was localization_was) finished
        else ret finished

  -- The end of updateSensorState outside a mode.
  unfoldable pub wait_for_sensors : SensorStatus Double → State → Prog (Manager Double) World
  wait_for_sensors s state =
      if is state sensor_starting && s.startup_grace_elapsed
      then (do lock (set_waiting_error s); ret finished)
      else ret finished

  -- The branch for ready sensors.
  unfoldable pub sensors_ready : State → Prog (Manager Double) World
  sensors_ready state =
      if is state sensor_starting
      then (do lock clear_error; transition_to sensor_ready; transition_to wait_mode; ret finished)
      else (if is state sensor_ready
          then (do transition_to wait_mode; ret finished)
          else ret finished)

  -- What updateSensorState does with the status, the state and the duration that it has recorded.
  unfoldable pub react : SensorStatus Double → State → Double → Prog (Manager Double) World
  react s state failed_for =
      if s.sensor_ready
      then sensors_ready state
      else (if is_active_slam_state state
          then (if lt failed_for active_failure_grace_sec then ret finished else fail_active_slam s)
          else (if is state sensor_ready || is state wait_mode
              then (do transition_to sensor_starting; wait_for_sensors s sensor_starting)
              else wait_for_sensors s state))

  unfoldable pub update_sensor_state : Prog (Manager Double) World
  update_sensor_state = do
    stopping ← lock (look λ m. m.shutting_down)
    if stopping then ret finished else (do
      s ← call health_status
      now ← call steady_now
      lock (note_status s)
      (state, failed_for) ← lock (record_status s now)
      react s state failed_for)

  -- The text of an optional exit code.
  unfoldable pub exit_text : Option ExitCode → String
  exit_text none = "unknown"
  exit_text (some code) = exit_code_text code

  -- The error of a process that ended by itself.
  unfoldable pub report_exit : String → String → String → Prog (Manager Double) World
  report_exit process label code = do
    exit ← call (last_exit_code process)
    lock (
        set_system_error code
          (label +++ " process exited unexpectedly (exit_code=" +++ exit_text exit +++ ")"))
    transition_to error
    ret finished

  -- The second test of monitorProcesses.
  unfoldable pub monitor_localization : State → Prog (Manager Double) World
  monitor_localization state =
      if is state relocalizing || is state localized
      then (do
        alive ← call localization_running
        if alive
            then ret finished
            else report_exit "localization" "Localization" "LOCALIZATION_PROCESS_EXITED")
      else ret finished

  unfoldable pub monitor_processes : Prog (Manager Double) World
  monitor_processes = do
    stopping ← lock (look λ m. m.shutting_down)
    if stopping then ret finished else (do
      (state, busy) ← lock (look λ m. (m.current_state, m.operation_in_progress))
      if busy
          then ret finished
          else (if is state mapping
              then (do
                alive ← call mapping_running
                if alive
                    then monitor_localization state
                    else report_exit "mapping" "Mapping" "MAPPING_PROCESS_EXITED")
              else monitor_localization state))
