-- ===== src/Adapters/Mapping.antt =====
-- MappingAdapter: starting and stopping the mapping process, and saving its map.
use slam_system_manager.Base.{
  ℕ, ◌==◌, Bool, true, false, not, [], ◌∷◌, String, ◌+++◌, Option, none, some, if◌then◌else◌,
}
use slam_system_manager.Outcome.{Attempt, Outcome, value, throws}
use slam_system_manager.Steps.{Steps, done, act, ◌>>=◌, ◌>>◌}
use slam_system_manager.Process.Control.{
  State, call, start_process, is_process_running, last_exit_code,
}
use slam_system_manager.Process.Stopping.{stop_process}
use slam_system_manager.Adapters.{MappingHost}
use slam_system_manager.Adapters.MappingConfig.{MappingAdapterConfig}
use slam_system_manager.Adapters.RuntimeConfig.{prepare_runtime_config}

module _ (host : MappingHost) (config : MappingAdapterConfig host.Double) where
  open host use {
    os, World, FilePath, filename, text_of, parent_path, double_text, int_text, is_regular,
    file_size, remove_file, service_is_ready, wait_for_service, call_service,
  }

  unfoldable pub save_service_available : Steps (State os) Bool
  save_service_available = act λ s. (s, service_is_ready s.os)

  -- The end of `start`: the process may have gone while the service came up.
  unfoldable pub check_started : Steps (State os) Attempt
  check_started = do
    running ← act (is_process_running os "mapping")
    if running then done (true, "") else (do
      code ← act (last_exit_code os "mapping")
      done (
        false,
        "Mapping process exited during startup (exit_code="
            +++ (elim code [ none ↦ "unknown" | some n ↦ int_text n ])
            +++ ")",
      ))

  unfoldable pub await_service : Steps (State os) Attempt
  await_service = do
    ready ← call os (wait_for_service config.startup_timeout_sec)
    if ready then check_started else (do
      stop_process os "mapping"
      done (
        false,
        "Mapping process started but save service '"
            +++ config.save_service_name
            +++ "' was not ready within "
            +++ double_text config.startup_timeout_sec
            +++ " seconds",
      ))

  -- `start` behind the runtime configuration.
  unfoldable pub start_prepared : String → FilePath → Outcome FilePath → Steps (State os) Attempt
  start_prepared map_name map_path (throws what) = done (false, what)
  start_prepared map_name map_path (value runtime_config) = do
    (started, why) ← act (
        start_process os "mapping" (
          ("map_name", map_name)
          ∷ ("map_path", text_of map_path)
          ∷ ("config_path", text_of (parent_path runtime_config))
          ∷ ("config_file", filename runtime_config)
          ∷ []))
    if started then await_service else done (false, why)

  unfoldable pub start_mapping : String → FilePath → Steps (State os) Attempt
  start_mapping map_name map_path = do
    running ← act (is_process_running os "mapping")
    if running then done (false, "Mapping process is already running") else (do
      available ← save_service_available
      if available
          then done
              (false, "Mapping save service already exists; another mapping node may be running")
          else (do
            prepared ← call os (prepare_runtime_config host config map_path)
            start_prepared map_name map_path prepared))

  unfoldable pub stop_mapping : Steps (State os) Attempt
  stop_mapping = do
    running ← act (is_process_running os "mapping")
    if running then stop_process os "mapping" else done (false, "Mapping process is not running")

  -- saveMap behind file_size, and behind is_regular_file.
  unfoldable pub check_size : FilePath → ℕ × Option String → Outcome Attempt
  check_size map_path (size, some why) =
      value (false, "Mapping output is empty or unreadable: " +++ text_of map_path)
  check_size map_path (size, none) =
      if size == 0
      then value (false, "Mapping output is empty or unreadable: " +++ text_of map_path)
      else value (true, "")

  unfoldable pub check_regular : FilePath → Outcome Bool → Steps (State os) (Outcome Attempt)
  check_regular map_path (throws what) = done (throws what)
  check_regular map_path (value false) = done (
      value (
        false,
        "Mapping save service succeeded but map file was not created: " +++ text_of map_path,
      ))
  check_regular map_path (value true) = act λ s. (s, check_size map_path (file_size map_path s.os))

  -- saveMap behind a response that reports success.
  unfoldable pub check_saved : FilePath → Steps (State os) (Outcome Attempt)
  check_saved map_path = do
    regular ← act λ s. (s, is_regular map_path s.os)
    check_regular map_path regular

  unfoldable pub check_response :
      FilePath → Option (Bool × String) → Steps (State os) (Outcome Attempt)
  check_response map_path none = done (
      value (
        false,
        "Mapping save service timed out after "
            +++ double_text config.save_timeout_sec
            +++ " seconds",
      ))
  check_response map_path (some (false, why)) =
      done (value (false, "Mapping save service failed: " +++ why))
  check_response map_path (some (true, why)) = check_saved map_path

  unfoldable pub request_save : FilePath → Option String → Steps (State os) (Outcome Attempt)
  request_save map_path (some why) =
      done (value (false, "Unable to remove previous map output: " +++ why))
  request_save map_path none = do
    response ← call os (call_service config.save_timeout_sec)
    check_response map_path response

  unfoldable pub save_map : FilePath → Steps (State os) (Outcome Attempt)
  save_map map_path = do
    running ← act (is_process_running os "mapping")
    if not running then done (value (false, "Mapping process is not running")) else (do
      available ← save_service_available
      if not available
          then done (
              value (false, "Mapping save service is not available: " +++ config.save_service_name))
          else (do error ← call os (remove_file map_path); request_save map_path error))

  unfoldable pub mapping_is_running : Steps (State os) Bool
  mapping_is_running = act (is_process_running os "mapping")
