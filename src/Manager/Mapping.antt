-- ===== src/Manager/Mapping.antt =====
-- The mapping services, handleStartMapping, handleStopMapping and handleSaveMap, each with the
-- background operation that it launches.
use slam_system_manager.Base.{
  Bool, true, false, ◌&&◌, ◌||◌, not, String, Option, none, some, str_eq, if◌then◌else◌, ◌+++◌,
}
use slam_system_manager.State.{
  State, is, to_string, wait_mode, sensor_ready, mapping_starting, mapping, map_saving, error,
}
use slam_system_manager.Program.{
  finished, response, Outcome, value, throws, Prog, ret, lock, call, ◌>>=◌, ◌>>◌,
}
use slam_system_manager.Manager.Fields.{
  Manager, set_system_error, finish_operation, clear_map, look,
}
use slam_system_manager.Manager.Components.{Components}
use slam_system_manager.Manager.Background.{transition_to, launch_operation, or_raise}

abbrev pub bool_text : Bool → String
bool_text true = "true"
bool_text false = "false"

module _ (c : Components) where
  open c use {
    World, Double, double_text, is_valid_map_name, mapping_running, localization_running,
    save_service_available, map_exists, create_map, delete_map, get_map_path, is_regular_file,
    mapping_start, mapping_stop, mapping_save, mark_map_saved,
  }

  -- Why a mode cannot start: the stream that handleStartMapping and handleStartLocalization write.
  unfoldable pub not_ready_text : String → Manager Double → String
  not_ready_text mode m =
      mode
      +++ " requires WAIT_MODE and healthy Ouster data"
      +++ " (state="
      +++ to_string m.current_state
      +++ ", pointcloud_alive="
      +++ bool_text m.sensor_status.pointcloud_alive
      +++ ", imu_alive="
      +++ bool_text m.sensor_status.imu_alive
      +++ ", pointcloud_hz="
      +++ double_text m.sensor_status.pointcloud_hz
      +++ ", imu_hz="
      +++ double_text m.sensor_status.imu_hz
      +++ ")"

  -- The guard under the lock that the two start services share.
  unfoldable pub begin_start : String → Manager Double → Manager Double × Option String
  begin_start mode m =
      if not (is m.current_state wait_mode) && not (is m.current_state sensor_ready)
        || not m.sensor_status.sensor_ready
      then (m, some (not_ready_text mode m))
      else if m.operation_in_progress
      then (m, some "Another system operation is in progress")
      else (record m { operation_in_progress = true }, none)

  -- The selection that a start makes before it changes the state.
  unfoldable pub select_map : String → Manager Double → Manager Double × Unit {0}
  select_map name m = (record m { current_map = name; error_code = ""; error_message = "" }, tt)

  -- The end of a failed start: whether the state is still the one that the start had entered.
  unfoldable pub failed_start : State → Manager Double → Manager Double × Bool
  failed_start starting m = (record m { current_map = "" }, is m.current_state starting)

  -- The background operation of handleStartMapping.
  unfoldable pub mapping_start_operation : String → String → Bool → Prog (Manager Double) World
  mapping_start_operation name path created = do
    (started, what) ← call (mapping_start name path)
    if started
        then (do
          moved ← transition_to mapping
          if moved then ret finished else (do call mapping_stop; ret finished))
        else (do
          lock (set_system_error "MAPPING_START_FAILED" what)
          should_transition ← lock (failed_start mapping_starting)
          if created
              then (do
                call (delete_map name)
                if should_transition then (do transition_to error; ret finished) else ret finished)
              else (if should_transition
                  then (do transition_to error; ret finished)
                  else ret finished))

  -- The second half of the try block of handleStartMapping.
  unfoldable pub check_output :
      String
      → Bool
      → (Outcome (String × Bool) → Prog (Manager Double) World)
      → Prog (Manager Double) World
  check_output name created next = elim (get_map_path name) [
    | throws what ↦ next (throws what)
    | value path ↦ do
      found ← call (is_regular_file path)
      elim found [
        | throws what ↦ next (throws what)
        | value there ↦
            if there
            then next (throws "Refusing to overwrite an existing map.pcd")
            else next (value (path, created))
      ]
  ]

  -- The try block of handleStartMapping: the map's path, and whether its directory is new.
  unfoldable pub prepare_map :
      String → (Outcome (String × Bool) → Prog (Manager Double) World) → Prog (Manager Double) World
  prepare_map name next = do
    exists ← call (map_exists name)
    elim exists [
      | throws what ↦ next (throws what)
      | value there ↦ if there then check_output name false next else (do
        made ← call (create_map name)
        elim made [ throws what ↦ next (throws what) | value _ ↦ check_output name true next ])
    ]

  -- The part of handleStartMapping behind the try block.
  unfoldable pub enter_mapping : String → Outcome (String × Bool) → Prog (Manager Double) World
  enter_mapping name (throws what) = do lock finish_operation; ret (response false what)
  enter_mapping name (value (path, created)) = do
    lock (select_map name)
    moved ← transition_to mapping_starting
    if moved
        then launch_operation (mapping_start_operation name path created)
            (response true "Mapping start accepted")
        else (if created
            then (do
              call (delete_map name)
              lock clear_map
              lock finish_operation
              ret (response false "State changed before mapping could start"))
            else (do
              lock clear_map
              lock finish_operation
              ret (response false "State changed before mapping could start")))

  unfoldable pub handle_start_mapping : String → Prog (Manager Double) World
  handle_start_mapping name =
      if not (is_valid_map_name name) then ret (response false "Invalid map name") else (do
        localizing ← call localization_running
        if localizing then ret (response false "Localization process is running") else (do
          running ← call mapping_running
          -- `||` asks for the service only if the process does not run.
          conflict ← call (if running then (λ w. (w, true)) else save_service_available)
          if conflict
              then ret (
                  response false "Mapping is already running or an external mapping service exists")
              else (do
                refused ← lock (begin_start "Mapping")
                elim refused [
                  | some message ↦ ret (response false message)
                  | none ↦ prepare_map name (enter_mapping name)
                ])))

  -- The guard of the two services that need the state MAPPING.
  unfoldable pub begin_in_mapping : String → Manager Double → Manager Double × Option String
  begin_in_mapping refusal m =
      if not (is m.current_state mapping)
      then (m, some refusal)
      else if m.operation_in_progress
      then (m, some "Another system operation is in progress")
      else (record m { operation_in_progress = true }, none)

  -- The background operation of handleStopMapping.
  unfoldable pub mapping_stop_operation : Prog (Manager Double) World
  mapping_stop_operation = do
    (stopped, what) ← call mapping_stop
    if stopped
        then (do
          return_to_wait ← lock (failed_start mapping)
          if return_to_wait then (do transition_to wait_mode; ret finished) else ret finished)
        else (do
          lock (set_system_error "MAPPING_STOP_FAILED" what)
          transition_to error
          ret finished)

  unfoldable pub handle_stop_mapping : Prog (Manager Double) World
  handle_stop_mapping = do
    refused ← lock (begin_in_mapping "Stop mapping is only valid in MAPPING state")
    elim refused [
      | some message ↦ ret (response false message)
      | none ↦
          launch_operation mapping_stop_operation
            (response true "Mapping stop accepted; unsaved map data will be discarded")
    ]

  -- The end of the operation of handleSaveMap. `saved` is the adapter's result, `save_error` its
  -- error text or that of the metadata's update.
  unfoldable pub finish_save : Bool → String → Prog (Manager Double) World
  finish_save saved save_error = do
    (stopped, stop_error) ← call mapping_stop
    lock (λ m.
        if not saved || not (str_eq save_error "")
        then set_system_error "MAP_SAVE_FAILED" save_error m
        else if not stopped
        then set_system_error "MAPPING_STOP_FAILED" stop_error m
        else (m, tt))
    saving_state ← lock (look λ m. is m.current_state map_saving)
    if saved && str_eq save_error "" && stopped && saving_state
        then (do transition_to wait_mode; ret finished)
        else (if saving_state then (do transition_to error; ret finished) else ret finished)

  -- The background operation of handleSaveMap.
  unfoldable pub save_operation : String → String → Prog (Manager Double) World
  save_operation name path = do
    attempt ← call (mapping_save path)
    or_raise attempt λ (saved, what).
        if saved
        then (do
          marked ← call (mark_map_saved name)
          elim marked [ throws why ↦ finish_save true why | value _ ↦ finish_save true what ])
        else finish_save false what

  unfoldable pub handle_save_map : Prog (Manager Double) World
  handle_save_map = do
    (refused, name) ← lock (λ m.
        let (m', refused) = begin_in_mapping "Save map is only valid in MAPPING state" m in
        (m', (refused, m.current_map)))
    elim refused [
      | some message ↦ ret (response false message)
      | none ↦ do
        moved ← transition_to map_saving
        if moved
            then or_raise (get_map_path name) (λ path.
              launch_operation (save_operation name path) (response true "Map save accepted"))
            else (do
              lock finish_operation
              ret (response false "State changed before map saving could start"))
    ]
