-- ===== src/Tests/Simulation.antt =====
-- A concrete world for the node: two processes that start and stop at once, a sensor switch, a clock
-- that moves when someone sleeps, and a map directory in which every valid name has a map.
use slam_system_manager.Base.{
  ℕ, ◌+◌, ◌-◌, ◌*◌, ◌/◌, ◌^◌, ltb, leb, Bool, true, false, not, [], ◌∷◌, none, some, str_eq,
  if◌then◌else◌, ◌+++◌,
}
use slam_system_manager.State.{State}
use slam_system_manager.Program.{value, throws}
use slam_system_manager.Doubles.{Doubles}
use slam_system_manager.Manager.Fields.{Manager, SensorStatus}
use slam_system_manager.Manager.Components.{Components}

pub record Plant : Type 0 where
  pub mapping_up : Bool
  pub localization_up : Bool
  pub sensors_up : Bool
  pub clock : ℕ

-- Whole numbers in place of doubles, from a million on not finite.
abbrev pub whole : Doubles
whole = record {
  Double = ℕ;
  lt = ltb;
  le = leb;
  add = λ a b. a + b;
  sub = λ a b. a - b;
  mul = λ a b. a * b;
  div = λ a b. a / b;
  zero_d = 0;
  elapsed = λ a b. (a - b) / 1000000000;
  of_size = λ n. n;
  time_seconds = λ a b. (a - b) / 1000000000;
  decimal = λ n k. n / 10 ^ k;
  is_finite = λ n. ltb n 1000000;
  quiet_nan = 1000000;
  sqrt = λ n. n;
  abs = λ n. n;
  sin = λ n. n;
  cos = λ n. 1;
  atan2 = λ a b. a;
  Float = ℕ;
  narrow = λ n. n;
  widen = λ n. n;
  float_nan = 1000000;
}

abbrev pub sensors : Bool → SensorStatus ℕ
sensors up = record {
  pointcloud_alive = up;
  imu_alive = up;
  pointcloud_hz = 10;
  imu_hz = 100;
  pointcloud_rate_ok = true;
  imu_rate_ok = true;
  sensor_ready = up;
  startup_grace_elapsed = true;
}

abbrev pub simulation : Components
simulation = record {
  doubles = whole;
  World = Plant;
  Pose = ℕ;
  ExitCode = ℕ;
  process_running = λ name p. (p, p.mapping_up);
  last_exit_code = λ name p. (p, some 1);
  exit_code_text = λ n. "1";
  mapping_running = λ p. (p, p.mapping_up);
  save_service_available = λ p. (p, p.mapping_up);
  mapping_start = λ name path p. (record p { mapping_up = true }, (true, ""));
  mapping_stop = λ p. (
    record p { mapping_up = false },
    (p.mapping_up, if p.mapping_up then "" else "Mapping process is not running"),
  );
  mapping_save = λ path p. (p, value (p.mapping_up, ""));
  localization_running = λ p. (p, p.localization_up);
  localization_start = λ name path p. (record p { localization_up = true }, value (true, ""));
  localization_stop = λ p. (record p { localization_up = false }, (p.localization_up, ""));
  is_valid_map_name = λ name. not (str_eq name "");
  list_maps = λ p. (p, value ("office" ∷ []));
  create_map = λ name p. (p, value tt);
  delete_map = λ name p. (p, value tt);
  load_map = λ name p. (p, value "/maps/office/map.pcd");
  map_exists = λ name p. (p, value true);
  mark_map_saved = λ name p. (p, value tt);
  get_map_path = λ name.
      if str_eq name ""
      then throws "Invalid map name"
      else value ("/maps/" +++ name +++ "/map.pcd");
  is_regular_file = λ path p. (p, value false);
  parent_path = λ path. path;
  reset_session = λ p. (p, tt);
  set_localized = λ b p. (p, tt);
  localization_confirmed = λ p. (p, true);
  load_last_pose = λ directory p. (p, value (some 7, ""));
  wait_for_initial_pose_consumer = λ t p. (p, true);
  publish_initial_pose = λ pose p. (p, (true, ""));
  request_last_pose_save = λ directory p. (p, value (true, ""));
  quality_reset = λ p. (p, tt);
  quality_pose_valid = λ p. (p, true);
  health_status = λ p. (p, sensors p.sensors_up);
  active_failure_grace_sec = 5;
  steady_now = λ p. (p, p.clock);
  sleep_for = λ n p. (record p { clock = p.clock + n }, tt);
  last_pose_enable = true;
  initial_pose_settle_sec = 1;
  initial_pose_wait_timeout_sec = 5;
  last_pose_retry_count = 3;
  last_pose_retry_interval_sec = 2;
  nanoseconds = λ s. s * 1000000000;
  double_text = λ x. "0";
  size_text = λ n. "1";
  contains = λ a b. false;
}

-- The node in a state, with no operation in progress and healthy sensors.
abbrev pub node_in : State → Manager ℕ
node_in s = record {
  current_state = s;
  current_map = "";
  error_code = "";
  error_message = "";
  sensor_status = sensors true;
  operation_in_progress = false;
  previous_pointcloud_alive = true;
  previous_imu_alive = true;
  previous_sensor_ready = true;
  sensor_failure_started_at = none;
  shutting_down = false;
}

abbrev pub idle_plant : Plant
idle_plant = record {
  mapping_up = false;
  localization_up = false;
  sensors_up = true;
  clock = 10000000000;
}
