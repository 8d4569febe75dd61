-- ===== src/Health/Load.antt =====
-- HealthMonitor::loadConfig and the constructor.
use slam_system_manager.Base.{is_empty, ℕ, false, ◌||◌, [], String, ◌+++◌, ◌≡◌, arith}
use slam_system_manager.Doubles.{Doubles}
use slam_system_manager.Outcome.{Outcome, value, relabelled, refuse, ◌>>=◌, ◌>>◌, >>=-ensures}
use slam_system_manager.Yaml.{Yaml, required}
use slam_system_manager.Health.{SensorConfig, Health}

module _ (f : Doubles) where
  open f use {Double, le, zero_d}

  unfoldable pub require_positive : Double → String → Outcome (Unit {0})
  require_positive number key =
      refuse (le number zero_d)
        ("Sensor configuration key '" +++ key +++ "' must be greater than zero")

  unfoldable pub check_sensors : SensorConfig Double → Outcome (SensorConfig Double)
  check_sensors c = do
    require_positive c.pointcloud_timeout_sec "pointcloud_timeout_sec"
    require_positive c.imu_timeout_sec "imu_timeout_sec"
    require_positive c.min_pointcloud_hz "min_pointcloud_hz"
    require_positive c.min_imu_hz "min_imu_hz"
    require_positive c.frequency_window_sec "frequency_window_sec"
    require_positive c.startup_grace_sec "startup_grace_sec"
    require_positive c.active_failure_grace_sec "active_failure_grace_sec"
    require_positive c.health_check_hz "health_check_hz"
    value c

  module _ (yaml : Yaml Double) where
    open yaml use {Node, as_double}

    abbrev pub required_value : {T : Type 0} → (Node → Outcome T) → Node → String → Outcome T
    required_value =
        required yaml (λ key. "Missing sensor configuration key: " +++ key)
          (λ key. "Invalid sensor configuration key '" +++ key +++ "': ")

    unfoldable pub read_sensors : Node → Outcome (SensorConfig Double)
    read_sensors root = do
      pointcloud_timeout_sec ← required_value as_double root "pointcloud_timeout_sec"
      imu_timeout_sec ← required_value as_double root "imu_timeout_sec"
      min_pointcloud_hz ← required_value as_double root "min_pointcloud_hz"
      min_imu_hz ← required_value as_double root "min_imu_hz"
      frequency_window_sec ← required_value as_double root "frequency_window_sec"
      startup_grace_sec ← required_value as_double root "startup_grace_sec"
      active_failure_grace_sec ← required_value as_double root "active_failure_grace_sec"
      health_check_hz ← required_value as_double root "health_check_hz"
      value (record {
        pointcloud_timeout_sec = pointcloud_timeout_sec;
        imu_timeout_sec = imu_timeout_sec;
        min_pointcloud_hz = min_pointcloud_hz;
        min_imu_hz = min_imu_hz;
        frequency_window_sec = frequency_window_sec;
        startup_grace_sec = startup_grace_sec;
        active_failure_grace_sec = active_failure_grace_sec;
        health_check_hz = health_check_hz;
      })

    module _ (load_file : String → Outcome Node) where
      unfoldable pub load_sensors : String → Outcome (SensorConfig Double)
      load_sensors path = do
        root ← relabelled ("Unable to load sensor config '" +++ path +++ "': ") (load_file path)
        c ← read_sensors root
        check_sensors c

      -- The constructor, less its subscriptions, at the time that the clock shows.
      unfoldable pub new_health :
          String → String → String → ℕ → Outcome (SensorConfig Double × Health)
      new_health pointcloud_topic imu_topic config_path now = do
        c ← load_sensors config_path
        refuse (is_empty pointcloud_topic || is_empty imu_topic)
            "Health monitor topics must not be empty"
        value (
          c,
          record {
            started_at = now;
            last_pointcloud_time = 0;
            last_imu_time = 0;
            received_pointcloud = false;
            received_imu = false;
            pointcloud_samples = [];
            imu_samples = [];
          },
        )

  -- A configuration in which every number is positive.
  pub record IsPositive (c : SensorConfig Double) : Type 0 where
    pub pointcloud_timeout : le c.pointcloud_timeout_sec zero_d ≡ false
    pub imu_timeout : le c.imu_timeout_sec zero_d ≡ false
    pub pointcloud_rate : le c.min_pointcloud_hz zero_d ≡ false
    pub imu_rate : le c.min_imu_hz zero_d ≡ false
    pub window : le c.frequency_window_sec zero_d ≡ false
    pub startup_grace : le c.startup_grace_sec zero_d ≡ false
    pub failure_grace : le c.active_failure_grace_sec zero_d ≡ false
    pub check_rate : le c.health_check_hz zero_d ≡ false

  check_sensors-IsPositive : (c d : SensorConfig Double) → check_sensors c ≡ value d → IsPositive d
  unfolding check_sensors require_positive
  check_sensors-IsPositive c d h = ground arith

  -- loadConfig returns only a configuration in which every number is positive.
  load_sensors-IsPositive :
      (yaml : Yaml Double) (load_file : String → Outcome yaml.Node) (path : String)
      (c : SensorConfig Double)
      → load_sensors yaml load_file path ≡ value c
      → IsPositive c
  unfolding load_sensors
  load_sensors-IsPositive yaml load_file path =
      >>=-ensures IsPositive _
        (λ root.
          >>=-ensures IsPositive (check_sensors) check_sensors-IsPositive (read_sensors yaml root))
        (relabelled ("Unable to load sensor config '" +++ path +++ "': ") (load_file path))
