-- ===== src/Health.antt =====
-- health_monitor.cpp and .hpp: the receipt of point clouds and IMU messages, and getStatus. Times are
-- steady-clock nanoseconds, taken before the mutex is locked, so that they may arrive out of order.
pub mod Load
pub mod Windows
pub mod Receipts
use slam_system_manager.Base.{
  ℕ, ◌-◌, ltb, Bool, true, false, ◌&&◌, List, [], ◌∷◌, ◌++◌, length, if◌then◌else◌,
}
use slam_system_manager.Doubles.{Doubles}
use slam_system_manager.Manager.Fields.{SensorStatus}

-- struct SensorConfig
pub record SensorConfig (D : Type 0) : Type 0 where
  pub pointcloud_timeout_sec : D
  pub imu_timeout_sec : D
  pub min_pointcloud_hz : D
  pub min_imu_hz : D
  pub frequency_window_sec : D
  pub startup_grace_sec : D
  pub active_failure_grace_sec : D
  pub health_check_hz : D

-- The fields behind the monitor's mutex. The front of a deque is the head of its list.
pub record Health : Type 0 where
  pub started_at : ℕ
  pub last_pointcloud_time : ℕ
  pub last_imu_time : ℕ
  pub received_pointcloud : Bool
  pub received_imu : Bool
  pub pointcloud_samples : List ℕ
  pub imu_samples : List ℕ

module _ (f : Doubles) where
  open f use {Double, lt, le, div, zero_d, elapsed, of_size}

  unfoldable pub prune_samples : Double → ℕ → List ℕ → List ℕ
  prune_samples window now [] = []
  prune_samples window now (t ∷ ts) =
      let rest = prune_samples window now ts in if lt window (elapsed now t) then rest else t ∷ ts

  -- back() of a deque that is not empty.
  unfoldable pub back : ℕ → List ℕ → ℕ
  back t [] = t
  back t (u ∷ ts) = back u ts

  unfoldable pub calculate_frequency : List ℕ → Double
  calculate_frequency [] = zero_d
  calculate_frequency (t ∷ ts) =
      let span = elapsed (back t ts) t in
      if ltb (length (t ∷ ts)) 2
      then zero_d
      else if lt zero_d span
      then div (of_size (length (t ∷ ts) - 1)) span
      else zero_d

  module _ (config : SensorConfig Double) where
    unfoldable pub pointcloud_callback : ℕ → Health → Health
    pointcloud_callback now h = record h {
      received_pointcloud = true;
      last_pointcloud_time = now;
      pointcloud_samples =
          prune_samples config.frequency_window_sec now (h.pointcloud_samples ++ now ∷ []);
    }

    unfoldable pub imu_callback : ℕ → Health → Health
    imu_callback now h = record h {
      received_imu = true;
      last_imu_time = now;
      imu_samples = prune_samples config.frequency_window_sec now (h.imu_samples ++ now ∷ []);
    }

    -- The part of getStatus that prunes.
    unfoldable pub refresh : ℕ → Health → Health
    refresh now h = record h {
      pointcloud_samples = prune_samples config.frequency_window_sec now h.pointcloud_samples;
      imu_samples = prune_samples config.frequency_window_sec now h.imu_samples;
    }

    -- The status of pruned samples.
    unfoldable pub status_of : ℕ → Health → SensorStatus Double
    status_of now h =
        let pointcloud_alive =
          h.received_pointcloud
          && le (elapsed now h.last_pointcloud_time) config.pointcloud_timeout_sec in
        let imu_alive = h.received_imu && le (elapsed now h.last_imu_time) config.imu_timeout_sec in
        let pointcloud_hz = calculate_frequency h.pointcloud_samples in
        let imu_hz = calculate_frequency h.imu_samples in
        record {
          pointcloud_alive = pointcloud_alive;
          imu_alive = imu_alive;
          pointcloud_hz = pointcloud_hz;
          imu_hz = imu_hz;
          pointcloud_rate_ok = le config.min_pointcloud_hz pointcloud_hz;
          imu_rate_ok = le config.min_imu_hz imu_hz;
          sensor_ready = pointcloud_alive && imu_alive;
          startup_grace_elapsed = le config.startup_grace_sec (elapsed now h.started_at);
        }

    unfoldable pub get_status : ℕ → Health → Health × SensorStatus Double
    get_status now h = let h' = refresh now h in (h', status_of now h')
