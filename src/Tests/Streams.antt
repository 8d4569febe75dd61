-- ===== src/Tests/Streams.antt =====
-- The theorems of the health monitor at concrete inputs.
use slam_system_manager.Base.{ℕ, ◌≤◌, ◌≡◌, refl, false, ltb, List, [], ◌∷◌, ◌-◌, ◌/◌, arith}
use slam_system_manager.Health.{SensorConfig, prune_samples, get_status}
use slam_system_manager.Health.Windows.{All, IsSorted, prune_samples-All}
use slam_system_manager.Health.Receipts.{
  Call, pointcloud, imu, query, within, last_pointcloud, last_imu, after_calls, get_status-ready,
}
use slam_system_manager.Tests.Simulation.{whole}

abbrev sensor_config : SensorConfig ℕ
sensor_config = record {
  pointcloud_timeout_sec = 1;
  imu_timeout_sec = 1;
  min_pointcloud_hz = 5;
  min_imu_hz = 20;
  frequency_window_sec = 2;
  startup_grace_sec = 3;
  active_failure_grace_sec = 5;
  health_check_hz = 10;
}

abbrev receipts : List Call
receipts = query 4000000000 ∷ imu 3000000000 ∷ pointcloud 2000000000 ∷ []

-- Samples of the seconds 1, 5 and 6, seen at second 7 with a window of two seconds.
abbrev queue : List ℕ
queue = 1000000000 ∷ 5000000000 ∷ 6000000000 ∷ []

queue_pruned : prune_samples whole 2 7000000000 queue ≡ 5000000000 ∷ 6000000000 ∷ []
unfolding prune_samples
queue_pruned = refl

later_fresh :
    (a b : ℕ)
    → a ≤ b
    → ltb 2 ((7000000000 - a) / 1000000000) ≡ false
    → ltb 2 ((7000000000 - b) / 1000000000) ≡ false
later_fresh a b h e = ground arith

queue-IsSorted : IsSorted queue
queue-IsSorted = ((omega arith, (omega arith, tt)), ((omega arith, tt), (tt, tt)))

prune_samples-All_example :
    All
      (λ u. ltb 2 ((7000000000 - u) / 1000000000) ≡ false)
      (prune_samples whole 2 7000000000 queue)
    × IsSorted (prune_samples whole 2 7000000000 queue)
prune_samples-All_example = prune_samples-All whole 2 7000000000 queue later_fresh queue-IsSorted

get_status-ready_example :
    ((get_status whole sensor_config 4000000000
        (after_calls whole sensor_config 0 receipts)).1.pointcloud_alive
      ≡ within whole sensor_config 1 4000000000 (last_pointcloud receipts))
    × ((get_status whole sensor_config 4000000000
          (after_calls whole sensor_config 0 receipts)).1.imu_alive
        ≡ within whole sensor_config 1 4000000000 (last_imu receipts))
    × ((get_status whole sensor_config 4000000000
          (after_calls whole sensor_config 0 receipts)).1.sensor_ready
        ≡ false)
get_status-ready_example = get_status-ready whole sensor_config 0 4000000000 receipts
