-- ===== src/Health/Receipts.antt =====
-- HealthMonitor as a function of the messages that have come: which streams count as alive.
use slam_system_manager.Base.{ℕ, ◌≡◌, refl, Bool, false, ◌&&◌, Option, none, some, List, [], ◌∷◌}
use slam_system_manager.Doubles.{Doubles}
use slam_system_manager.Health.{
  SensorConfig, Health, pointcloud_callback, imu_callback, refresh, status_of, get_status,
}

-- The calls of the monitor, each with the time that it reads.
pub data Call : Type 0 where
  pointcloud imu query : ℕ → Call

-- The time of the latest message of each kind. The newest call is the first.
abbrev pub last_pointcloud : List Call → Option ℕ
last_pointcloud [] = none
last_pointcloud (pointcloud t ∷ cs) = some t
last_pointcloud (imu t ∷ cs) = last_pointcloud cs
last_pointcloud (query t ∷ cs) = last_pointcloud cs

abbrev pub last_imu : List Call → Option ℕ
last_imu [] = none
last_imu (imu t ∷ cs) = some t
last_imu (pointcloud t ∷ cs) = last_imu cs
last_imu (query t ∷ cs) = last_imu cs

-- The monitor behind its constructor.
abbrev pub started : ℕ → Health
started t = record {
  started_at = t;
  last_pointcloud_time = 0;
  last_imu_time = 0;
  received_pointcloud = false;
  received_imu = false;
  pointcloud_samples = [];
  imu_samples = [];
}

module _ (f : Doubles) (config : SensorConfig f.Double) where
  open f use {Double, le, elapsed}

  -- Whether a stream with this latest message is within its timeout.
  abbrev pub within : Double → ℕ → Option ℕ → Bool
  within timeout now none = false
  within timeout now (some t) = le (elapsed now t) timeout

  unfoldable pub after_calls : ℕ → List Call → Health
  after_calls start [] = started start
  after_calls start (pointcloud t ∷ cs) = pointcloud_callback f config t (after_calls start cs)
  after_calls start (imu t ∷ cs) = imu_callback f config t (after_calls start cs)
  after_calls start (query t ∷ cs) = (get_status f config t (after_calls start cs)).0

  pointcloud_alive-within :
      (start now : ℕ) (cs : List Call)
      → (status_of f config now (after_calls start cs)).pointcloud_alive
        ≡ within config.pointcloud_timeout_sec now (last_pointcloud cs)
  unfolding after_calls pointcloud_callback imu_callback get_status refresh status_of
  pointcloud_alive-within start now [] = refl
  pointcloud_alive-within start now (pointcloud t ∷ cs) = refl
  pointcloud_alive-within start now (imu t ∷ cs) = pointcloud_alive-within start now cs
  pointcloud_alive-within start now (query t ∷ cs) = pointcloud_alive-within start now cs

  imu_alive-within :
      (start now : ℕ) (cs : List Call)
      → (status_of f config now (after_calls start cs)).imu_alive
        ≡ within config.imu_timeout_sec now (last_imu cs)
  unfolding after_calls pointcloud_callback imu_callback get_status refresh status_of
  imu_alive-within start now [] = refl
  imu_alive-within start now (imu t ∷ cs) = refl
  imu_alive-within start now (pointcloud t ∷ cs) = imu_alive-within start now cs
  imu_alive-within start now (query t ∷ cs) = imu_alive-within start now cs

  -- After any calls, getStatus reports each stream as alive exactly if its latest message is within the
  -- timeout, and the sensor as ready exactly if both are alive, whatever their frequencies.
  pub get_status-ready :
      (start now : ℕ) (cs : List Call)
      → ((get_status f config now (after_calls start cs)).1.pointcloud_alive
          ≡ within config.pointcloud_timeout_sec now (last_pointcloud cs))
        × ((get_status f config now (after_calls start cs)).1.imu_alive
            ≡ within config.imu_timeout_sec now (last_imu cs))
        × ((get_status f config now (after_calls start cs)).1.sensor_ready ≡ (
            within config.pointcloud_timeout_sec now (last_pointcloud cs)
            && within config.imu_timeout_sec now (last_imu cs)))
  unfolding get_status refresh status_of
  get_status-ready start now cs =
      let p = pointcloud_alive-within start now cs in
      let i = imu_alive-within start now cs in (p, i, rw p (rw i refl))
