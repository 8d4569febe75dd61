-- ===== src/Config/Accepts.antt =====
-- What ConfigManager::load accepts, and what it leaves behind.
use slam_system_manager.Base.{
  is_empty, starts_at_root, ◌≡◌, refl, ◌↔◌, ◌⊎◌, inl, inr, ◌≤◌, ◌<◌, subst, true, false, String,
  ◌+++◌, arith,
}
use slam_system_manager.Doubles.{
  Doubles, Comparisons, IsPositive, IsNonNegative, not_le_iff-IsPositive, not_lt_iff-IsNonNegative,
}
use slam_system_manager.Outcome.{
  Outcome, value, throws, ◌>>=◌, >>=-ensures, relabelled, Outcome-cases,
}
use slam_system_manager.Yaml.{Yaml}
use slam_system_manager.Config.{SystemConfig, ConfigManager}
use slam_system_manager.Config.Load.{
  require_non_empty, require_absolute_topic, check_names, check_numbers, checked, read_system,
  parse_system, load, get,
}

-- A text that is not empty and starts with '/'.
abbrev pub IsAbsolute : String → Type 0
IsAbsolute s = starts_at_root s ≡ true

module _ (f : Doubles) where
  open f use {Double, lt, le, zero_d}

  -- An absolute root, absolute topics, and frames with names.
  pub record HasNames (c : SystemConfig Double) : Type 0 where
    pub root_absolute : IsAbsolute c.map_root
    pub frames_named :
        (is_empty c.frames.map ≡ false)
        × (is_empty c.frames.odom ≡ false)
        × (is_empty c.frames.base ≡ false)
        × (is_empty c.frames.lidar ≡ false)
    pub pointcloud_absolute : IsAbsolute c.topics.pointcloud
    pub imu_absolute : IsAbsolute c.topics.imu
    pub initial_pose_absolute : IsAbsolute c.topics.initial_pose
    pub localization_raw_odometry_absolute : IsAbsolute c.topics.localization_raw_odometry
    pub localization_correction_absolute : IsAbsolute c.topics.localization_correction
    pub localization_odometry_absolute : IsAbsolute c.topics.localization_odometry
    pub localization_pose_absolute : IsAbsolute c.topics.localization_pose
    pub system_status_absolute : IsAbsolute c.topics.system_status

  -- What load accepts, with the tests that it makes on the numbers.
  pub record IsAccepted (c : SystemConfig Double) : Type 0 where
    pub named : HasNames c
    pub publishes : le c.status_publish_hz zero_d ≡ false
    pub saves : le c.last_pose.save_interval_sec zero_d ≡ false
    pub waits : le c.relocalization.initial_pose_wait_timeout_sec zero_d ≡ false
    pub settles : lt c.relocalization.initial_pose_settle_sec zero_d ≡ false
    pub retries : 0 < c.relocalization.last_pose_retry_count
    pub retry_waits : le c.relocalization.last_pose_retry_interval_sec zero_d ≡ false
    pub subscribers : 2 ≤ c.relocalization.min_initial_pose_subscribers

  -- The same in words: the rate, the intervals and the timeout are greater than zero or NaN, and the settling time is at
  -- least zero or NaN.
  pub record IsProper (c : SystemConfig Double) : Type 0 where
    pub named : HasNames c
    pub publishes : IsPositive f c.status_publish_hz
    pub saves : IsPositive f c.last_pose.save_interval_sec
    pub waits : IsPositive f c.relocalization.initial_pose_wait_timeout_sec
    pub settles : IsNonNegative f c.relocalization.initial_pose_settle_sec
    pub retries : 0 < c.relocalization.last_pose_retry_count
    pub retry_waits : IsPositive f c.relocalization.last_pose_retry_interval_sec
    pub subscribers : 2 ≤ c.relocalization.min_initial_pose_subscribers

  IsAccepted-iff-IsProper : Comparisons f → (c : SystemConfig Double) → IsAccepted c ↔ IsProper c
  IsAccepted-iff-IsProper h c =
      let p = not_le_iff-IsPositive f h in
      let s = not_lt_iff-IsNonNegative f h c.relocalization.initial_pose_settle_sec in
      let rate = p c.status_publish_hz in
      let interval = p c.last_pose.save_interval_sec in
      let wait = p c.relocalization.initial_pose_wait_timeout_sec in
      let retry = p c.relocalization.last_pose_retry_interval_sec in
      (
        λ v. record {
          named = v.named;
          publishes = rate.0 v.publishes;
          saves = interval.0 v.saves;
          waits = wait.0 v.waits;
          settles = s.0 v.settles;
          retries = v.retries;
          retry_waits = retry.0 v.retry_waits;
          subscribers = v.subscribers;
        },
        λ v. record {
          named = v.named;
          publishes = rate.1 v.publishes;
          saves = interval.1 v.saves;
          waits = wait.1 v.waits;
          settles = s.1 v.settles;
          retries = v.retries;
          retry_waits = retry.1 v.retry_waits;
          subscribers = v.subscribers;
        },
      )

  absolute_not_empty : (s : String) → IsAbsolute s → is_empty s ≡ false
  unfolding is_empty starts_at_root
  absolute_not_empty String.[] h = cc
  absolute_not_empty (String.◌∷◌ c s) h = refl

  topic-IsAbsolute : (s key : String) → require_absolute_topic s key ≡ value tt → IsAbsolute s
  unfolding require_absolute_topic require_non_empty
  topic-IsAbsolute s key h = ground arith

  IsAbsolute-topic : (s key : String) → IsAbsolute s → require_absolute_topic s key ≡ value tt
  unfolding require_absolute_topic require_non_empty
  IsAbsolute-topic s key h = ground (arith, absolute_not_empty s h)

  checks-IsAccepted :
      (c : SystemConfig Double)
      → check_names f c ≡ value tt
      → check_numbers f c ≡ value tt
      → IsAccepted c
  unfolding check_names check_numbers require_non_empty
  checks-IsAccepted c p q = ground (
    arith,
    topic-IsAbsolute c.topics.pointcloud "topics.pointcloud",
    topic-IsAbsolute c.topics.imu "topics.imu",
    topic-IsAbsolute c.topics.initial_pose "topics.initial_pose",
    topic-IsAbsolute c.topics.localization_raw_odometry "topics.localization_raw_odometry",
    topic-IsAbsolute c.topics.localization_correction "topics.localization_correction",
    topic-IsAbsolute c.topics.localization_odometry "topics.localization_odometry",
    topic-IsAbsolute c.topics.localization_pose "topics.localization_pose",
    topic-IsAbsolute c.topics.system_status "topics.system_status",
  )

  IsAccepted-names : (c : SystemConfig Double) → IsAccepted c → check_names f c ≡ value tt
  unfolding check_names require_non_empty
  IsAccepted-names c v = ground (
    arith,
    absolute_not_empty c.map_root v.named.root_absolute,
    IsAbsolute-topic c.topics.pointcloud "topics.pointcloud",
    IsAbsolute-topic c.topics.imu "topics.imu",
    IsAbsolute-topic c.topics.initial_pose "topics.initial_pose",
    IsAbsolute-topic c.topics.localization_raw_odometry "topics.localization_raw_odometry",
    IsAbsolute-topic c.topics.localization_correction "topics.localization_correction",
    IsAbsolute-topic c.topics.localization_odometry "topics.localization_odometry",
    IsAbsolute-topic c.topics.localization_pose "topics.localization_pose",
    IsAbsolute-topic c.topics.system_status "topics.system_status",
  )

  IsAccepted-numbers : (c : SystemConfig Double) → IsAccepted c → check_numbers f c ≡ value tt
  unfolding check_numbers
  IsAccepted-numbers c v = ground arith

  checked-split :
      (c c' : SystemConfig Double)
      → checked f c ≡ value c'
      → (check_names f c ≡ value tt) × (check_numbers f c ≡ value tt) × (c ≡ c')
  unfolding checked
  checked-split c c' h = ground arith

  checked_iff-IsAccepted : (c : SystemConfig Double) → (checked f c ≡ value c) ↔ IsAccepted c
  unfolding checked
  checked_iff-IsAccepted c = (
    λ h. let (p, q, e) = checked-split c c h in checks-IsAccepted c p q,
    λ v. rw (IsAccepted-names c v) (rw (IsAccepted-numbers c v) refl),
  )

  -- Where the comparisons are those of IEEE 754, the checks of load accept a configuration, and return it as it is, exactly if
  -- its root and topics are absolute, its frames are named, the rate, the intervals and the waiting time are greater
  -- than zero or NaN, the settling time is at least zero or NaN, there is a retry, and there are at least two subscribers.
  pub checked_iff-IsProper :
      Comparisons f → (c : SystemConfig Double) → (checked f c ≡ value c) ↔ IsProper c
  checked_iff-IsProper h c =
      let (to, from) = checked_iff-IsAccepted c in
      let (proper, accepted) = IsAccepted-iff-IsProper h c in
      (λ e. proper (to e), λ v. from (accepted v))

  checked-IsAccepted : (c c' : SystemConfig Double) → checked f c ≡ value c' → IsAccepted c'
  checked-IsAccepted c c' h =
      let (p, q, e) = checked-split c c' h in subst IsAccepted e (checks-IsAccepted c p q)

  module _ (yaml : Yaml Double) (load_file : String → Outcome yaml.Node) where
    parse_system-IsAccepted :
        (path : String) (c : SystemConfig Double)
        → parse_system f yaml load_file path ≡ value c
        → IsAccepted c
    unfolding parse_system
    parse_system-IsAccepted path c h =
        >>=-ensures IsAccepted (λ root. read_system f yaml root >>= checked f)
          (λ root. >>=-ensures IsAccepted (checked f) checked-IsAccepted (read_system f yaml root))
          (relabelled ("Unable to load system config '" +++ path +++ "': ") (load_file path)) c h

    -- load either throws and leaves the manager as it was, or returns, and then get returns what the
    -- file said, which is accepted.
    pub load_cases :
        (path : String) (m : ConfigManager Double)
        → ((why : String) × (parse_system f yaml load_file path ≡ throws why)
            × (load f yaml load_file path m ≡ (m, throws why)))
          ⊎ ((c : SystemConfig Double) × (parse_system f yaml load_file path ≡ value c)
              × IsAccepted c
              × ((load f yaml load_file path m).1 ≡ value tt)
              × (get f (load f yaml load_file path m).0 ≡ value c))
    unfolding load get
    load_cases path m = elim (Outcome-cases (parse_system f yaml load_file path)) [
      | inl (c, e) ↦ inr (c, e, parse_system-IsAccepted path c e, rw (e, load), rw (e, load))
      | inr (why, e) ↦ inl (why, e, rw (e, load))
    ]
