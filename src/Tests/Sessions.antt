-- ===== src/Tests/Sessions.antt =====
-- The theorems of the relocalization adapter at concrete inputs.
use slam_system_manager.Base.{
  ℕ, ◌+◌, ◌≡◌, ◌↔◌, ◌⊎◌, refl, true, false, none, some, [], String, arith,
}
use slam_system_manager.Outcome.{value}
use slam_system_manager.Steps.{alone}
use slam_system_manager.Quality.{Pose}
use slam_system_manager.Store.{written}
use slam_system_manager.Relocalization.{StampedPose, OdometryMessage, Ros}
use slam_system_manager.Relocalization.Validate.{
  IsUsable, IsUnit, validate_pose, validate_pose_iff-IsUsable,
}
use slam_system_manager.Relocalization.Session.{Here}
use slam_system_manager.Relocalization.Saving.{request_last_pose_save}
use slam_system_manager.Relocalization.LastPose.{under_root}
use slam_system_manager.Relocalization.Calls.{localized, body, first, Interleaved, nothing, next}
use slam_system_manager.Relocalization.Session.{set_localized}
use slam_system_manager.Relocalization.Trust.{IsSound, Interleaved-IsSound}
use slam_system_manager.Relocalization.Requests.{request_last_pose_save_cases}
use slam_system_manager.Tests.Simulation.{whole}
use slam_system_manager.Tests.Configs.{system_file, system_config}

abbrev origin : Pose ℕ
origin = record {
  position = record { x = 1; y = 0; z = 0 };
  orientation = record { x = 0; y = 0; z = 0; w = 1 };
}

abbrev still : OdometryMessage ℕ
still = record {
  stamp = 8;
  frame_id = "odom";
  child_frame_id = "base";
  pose = origin;
  covariance = [];
  twist = [];
}

-- A world that is a clock.
abbrev node : Ros
node = record {
  doubles = whole;
  yaml = system_file;
  World = ℕ;
  FilePath = String;
  zero_odometry = still;
  zero_covariance = [];
  compose = λ p q. q;
  ok = λ w. true;
  ros_now = λ w. (w, w);
  steady_now = λ w. (w, w);
  sleep_for = λ n w. (w + n, tt);
  nanoseconds = λ n. n;
  subscription_count = λ w. 2;
  publish_initial_pose_message = λ p w. w;
  publish_localization_odometry = λ m w. w;
  publish_localization_pose = λ p w. w;
  initial_pose_callback = λ p w. w;
  localization_confirmed_callback = λ w. w;
  slash = λ p name. name;
  text_of = λ p. p;
  lexically_normal = λ p. p;
  parent_path = λ p. "/a";
  same_path = λ p q. true;
  from_text = λ s. s;
  is_absolute = λ p. true;
  is_directory = λ p w. value true;
  is_regular_file = λ p w. value true;
  load_file = λ p w. value "";
  emit = λ l. some "pose";
  write_file = λ p text w. (w, written);
  rename = λ p q w. (w, none);
  remove = λ p w. (w, none);
  getpid = "1";
}

abbrev guess : StampedPose ℕ
guess = record { stamp = 5; frame_id = "/a"; pose = origin; covariance = [] }

abbrev session : Here node system_config
session = record {
  localized = true;
  correction_available = true;
  relocalization_started_at = 3;
  correction = still;
  latest_trusted_pose = some guess;
  pending_save = none;
  stop_worker = false;
  world = 10;
}

session-IsSound : IsSound node system_config session
session-IsSound = record { trusts = λ p e. refl; corrects = λ e. omega arith }

-- setLocalized(false) while nothing else runs.
given_up :
    Interleaved node system_config session
      (record session { localized = false; latest_trusted_pose = none })
unfolding body set_localized
given_up = next session session (localized false) _ (nothing session) (first _ _)

Interleaved-IsSound_example :
    IsSound node system_config (record session { localized = false; latest_trusted_pose = none })
Interleaved-IsSound_example =
    Interleaved-IsSound node system_config session
      (record session { localized = false; latest_trusted_pose = none }) session-IsSound given_up

validate_pose_iff-IsUsable_example :
    (((validate_pose whole guess "/a").1.0 ≡ true) ↔ IsUsable whole "/a" guess)
    × ((validate_pose whole guess "/a").1.0 ≡ true
        → ((validate_pose whole guess "/a").0.frame_id ≡ "/a")
          × ((validate_pose whole guess "/a").0.pose.position ≡ guess.pose.position)
          × IsUnit whole guess.pose.orientation (validate_pose whole guess "/a").0.pose.orientation)
validate_pose_iff-IsUsable_example = validate_pose_iff-IsUsable whole guess "/a"

request_last_pose_save_cases_example :
    ((p : StampedPose ℕ) × (system_config.last_pose.enable ≡ true)
      × (under_root node system_config "/a/office" ≡ true)
      × (node.is_directory "/a/office" session.world ≡ value true)
      × (session.localized ≡ true)
      × (session.latest_trusted_pose ≡ some p)
      × (alone (request_last_pose_save node system_config "/a/office") session ≡ (
        record session { pending_save = some (record { map_directory = "/a/office"; pose = p }) },
        value (true, ""),
      )))
    ⊎ (((alone (request_last_pose_save node system_config "/a/office") session).0 ≡ session)
        × (¬ (
            (why : String) × ((alone
                (request_last_pose_save node system_config "/a/office")
                session).1
              ≡ value (true, why)))))
request_last_pose_save_cases_example =
    request_last_pose_save_cases node system_config "/a/office" session
