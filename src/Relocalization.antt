-- ===== src/Relocalization.antt =====
-- relocalization_adapter.cpp and .hpp: the messages, the fields of RelocalizationAdapter, and what it asks of
-- ROS. Times are nanoseconds.
pub mod Validate
pub mod Session
pub mod LastPose
pub mod Reading
pub mod Requests
pub mod Saving
pub mod Trust
pub mod Calls
use slam_system_manager.Base.{ℕ, Bool, List, String, Option}
use slam_system_manager.Doubles.{Doubles}
use slam_system_manager.Quality.{Pose}
use slam_system_manager.Outcome.{Outcome}
use slam_system_manager.Yaml.{Yaml}
use slam_system_manager.Store.{Written}

-- geometry_msgs/PoseWithCovarianceStamped.
pub record StampedPose (D : Type 0) : Type 0 where
  pub stamp : ℕ
  pub frame_id : String
  pub pose : Pose D
  pub covariance : List D

-- nav_msgs/Odometry; `twist` holds the numbers of the twist.
pub record OdometryMessage (D : Type 0) : Type 0 where
  pub stamp : ℕ
  pub frame_id : String
  pub child_frame_id : String
  pub pose : Pose D
  pub covariance : List D
  pub twist : List D

pub record SaveRequest (P D : Type 0) : Type 0 where
  pub map_directory : P
  pub pose : StampedPose D

-- The fields behind data_mutex_ and save_mutex_, and the world that the calls reach.
pub record Adapter (P D W : Type 0) : Type 0 where
  pub localized : Bool
  pub correction_available : Bool
  pub relocalization_started_at : ℕ
  pub correction : OdometryMessage D
  pub latest_trusted_pose : Option (StampedPose D)
  pub pending_save : Option (SaveRequest P D)
  pub stop_worker : Bool
  pub world : W

-- What an emitter is given under a key: a text, or a map of numbers.
pub data Member (D : Type 0) : Type 0 where
  text : String → Member D
  numbers : List (String × D) → Member D

-- ROS, the files and the node's callbacks. `zero_odometry` and `zero_covariance` are a message and a covariance as they are constructed, `compose` the
-- product of two transforms that tf2 reads from poses and writes as one. `steady_now` and `sleep_for` are those of
-- the steady clock, `ros_now` is the node's clock. `emit` is an emitter (`none` if it is not good), `rename`
-- gives the text of its std::error_code, `remove` that of its exception.
pub record Ros : Type 1 where
  pub doubles : Doubles
  pub open doubles use *
  pub yaml : Yaml Double
  pub World : Type 0
  pub FilePath : Type 0
  pub zero_odometry : OdometryMessage Double
  pub zero_covariance : List Double
  pub compose : Pose Double → Pose Double → Pose Double
  pub ok : World → Bool
  pub ros_now : World → World × ℕ
  pub steady_now : World → World × ℕ
  pub sleep_for : ℕ → World → World × Unit {0}
  pub nanoseconds : Double → ℕ
  pub subscription_count : World → ℕ
  pub publish_initial_pose_message : StampedPose Double → World → World
  pub publish_localization_odometry : OdometryMessage Double → World → World
  pub publish_localization_pose : StampedPose Double → World → World
  pub initial_pose_callback : StampedPose Double → World → World
  pub localization_confirmed_callback : World → World
  pub slash : FilePath → String → FilePath
  pub text_of : FilePath → String
  pub lexically_normal : FilePath → FilePath
  pub parent_path : FilePath → FilePath
  pub same_path : FilePath → FilePath → Bool
  pub from_text : String → FilePath
  pub is_absolute : FilePath → Bool
  pub is_directory : FilePath → World → Outcome Bool
  pub is_regular_file : FilePath → World → Outcome Bool
  pub load_file : FilePath → World → Outcome yaml.Node
  pub emit : List (String × Member Double) → Option String
  pub write_file : FilePath → String → World → World × Written
  pub rename : FilePath → FilePath → World → World × Option String
  pub remove : FilePath → World → World × Option String
  pub getpid : String
