-- ===== src/Adapters.antt =====
-- The adapters that start and stop processes through ProcessManager: what they ask of the operating system
-- and of ROS beside it.
pub mod Configuration
pub mod Localization
pub mod Mapping
pub mod MappingConfig
pub mod RuntimeConfig
pub mod Saved
pub mod Ready
use slam_system_manager.Base.{ℕ, ℤ, Bool, List, String, Option}
use slam_system_manager.Outcome.{Outcome}
use slam_system_manager.Yaml.{Yaml}
use slam_system_manager.Store.{Written}
use slam_system_manager.Process.{Os}

-- `is_regular_file` and `file_size` are those with an std::error_code, `count_publishers` is that of the node, which may throw, `double_text` and `int_text` std::to_string.
pub record Host : Type 1 where
  pub os : Os
  pub open os use *
  pub FilePath : Type 0
  pub is_absolute : FilePath → Bool
  pub filename : FilePath → String
  pub text_of : FilePath → String
  pub is_regular_file : FilePath → World → Bool
  pub file_size : FilePath → World → ℕ × Option String
  pub count_publishers : String → World → Outcome ℕ
  pub double_text : Double → String
  pub int_text : ℤ → String

-- What the mapping adapter asks for besides. `is_regular` and `is_directory` are those that may throw; `remove_file`
-- takes an std::error_code, `remove` throws. `call_service` sends the request and waits: `none` is a timeout, else
-- the response. `assign_text` and `assign_bool` are assignments to a key below the given ones of a node, `emit` an emitter on a node.
pub record MappingHost : Type 1 where
  pub host : Host
  pub open host use *
  pub yaml : Yaml Double
  pub slash : FilePath → String → FilePath
  pub from_text : String → FilePath
  pub parent_path : FilePath → FilePath
  pub has_parent_path : FilePath → Bool
  pub is_regular : FilePath → World → Outcome Bool
  pub is_directory : FilePath → World → Outcome Bool
  pub remove_file : FilePath → World → World × Option String
  pub remove : FilePath → World → World × Outcome (Unit {0})
  pub rename : FilePath → FilePath → World → World × Option String
  pub write_file : FilePath → String → World → World × Written
  pub getpid : String
  pub load_file : String → World → Outcome yaml.Node
  pub assign_text : List String → String → yaml.Node → yaml.Node
  pub assign_bool : List String → Bool → yaml.Node → yaml.Node
  pub emit : yaml.Node → Option String
  pub package_share_directory : String → Outcome FilePath
  pub service_is_ready : World → Bool
  pub wait_for_service : Double → World → World × Bool
  pub call_service : Double → World → World × Option (Bool × String)
