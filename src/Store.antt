-- ===== src/Store.antt =====
-- map_manager.cpp and .hpp: the maps under the map root. std::filesystem, the streams and yaml-cpp are
-- an interface.
pub mod Io
pub mod Names
pub mod Metadata
pub mod Operations
pub mod Laws
pub mod Listing
pub mod Maps
use slam_system_manager.Base.{ℕ, Bool, List, [], ◌∷◌, String, Option}
use slam_system_manager.Outcome.{Outcome}

-- MapMetadata
pub record MapMetadata : Type 0 where
  pub name : String
  pub created_at : String
  pub updated_at : String
  pub map_file : String
  pub frame_id : String

-- How an std::ofstream is written to and flushed.
pub data Written : Type 0 where
  written not_opened not_written : Written

-- The files, and what the program asks of them. Where a call takes an std::error_code, the text of the error
-- is a result; where it takes none, the call may throw. `scan` is a directory_iterator: the entries
-- that it visits, and the error that ends it. `load_file` is YAML::LoadFile, `emit` an emitter on a map of
-- texts (`none` if it is not good), `undefined` the text of `as` on a key that is missing.
pub record Files : Type 1 where
  pub World : Type 0
  pub FilePath : Type 0
  pub slash : FilePath → String → FilePath
  pub text_of : FilePath → String
  pub filename : FilePath → String
  pub parent_path : FilePath → FilePath
  pub lexically_normal : FilePath → FilePath
  pub same_path : FilePath → FilePath → Bool
  pub from_text : String → FilePath
  pub is_absolute : FilePath → Bool
  pub weakly_canonical : FilePath → World → Outcome FilePath
  pub exists : FilePath → World → Outcome Bool
  pub is_directory : FilePath → World → Outcome Bool
  pub is_regular_file : FilePath → World → Outcome Bool
  pub file_size : FilePath → World → ℕ × Option String
  pub scan : FilePath → World → List FilePath × Option String
  pub create_directories : FilePath → World → World × Option String
  pub create_directory : FilePath → World → World × (Bool × Option String)
  pub remove_all : FilePath → World → World × (ℕ × Option String)
  pub remove : FilePath → World → World × Outcome (Unit {0})
  pub rename : FilePath → FilePath → World → World × Option String
  pub write_file : FilePath → String → World → World × Written
  pub utc_now : World → World × String
  pub getpid : String
  pub Node : Type 0
  pub load_file : FilePath → World → Outcome Node
  pub child : Node → String → Option Node
  pub as_string : Node → Outcome String
  pub undefined : Node → String → String
  pub emit : List (String × String) → Option String
