-- ===== src/Process.antt =====
-- process_manager.hpp: the table of managed processes, and what the manager asks of the operating
-- system.
pub mod Commands
pub mod Control
pub mod Groups
pub mod Load
pub mod Loaded
pub mod Resolved
pub mod Started
pub mod Stopping
pub mod Stops
pub mod Table
pub mod Waits
use slam_system_manager.Base.{
  ℕ, ℤ, pos, negsuc, ltb, Bool, false, List, [], ◌∷◌, String, str_eq, Option, none, some,
  if◌then◌else◌,
}
use slam_system_manager.Doubles.{Doubles}

pub record ProcessConfig (D : Type 0) : Type 0 where
  pub command : String
  pub working_directory : String
  pub substitutions : List (String × String)
  pub auto_start : Bool
  pub sigint_timeout_sec : D
  pub sigterm_timeout_sec : D

-- No process is -1.
pub record ProcessRecord (D : Type 0) : Type 0 where
  pub config : ProcessConfig D
  pub pid : ℤ
  pub last_exit_code : Option ℤ

pub data Signal : Type 0 where
  sigint sigterm sigkill : Signal

-- The values of errno that the manager tells apart.
pub data Errno : Type 0 where
  eintr echild esrch other_errno : Errno

-- What a wait status says: WIFEXITED with WEXITSTATUS, WIFSIGNALED with WTERMSIG, or neither.
pub data WaitStatus : Type 0 where
  exited signaled : ℕ → WaitStatus
  other_status : WaitStatus

-- The result of waitpid with WNOHANG: 0, the process, or -1 with errno.
pub data Waited : Type 0 where
  still_running : Waited
  ended : WaitStatus → Waited
  wait_failed : Errno → Waited

-- The result of fork in the parent: the child, or -1 with the text of errno.
pub data Forked : Type 0 where
  child : ℤ → Forked
  fork_failed : String → Forked

-- System calls, on the state of all processes and of the clock. `fork command directory` also covers
-- the child's way to `bash -c command` in that directory, `set_group` the parent's setpgid. `order` is
-- the order in which a loop visits an unordered_map.
pub record Os : Type 1 where
  pub doubles : Doubles
  pub open doubles use *
  pub World : Type 0
  pub fork : String → String → World → World × Forked
  pub set_group : ℤ → World → World × Unit {0}
  pub waitpid : ℤ → World → World × Waited
  -- `none` if it returns 0
  pub kill : ℤ → Signal → World → World × Option Errno
  pub now : World → World × ℕ
  pub sleep_for : ℕ → World → World × Unit {0}
  pub nanoseconds : Double → ℕ
  pub order : List (String × String) → List (String × String)

-- The fields behind the manager's mutex, and the world that its calls reach.
pub record Processes (D W : Type 0) : Type 0 where
  pub table : List (String × ProcessRecord D)
  pub os : W

module _ {D : Type 0} where
  -- `find` on the map.
  unfoldable pub find : String → List (String × ProcessRecord D) → Option (ProcessRecord D)
  find name [] = none
  find name ((key, r) ∷ t) = if str_eq key name then some r else find name t

  -- A write through the iterator that `find` gave.
  unfoldable pub write_record :
      String → ProcessRecord D → List (String × ProcessRecord D) → List (String × ProcessRecord D)
  write_record name r [] = []
  write_record name r ((key, old) ∷ t) =
      if str_eq key name then (key, r) ∷ t else (key, old) ∷ write_record name r t
