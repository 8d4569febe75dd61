-- ===== src/Process/Control.antt =====
-- ProcessManager: looking at a process, and starting it. A lock_guard block is one section.
use slam_system_manager.Base.{
  zero, suc, ◌+◌, ℤ, pos, negsuc, ltb, Bool, true, false, not, ◌&&◌, List, [], ◌∷◌, String, ◌+++◌,
  Option, none, some, if◌then◌else◌,
}
use slam_system_manager.Outcome.{Attempt, Outcome, value, throws}
use slam_system_manager.Steps.{Steps, act}
use slam_system_manager.Process.{
  ProcessRecord, eintr, echild, WaitStatus, exited, signaled, other_status, Waited, still_running,
  ended, wait_failed, Forked, child, fork_failed, Os, Processes, find, write_record,
}
use slam_system_manager.Process.Commands.{expand_command, merged}

abbrev pub is_positive : ℤ → Bool
is_positive (pos n) = ltb 0 n
is_positive (negsuc n) = false

-- `-pid`
abbrev pub negated : ℤ → ℤ
negated (pos zero) = pos 0
negated (pos (suc n)) = negsuc n
negated (negsuc n) = pos (suc n)

-- `==` on pid_t
abbrev pub same_pid : ℤ → ℤ → Bool
same_pid (pos m) (pos n) = not (ltb m n) && not (ltb n m)
same_pid (negsuc m) (negsuc n) = not (ltb m n) && not (ltb n m)
same_pid _ _ = false

abbrev pub no_process : ℤ
no_process = negsuc 0

unfoldable pub normalized_exit_code : WaitStatus → ℤ
normalized_exit_code (exited code) = pos code
normalized_exit_code (signaled signal) = pos (128 + signal)
normalized_exit_code other_status = negsuc 0

-- The part of refreshProcessLocked behind waitpid.
unfoldable pub note_wait : {D : Type 0} → Waited → ProcessRecord D → ProcessRecord D × Bool
note_wait still_running r = (r, true)
note_wait (ended status) r =
    (record r { pid = no_process; last_exit_code = some (normalized_exit_code status) }, false)
note_wait (wait_failed eintr) r = (r, true)
note_wait (wait_failed echild) r = (record r { pid = no_process }, false)
note_wait (wait_failed _) r = (r, true)

module _ (os : Os) where
  open os use {
    Double, World, lt, add, decimal, fork, set_group, waitpid, kill, now, sleep_for, nanoseconds,
    order,
  }

  -- The processes with the operating system, as the manager's sections find them.
  abbrev pub State : Type 0
  State = Processes Double World

  -- A system call outside the lock.
  abbrev pub call : {R : Type 0} → (World → World × R) → Steps State R
  call f = act λ s. let (w, r) = f s.os in (record s { os = w }, r)

  unfoldable pub refresh_process :
      ProcessRecord Double → World → World × ProcessRecord Double × Bool
  refresh_process r w =
      if not (is_positive r.pid)
      then (w, r, false)
      else let (w', waited) = waitpid r.pid w in
        let (r', running) = note_wait waited r in (w', r', running)

  -- refreshProcessLocked on the record of a name.
  unfoldable pub refresh_named : String → ProcessRecord Double → State → State × Bool
  refresh_named name r s =
      let (w, r', running) = refresh_process r s.os in
      (record { table = write_record name r' s.table; os = w }, running)

  -- The parent's part of startProcess behind fork.
  unfoldable pub note_fork : Forked → String → ProcessRecord Double → State → State × Attempt
  note_fork (fork_failed why) name r s =
      (s, (false, "fork() failed for " +++ name +++ ": " +++ why))
  note_fork (child pid) name r s = (
    record {
      table = write_record name (record r { pid = pid; last_exit_code = none }) s.table;
      os = (set_group pid s.os).0;
    },
    (true, ""),
  )

  unfoldable pub launch : String → ProcessRecord Double → String → State → State × Attempt
  launch name r command s =
      let (w, forked) = fork command r.config.working_directory s.os in
      note_fork forked name r (record s { os = w })

  -- startProcess behind the command's expansion.
  unfoldable pub launch_expanded :
      Outcome String → String → ProcessRecord Double → State → State × Attempt
  launch_expanded (throws what) name r s = (s, (false, what))
  launch_expanded (value command) name r s = launch name r command s

  -- startProcess on a known name.
  unfoldable pub start_known :
      String → List (String × String) → ProcessRecord Double → State → State × Attempt
  start_known name substitutions r s =
      let (s', running) = refresh_named name r s in
      if running
      then (s', (false, "Process is already running: " +++ name))
      else launch_expanded
          (expand_command r.config.command
            (order (merged r.config.substitutions (order substitutions))))
          name (refresh_process r s.os).1 s'

  -- startProcess behind `find`.
  unfoldable pub start_found :
      Option (ProcessRecord Double) → String → List (String × String) → State → State × Attempt
  start_found none name substitutions s = (s, (false, "Unknown process: " +++ name))
  start_found (some r) name substitutions s = start_known name substitutions r s

  unfoldable pub start_process : String → List (String × String) → State → State × Attempt
  start_process name substitutions s = start_found (find name s.table) name substitutions s

  unfoldable pub running_found : Option (ProcessRecord Double) → String → State → State × Bool
  running_found none name s = (s, false)
  running_found (some r) name s = refresh_named name r s

  unfoldable pub is_process_running : String → State → State × Bool
  is_process_running name s = running_found (find name s.table) name s

  unfoldable pub last_exit_code : String → State → State × Option ℤ
  last_exit_code name s = elim (find name s.table) [
    | none ↦ (s, none)
    | some r ↦ ((refresh_named name r s).0, (refresh_process r s.os).1.last_exit_code)
  ]

  abbrev pub names_of : List (String × ProcessRecord Double) → List String
  names_of [] = []
  names_of ((name, r) ∷ t) = name ∷ names_of t

  unfoldable pub process_names : State → State × List String
  process_names s = (s, names_of s.table)

  unfoldable pub auto_start_names : List (String × ProcessRecord Double) → List String
  auto_start_names [] = []
  auto_start_names ((name, r) ∷ t) =
      let rest = auto_start_names t in if r.config.auto_start then name ∷ rest else rest
