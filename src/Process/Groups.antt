-- ===== src/Process/Groups.antt =====
-- ProcessManager: restarting a process, and the operations on all of them.
use slam_system_manager.Outcome.{Attempt}
use slam_system_manager.Base.{
  Bool, true, false, ◌||◌, List, [], ◌∷◌, String, ◌+++◌, str_eq, if◌then◌else◌,
}
use slam_system_manager.Steps.{Steps, done, act, ◌>>=◌, ◌>>◌}
use slam_system_manager.Process.{ProcessRecord, Os}
use slam_system_manager.Process.Control.{
  State, refresh_process, start_process, is_process_running, process_names, auto_start_names,
}
use slam_system_manager.Process.Stopping.{stop_process}

module _ (os : Os) where
  open os use {
    Double, World, lt, add, decimal, fork, set_group, waitpid, kill, now, sleep_for, nanoseconds,
    order,
  }

  unfoldable pub restart_process : String → List (String × String) → Steps (State os) Attempt
  restart_process name substitutions = do
    running ← act (is_process_running os name)
    (stopped, why) ← if running then stop_process os name else done (true, "")
    if stopped then act (start_process os name substitutions) else done (false, why)

  unfoldable pub stop_each : List String → Steps (State os) (Unit {0})
  stop_each [] = done tt
  stop_each (name ∷ names) = do
    running ← act (is_process_running os name)
    (if running then (do stop_process os name; done tt) else done tt)
    stop_each names

  unfoldable pub stop_all : Steps (State os) (Unit {0})
  stop_all = do names ← act (process_names os); stop_each names

  -- The loop of startAutoStartProcesses: whether all started, and their errors joined.
  unfoldable pub start_each : List String → Bool → String → Steps (State os) Attempt
  start_each [] success errors = done (success, errors)
  start_each (name ∷ names) success errors = do
    (started, why) ← act (start_process os name [])
    if started
        then start_each names success errors
        else start_each names false ((if str_eq errors "" then errors else errors +++ "; ") +++ why)

  abbrev pub member : String → List String → Bool
  member name [] = false
  member name (x ∷ xs) = str_eq x name || member name xs

  unfoldable pub without : List String → List String → List String
  without excluded [] = []
  without excluded (name ∷ names) =
      let rest = without excluded names in if member name excluded then rest else name ∷ rest

  unfoldable pub start_auto_start : List String → Steps (State os) Attempt
  start_auto_start excluded = do
    names ← act λ s. (s, without excluded (auto_start_names os s.table))
    start_each names true ""

  -- One round of the monitor thread.
  unfoldable pub refresh_all :
      List (String × ProcessRecord Double) → World → World × List (String × ProcessRecord Double)
  refresh_all [] w = (w, [])
  refresh_all ((name, r) ∷ t) w =
      let (w', r', running) = refresh_process os r w in
      let (w'', t') = refresh_all t w' in (w'', (name, r') ∷ t')

  unfoldable pub monitor_round : (State os) → (State os) × Unit {0}
  monitor_round s = let (w, t) = refresh_all s.table s.os in (record { table = t; os = w }, tt)
