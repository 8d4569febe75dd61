-- ===== src/Process/Stopping.antt =====
-- ProcessManager: stopping a process. A lock_guard block is one section.
use slam_system_manager.Base.{
  ℕ, zero, suc, ◌+◌, ◌/◌, ℤ, ltb, Bool, true, false, not, String, ◌+++◌, Option, none, some,
  if◌then◌else◌,
}
use slam_system_manager.Outcome.{Attempt, Outcome, value, throws}
use slam_system_manager.Steps.{Steps, done, act, ◌>>=◌, ◌>>◌}
use slam_system_manager.Process.{
  ProcessConfig, ProcessRecord, Signal, sigint, sigterm, sigkill, esrch, Os, find,
}
use slam_system_manager.Process.Control.{negated, same_pid, State, call, refresh_named}

-- kStopPollInterval
abbrev pub poll_ns : ℕ
poll_ns = 50000000

module _ (os : Os) where
  open os use {
    Double, World, lt, add, decimal, fork, set_group, waitpid, kill, now, sleep_for, nanoseconds,
    order,
  }

  unfoldable pub signal_process_group : ℤ → Signal → Steps (State os) Bool
  signal_process_group pid signal = do
    failed ← call os (kill (negated pid) signal)
    elim failed [
      | none ↦ done true
      | some esrch ↦ do
        failed' ← call os (kill pid signal)
        elim failed' [ none ↦ done true | some esrch ↦ done true | some _ ↦ done false ]
      | some _ ↦ done false
    ]

  unfoldable pub check_found :
      Option (ProcessRecord Double) → String → ℤ → (State os) → (State os) × Bool
  check_found none name pid s = (s, true)
  check_found (some r) name pid s =
      let (s', running) = refresh_named os name r s in
      if not (same_pid r.pid pid) then (s, true) else (s', not running)

  -- Whether the process that had this number is no longer the one of the name.
  unfoldable pub check_exit : String → ℤ → (State os) → (State os) × Bool
  check_exit name pid s = check_found (find name s.table) name pid s

  -- The loop of waitForExit, on fuel.
  unfoldable pub wait_rounds : ℕ → String → ℤ → ℕ → Steps (State os) Bool
  wait_rounds zero name pid deadline = done false
  wait_rounds (suc fuel) name pid deadline = do
    gone ← act (check_exit name pid)
    if gone then done true else (do
      call os (sleep_for poll_ns)
      t ← call os now
      if ltb t deadline then wait_rounds fuel name pid deadline else done false)

  unfoldable pub wait_for_exit : String → ℤ → Double → Steps (State os) Bool
  wait_for_exit name pid timeout = do
    started ← call os now
    wait_rounds (nanoseconds timeout / poll_ns + 2) name pid (started + nanoseconds timeout)

  unfoldable pub begin_found :
      Option (ProcessRecord Double)
      → String
      → (State os)
      → (State os) × Outcome (ℤ × ProcessConfig Double)
  begin_found none name s = (s, throws ("Unknown process: " +++ name))
  begin_found (some r) name s =
      let (s', running) = refresh_named os name r s in
      if running
      then (s', value (r.pid, r.config))
      else (s', throws ("Process is not running: " +++ name))

  -- The section at the start of stopProcess: the process to stop, or why there is none.
  unfoldable pub begin_stop : String → (State os) → (State os) × Outcome (ℤ × ProcessConfig Double)
  begin_stop name s = begin_found (find name s.table) name s

  -- One signal, and the time that the process has to end.
  unfoldable pub stop_by : Signal → Double → String → ℤ → Steps (State os) Bool
  stop_by signal timeout name pid = do
    signal_process_group pid signal
    wait_for_exit name pid timeout

  unfoldable pub escalate : String → ℤ → ProcessConfig Double → Steps (State os) Attempt
  escalate name pid config = do
    interrupted ← stop_by sigint config.sigint_timeout_sec name pid
    if interrupted then done (true, "") else (do
      terminated ← stop_by sigterm config.sigterm_timeout_sec name pid
      if terminated then done (true, "") else (do
        killed ← stop_by sigkill (decimal 2 0) name pid
        if killed
            then done (true, "")
            else done (false, "Process could not be reaped after SIGKILL: " +++ name)))

  unfoldable pub stop_process : String → Steps (State os) Attempt
  stop_process name = do
    target ← act (begin_stop name)
    elim target [ throws why ↦ done (false, why) | value (pid, config) ↦ escalate name pid config ]
