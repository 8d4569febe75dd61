-- ===== src/Adapters/Localization.antt =====
-- LocalizationAdapter: starting and stopping the localization process.
use slam_system_manager.Outcome.{Attempt, Outcome, value, throws}
use slam_system_manager.Base.{
  ℕ, zero, suc, ◌+◌, ◌/◌, ◌==◌, ltb, ℤ, Bool, true, false, not, ◌||◌, List, [], ◌∷◌, String, ◌+++◌,
  str_eq, Option, none, some, if◌then◌else◌,
}
use slam_system_manager.Steps.{Steps, done, act, ◌>>=◌, ◌>>◌}
use slam_system_manager.Process.Control.{
  State, call, start_process, is_process_running, last_exit_code,
}
use slam_system_manager.Process.Stopping.{stop_process}
use slam_system_manager.Adapters.{Host}
use slam_system_manager.Adapters.Configuration.{LocalizationAdapterConfig}

-- joinTopics
unfoldable pub join_topics : List String → String
join_topics [] = ""
join_topics (topic ∷ []) = topic
join_topics (topic ∷ topics) = topic +++ ", " +++ join_topics topics

-- A loop that stops at an exception: the topic, and those that the rest of the loop finds missing.
abbrev pub add_missing : String → ℕ → Outcome (List String) → Outcome (List String)
add_missing topic publishers (throws why) = throws why
add_missing topic publishers (value topics) =
    value (if publishers == 0 then topic ∷ topics else topics)

module _ (host : Host) (config : LocalizationAdapterConfig host.Double) where
  open host use {
    os, Double, World, FilePath, now, sleep_for, nanoseconds, is_absolute, filename, text_of,
    is_regular_file, file_size, count_publishers, double_text, int_text,
  }

  -- requiredTopicsAvailable: the topics without a publisher, each looked at in a section of its own.
  unfoldable pub missing_topics : List String → Steps (State os) (Outcome (List String))
  missing_topics [] = done (value [])
  missing_topics (topic ∷ topics) = do
    counted ← act λ s. (s, count_publishers topic s.os)
    elim counted [
      | throws why ↦ done (throws why)
      | value publishers ↦ do rest ← missing_topics topics; done (add_missing topic publishers rest)
    ]

  unfoldable pub exit_code_text : Option ℤ → String
  exit_code_text none = "unknown"
  exit_code_text (some code) = int_text code

  abbrev pub missing_detail : List String → String
  missing_detail [] = "process did not remain stable"
  missing_detail (topic ∷ topics) = "missing publishers: " +++ join_topics (topic ∷ topics)

  -- The end of `start` behind its loop.
  unfoldable pub give_up : List String → Steps (State os) (Outcome Attempt)
  give_up missing = do
    stop_process os "localization"
    done (
        value (
          false,
          "Localization was not ready within "
              +++ double_text config.startup_timeout_sec
              +++ " seconds ("
              +++ missing_detail missing
              +++ ")",
        ))

  unfoldable pub exited_early : Steps (State os) (Outcome Attempt)
  exited_early = do
    code ← act (last_exit_code os "localization")
    done (
        value (
          false,
          "Localization process exited during startup (exit_code=" +++ exit_code_text code +++ ")",
        ))

  -- The 100 ms of the loop.
  abbrev pub startup_poll_ns : ℕ
  startup_poll_ns = 100000000

  -- A look at the topics, which ends the loop where none is missing.
  unfoldable pub look :
      (List String → Steps (State os) (Outcome Attempt)) → Steps (State os) (Outcome Attempt)
  look again = do
    looked ← missing_topics config.required_topics
    elim looked [
      | throws why ↦ done (throws why)
      | value [] ↦ done (value (true, ""))
      | value (topic ∷ topics) ↦ again (topic ∷ topics)
    ]

  -- The loop of `start`, on fuel, with the topics that the last round has missed.
  unfoldable pub startup_rounds : ℕ → ℕ → ℕ → List String → Steps (State os) (Outcome Attempt)
  startup_rounds zero deadline stable_at missing = give_up missing
  startup_rounds (suc fuel) deadline stable_at missing = do
    t ← call os now
    if not (ltb t deadline) then give_up missing else (do
      running ← act (is_process_running os "localization")
      if not running then exited_early else (do
        t' ← call os now
        if ltb t' stable_at
            then (do call os (sleep_for startup_poll_ns); startup_rounds fuel deadline stable_at [])
            else look (λ m. do
              call os (sleep_for startup_poll_ns)
              startup_rounds fuel deadline stable_at m)))

  unfoldable pub await_ready : Steps (State os) (Outcome Attempt)
  await_ready = do
    started_at ← call os now
    startup_rounds (nanoseconds config.startup_timeout_sec / startup_poll_ns + 2)
        (started_at + nanoseconds config.startup_timeout_sec)
        (started_at + nanoseconds config.startup_stability_sec) []

  -- `start` behind its checks.
  unfoldable pub start_checked : String → FilePath → Steps (State os) (Outcome Attempt)
  start_checked map_name map_path = do
    (started, why) ← act (
        start_process os "localization"
          (("map_name", map_name) ∷ ("map_path", text_of map_path) ∷ []))
    if started then await_ready else done (value (false, why))

  unfoldable pub start_localization : String → FilePath → Steps (State os) (Outcome Attempt)
  start_localization map_name map_path = do
    running ← act (is_process_running os "localization")
    if running
        then done (value (false, "Localization process is already running"))
        else if not (is_absolute map_path) || not (str_eq (filename map_path) "map.pcd")
        then done (value (false, "Localization map must be an absolute path ending in map.pcd"))
        else (do
          regular ← act λ s. (s, is_regular_file map_path s.os)
          if not regular
              then done (value (false, "Localization map does not exist: " +++ text_of map_path))
              else (do
                (size, error) ← act λ s. (s, file_size map_path s.os)
                elim error [
                  | some why ↦ done (
                      value
                        (false, "Localization map is empty or unreadable: " +++ text_of map_path))
                  | none ↦
                      if size == 0
                      then done (
                          value (
                            false,
                            "Localization map is empty or unreadable: " +++ text_of map_path,
                          ))
                      else start_checked map_name map_path
                ]))

  unfoldable pub stop_localization : Steps (State os) Attempt
  stop_localization = do
    running ← act (is_process_running os "localization")
    if running
        then stop_process os "localization"
        else done (false, "Localization process is not running")

  unfoldable pub localization_is_running : Steps (State os) Bool
  localization_is_running = act (is_process_running os "localization")
