-- ===== src/Adapters/Saved.antt =====
-- What a start of mapping and a save that report success have seen.
use slam_system_manager.Base.{
  ℕ, ◌==◌, ◌≡◌, refl, ap, ◌∙◌, Bool, true, false, not, [], ◌∷◌, String, Option, none, some, inl,
  inr, if_both,
}
use slam_system_manager.Outcome.{Attempt, Outcome, value, throws}
use slam_system_manager.Steps.{Steps, Ends, Ends-bind, Ends-any}
use slam_system_manager.Process.{Os, ProcessRecord, find}
use slam_system_manager.Process.Control.{
  State, is_positive, refresh_named, start_process, running_found, is_process_running,
}
use slam_system_manager.Process.Stopping.{stop_process}
use slam_system_manager.Process.Table.{refresh_process_cases, refresh_named-find}
use slam_system_manager.Adapters.{MappingHost}
use slam_system_manager.Adapters.MappingConfig.{MappingAdapterConfig}
use slam_system_manager.Adapters.Mapping.{
  save_service_available, check_started, await_service, start_prepared, start_mapping, check_size,
  check_regular, check_saved, check_response, request_save, save_map,
}

module _ (os : Os) where
  -- The table has a record of this name with the number of a process.
  abbrev pub IsRunning : String → State os → Type 0
  IsRunning name s =
      (r : ProcessRecord os.Double) × (find name s.table ≡ some r) × (is_positive r.pid ≡ true)

  running_found-IsRunning :
      (o : Option (ProcessRecord os.Double)) (name : String) (s : State os)
      → find name s.table ≡ o
      → (running_found os o name s).1 ≡ true
      → IsRunning name (running_found os o name s).0
  unfolding running_found
  running_found-IsRunning none name s e h = cc
  running_found-IsRunning (some r) name s e h = elim (refresh_process_cases os r s.os) [
    | inl (stopped, _) ↦ absurd (unfold refresh_named in cc)
    | inr (running, same, p) ↦ (r, refresh_named-find os name r r s e ∙ ap some same, p)
  ]

  is_process_running-IsRunning :
      (name : String) (s : State os)
      → (is_process_running os name s).1 ≡ true
      → IsRunning name (is_process_running os name s).0
  unfolding is_process_running
  is_process_running-IsRunning name s = running_found-IsRunning (find name s.table) name s refl

module _ (host : MappingHost) (config : MappingAdapterConfig host.Double) where
  open host use {
    os, World, FilePath, filename, text_of, parent_path, is_regular, file_size, service_is_ready,
    wait_for_service, call_service, remove_file,
  }

  abbrev pub IsStarted : State os → Attempt → Type 0
  IsStarted s a = a.0 ≡ true → IsRunning os "mapping" s

  check_started-IsStarted : (s : State os) → Ends IsStarted (check_started host config) s
  unfolding check_started
  check_started-IsStarted s = λ t.
      if_both
        (λ (p : Steps (State os) Attempt). Ends IsStarted p (is_process_running os "mapping" t).0)
        (is_process_running os "mapping" t).1 (λ e _. is_process_running-IsRunning os "mapping" t e)
        (λ _ u h. cc)

  await_service-IsStarted : (s : State os) → Ends IsStarted (await_service host config) s
  unfolding await_service
  await_service-IsStarted s = λ t.
      let asked = wait_for_service config.startup_timeout_sec t.os in
      if_both (λ (p : Steps (State os) Attempt). Ends IsStarted p (record t { os = asked.0 }))
        asked.1 (λ _. check_started-IsStarted _)
        (λ _.
          Ends-bind (λ _ _. Unit {0}) IsStarted (stop_process os "mapping") _ _
            (Ends-any (stop_process os "mapping") _) (λ u a x h. cc))

  start_prepared-IsStarted :
      (map_name : String) (map_path : FilePath) (o : Outcome FilePath) (s : State os)
      → Ends IsStarted (start_prepared host config map_name map_path o) s
  unfolding start_prepared
  start_prepared-IsStarted map_name map_path (throws what) s = λ h. cc
  start_prepared-IsStarted map_name map_path (value runtime) s = λ t.
      let begun =
        start_process os "mapping"
          (("map_name", map_name)
            ∷ ("map_path", text_of map_path)
            ∷ ("config_path", text_of (parent_path runtime))
            ∷ ("config_file", filename runtime)
            ∷ [])
          t in
      if_both (λ (p : Steps (State os) Attempt). Ends IsStarted p begun.0) begun.1.0
        (λ _. await_service-IsStarted begun.0) (λ _ h. cc)

  -- Whatever other threads do between its sections, a start of mapping that reports success ends with the
  -- number of a process in the record of mapping.
  pub start_mapping-IsStarted :
      (map_name : String) (map_path : FilePath) (s : State os)
      → Ends IsStarted (start_mapping host config map_name map_path) s
  unfolding start_mapping save_service_available
  start_mapping-IsStarted map_name map_path s = λ t.
      if_both
        (λ (p : Steps (State os) Attempt). Ends IsStarted p (is_process_running os "mapping" t).0)
        (is_process_running os "mapping" t).1 (λ _ h. cc)
        (λ _ u.
          if_both (λ (p : Steps (State os) Attempt). Ends IsStarted p u) (service_is_ready u.os)
            (λ _ h. cc) (λ _ v. start_prepared-IsStarted map_name map_path _ _))

  -- The file of the map has a size, and it is not 0.
  abbrev pub IsSaved : FilePath → State os → Outcome Attempt → Type 0
  IsSaved path s a =
      (why : String)
      → a ≡ value (true, why)
      → ((file_size path s.os).1 ≡ none) × (((file_size path s.os).0 == 0) ≡ false)

  check_size-IsSaved :
      (size : ℕ × Option String) (map_path : FilePath) (s : State os)
      → file_size map_path s.os ≡ size
      → IsSaved map_path s (check_size host config map_path size)
  unfolding check_size
  check_size-IsSaved (size, some why) map_path s e = λ w h. cc
  check_size-IsSaved (size, none) map_path s e =
      if_both (λ (a : Outcome Attempt). IsSaved map_path s a) (size == 0) (λ _ w h. cc)
        (λ f w h. (ap (λ u. u.1) e, ap (λ u. u.0 == 0) e ∙ f))

  check_regular-IsSaved :
      (o : Outcome Bool) (map_path : FilePath) (s : State os)
      → Ends (IsSaved map_path) (check_regular host config map_path o) s
  unfolding check_regular
  check_regular-IsSaved (throws what) map_path s = λ w h. cc
  check_regular-IsSaved (value false) map_path s = λ w h. cc
  check_regular-IsSaved (value true) map_path s =
      λ t. check_size-IsSaved (file_size map_path t.os) map_path t refl

  check_response-IsSaved :
      (map_path : FilePath) (o : Option (Bool × String)) (s : State os)
      → Ends (IsSaved map_path) (check_response host config map_path o) s
  unfolding check_response check_saved
  check_response-IsSaved map_path none s = λ w h. cc
  check_response-IsSaved map_path (some (false, why)) s = λ w h. cc
  check_response-IsSaved map_path (some (true, why)) s =
      λ t. check_regular-IsSaved (is_regular map_path t.os) map_path t

  request_save-IsSaved :
      (map_path : FilePath) (o : Option String) (s : State os)
      → Ends (IsSaved map_path) (request_save host config map_path o) s
  unfolding request_save
  request_save-IsSaved map_path (some why) s = λ w h. cc
  request_save-IsSaved map_path none s = λ t. check_response-IsSaved map_path _ _

  -- Whatever other threads do between its sections, saveMap that returns true ends with a file of the map
  -- whose size can be read and is not 0.
  pub save_map-IsSaved :
      (map_path : FilePath) (s : State os)
      → Ends (IsSaved map_path) (save_map host config map_path) s
  unfolding save_map save_service_available
  save_map-IsSaved map_path s = λ t.
      if_both
        (λ (p : Steps (State os) (Outcome Attempt)).
          Ends (IsSaved map_path) p (is_process_running os "mapping" t).0)
        (not (is_process_running os "mapping" t).1) (λ _ w h. cc)
        (λ _ u.
          if_both (λ (p : Steps (State os) (Outcome Attempt)). Ends (IsSaved map_path) p u)
            (not (service_is_ready u.os)) (λ _ w h. cc) (λ _ v. request_save-IsSaved map_path _ _))
