-- ===== src/Adapters/Ready.antt =====
-- What a start of localization that reports success has seen.
use slam_system_manager.Outcome.{Outcome, Attempt, value, throws}
use slam_system_manager.Base.{
  ℕ, zero, suc, ◌==◌, ltb, ◌≡◌, refl, true, false, not, ◌||◌, List, [], ◌∷◌, String, ◌+++◌, str_eq,
  Option, none, some, if_both, arith, if◌then◌else◌,
}
use slam_system_manager.Steps.{Steps, done, ◌>>=◌, Watched, Watched-bind, Watched-any}
use slam_system_manager.Process.Control.{State, start_process, is_process_running}
use slam_system_manager.Process.Stopping.{stop_process}
use slam_system_manager.Adapters.{Host}
use slam_system_manager.Adapters.Configuration.{LocalizationAdapterConfig}
use slam_system_manager.Adapters.Localization.{
  add_missing, missing_topics, give_up, exited_early, look, startup_rounds, await_ready,
  start_checked, start_localization,
}

module _ (host : Host) (config : LocalizationAdapterConfig host.Double) where
  open host use {
    os, Double, World, FilePath, now, sleep_for, is_absolute, filename, text_of, is_regular_file,
    file_size, count_publishers,
  }

  -- A topic that something publishes.
  abbrev pub IsPublished : World → String → Type 0
  IsPublished w topic = (n : ℕ) × (count_publishers topic w ≡ value n) × ((n == 0) ≡ false)

  -- From the first history to the second the sections have looked at the topics in their order, one
  -- section for each, and each has found its topic published.
  abbrev pub Looked : List String → List (State os) → List (State os) → Type 0
  Looked [] h h' = h' ≡ h
  Looked (topic ∷ topics) h h' = (t : State os) × IsPublished t.os topic × Looked topics (t ∷ h) h'

  -- Behind a start that reports success: it has found the process running, read the clock, and then, as
  -- the last that it did, found every required topic published, each in a section of its own.
  abbrev pub IsReady : List (State os) → Outcome Attempt → Type 0
  IsReady h (throws why) = Unit {0}
  IsReady h (value a) =
      a.0 ≡ true
      → (before : List (State os)) × (running : State os) × (clock : State os)
        × ((is_process_running os "localization" running).1 ≡ true)
        × Looked config.required_topics (clock ∷ running ∷ before) h

  abbrev NoneMissing :
      List String → List (State os) → List (State os) → Outcome (List String) → Type 0
  NoneMissing topics h h' r = r ≡ value [] → Looked topics h h'

  add_missing-none :
      (topic : String) (n : ℕ) (r : Outcome (List String))
      → add_missing topic n r ≡ value []
      → ((n == 0) ≡ false) × (r ≡ value [])
  add_missing-none topic n (throws why) e = cc
  add_missing-none topic n (value topics) e = ground arith

  counted-Looked :
      (topic : String) (topics : List String) (h : List (State os)) (t : State os)
      (counted : Outcome ℕ)
      → count_publishers topic t.os ≡ counted
      → Watched (NoneMissing topics (t ∷ h)) (t ∷ h) (missing_topics host config topics)
      → Watched
          (NoneMissing (topic ∷ topics) h)
          (t ∷ h)
          (elim counted as (λ _. Steps (State os) (Outcome (List String))) [
            | throws why ↦ done (throws why)
            | value n ↦
                missing_topics host config topics >>= λ rest. done (add_missing topic n rest)
          ])
  counted-Looked topic topics h t (throws why) e w = λ k. cc
  counted-Looked topic topics h t (value n) e w =
      Watched-bind (NoneMissing topics (t ∷ h)) (NoneMissing (topic ∷ topics) h)
        (missing_topics host config topics) _ (t ∷ h) w
        (λ h' r looked k.
          let (published, none_left) = add_missing-none topic n r k in
          (t, (n, e, published), looked none_left))

  missing_topics-Looked :
      (topics : List String) (h : List (State os))
      → Watched (NoneMissing topics h) h (missing_topics host config topics)
  unfolding missing_topics
  missing_topics-Looked [] h = λ e. refl
  missing_topics-Looked (topic ∷ topics) h = λ t.
      counted-Looked topic topics h t (count_publishers topic t.os) refl
        (missing_topics-Looked topics (t ∷ h))

  give_up-IsReady :
      (missing : List String) (h : List (State os))
      → Watched IsReady h (give_up host config missing)
  unfolding give_up
  give_up-IsReady missing h =
      Watched-bind (λ _ _. Unit {0}) IsReady (stop_process os "localization") _ h
        (Watched-any (stop_process os "localization") h) (λ h' a u e. cc)

  exited_early-IsReady : (h : List (State os)) → Watched IsReady h (exited_early host config)
  unfolding exited_early
  exited_early-IsReady h = λ t e. cc

  looked-IsReady :
      (again : List String → Steps (State os) (Outcome Attempt)) (before h : List (State os))
      (running clock : State os) (looked : Outcome (List String))
      → (is_process_running os "localization" running).1 ≡ true
      → NoneMissing config.required_topics (clock ∷ running ∷ before) h looked
      → ((m : List String) (h' : List (State os)) → Watched IsReady h' (again m))
      → Watched IsReady h (elim looked as (λ _. Steps (State os) (Outcome Attempt)) [
        | throws why ↦ done (throws why)
        | value [] ↦ done (value (true, ""))
        | value (topic ∷ topics) ↦ again (topic ∷ topics)
      ])
  looked-IsReady again before h running clock (throws why) e w rest = tt
  looked-IsReady again before h running clock (value []) e w rest =
      λ _. (before, running, clock, e, w refl)
  looked-IsReady again before h running clock (value (topic ∷ topics)) e w rest =
      rest (topic ∷ topics) h

  look-IsReady :
      (again : List String → Steps (State os) (Outcome Attempt)) (before : List (State os))
      (running clock : State os)
      → (is_process_running os "localization" running).1 ≡ true
      → ((m : List String) (h : List (State os)) → Watched IsReady h (again m))
      → Watched IsReady (clock ∷ running ∷ before) (look host config again)
  unfolding look
  look-IsReady again before running clock e rest =
      let h = clock ∷ running ∷ before in
      Watched-bind (NoneMissing config.required_topics h) IsReady
        (missing_topics host config config.required_topics) _ h
        (missing_topics-Looked config.required_topics h)
        (λ h' r w. looked-IsReady again before h' running clock r e w rest)

  startup_rounds-IsReady :
      (fuel deadline stable_at : ℕ) (missing : List String) (h : List (State os))
      → Watched IsReady h (startup_rounds host config fuel deadline stable_at missing)
  unfolding startup_rounds
  startup_rounds-IsReady zero deadline stable_at missing h = give_up-IsReady missing h
  startup_rounds-IsReady (suc fuel) deadline stable_at missing h = λ t.
      if_both (Watched IsReady (t ∷ h)) (not (ltb (now t.os).1 deadline))
        (λ _. give_up-IsReady missing _)
        (λ _ u.
          if_both (Watched IsReady (u ∷ t ∷ h)) (not (is_process_running os "localization" u).1)
            (λ _. exited_early-IsReady _)
            (λ runs v.
              if_both (Watched IsReady (v ∷ u ∷ t ∷ h)) (ltb (now v.os).1 stable_at)
                (λ _ x. startup_rounds-IsReady fuel deadline stable_at [] _)
                (λ _.
                  look-IsReady _ (t ∷ h) u v (ground arith)
                    (λ m h' x. startup_rounds-IsReady fuel deadline stable_at m (x ∷ h')))))

  await_ready-IsReady : (h : List (State os)) → Watched IsReady h (await_ready host config)
  unfolding await_ready
  await_ready-IsReady h = λ t. startup_rounds-IsReady _ _ _ [] _

  start_checked-IsReady :
      (map_name : String) (map_path : FilePath) (h : List (State os))
      → Watched IsReady h (start_checked host config map_name map_path)
  unfolding start_checked
  start_checked-IsReady map_name map_path h = λ t.
      if_both (Watched IsReady (t ∷ h))
        (start_process os "localization"
          (("map_name", map_name) ∷ ("map_path", text_of map_path) ∷ []) t).1.0
        (λ _. await_ready-IsReady (t ∷ h)) (λ _ e. cc)

  after_size-IsReady :
      (error : Option String) (size : ℕ) (map_name : String) (map_path : FilePath)
      (h : List (State os))
      → let unreadable : Steps (State os) (Outcome Attempt) =
          done (value (false, "Localization map is empty or unreadable: " +++ text_of map_path)) in
        Watched IsReady h (elim error as (λ _. Steps (State os) (Outcome Attempt)) [
          | some why ↦ unreadable
          | none ↦ if size == 0 then unreadable else start_checked host config map_name map_path
        ])
  after_size-IsReady (some why) size map_name map_path h = λ e. cc
  after_size-IsReady none size map_name map_path h =
      if_both (Watched IsReady h) (size == 0) (λ _ e. cc)
        (λ _. start_checked-IsReady map_name map_path h)

  -- Whatever other threads do between its sections, a start of localization that reports success has found
  -- its process running and after that, as the last that it did, looked at the required topics one after the other and found
  -- a publisher of each.
  pub start_localization-IsReady :
      (map_name : String) (map_path : FilePath)
      → Watched IsReady [] (start_localization host config map_name map_path)
  unfolding start_localization
  start_localization-IsReady map_name map_path = λ t.
      if_both (Watched IsReady (t ∷ [])) (is_process_running os "localization" t).1 (λ _ e. cc)
        (λ _.
          if_both (Watched IsReady (t ∷ []))
            (not (is_absolute map_path) || not (str_eq (filename map_path) "map.pcd")) (λ _ e. cc)
            (λ _ u.
              if_both (Watched IsReady (u ∷ t ∷ [])) (not (is_regular_file map_path u.os))
                (λ _ e. cc)
                (λ _ v.
                  after_size-IsReady (file_size map_path v.os).1 (file_size map_path v.os).0
                    map_name map_path (v ∷ u ∷ t ∷ []))))
