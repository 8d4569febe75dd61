-- ===== src/Process/Loaded.antt =====
-- What ProcessManager::loadConfig puts into the table.
use slam_system_manager.Base.{
  is_empty, Every, str_eq, ap, ◌∙◌, subst, Option-cases, ◌≡◌, ◌↔◌, refl, ◌⊎◌, inl, inr, Bool, true,
  false, not, ◌||◌, List, [], ◌∷◌, String, ◌+++◌, none, Bool-cases, if_both, arith,
}
use slam_system_manager.Outcome.{
  Outcome, value, throws, relabelled, refuse-ensures, >>=-ensures, >>=-ensures-eq, value-injective,
  Outcome-cases,
}
use slam_system_manager.Yaml.{Yaml}
use slam_system_manager.Process.{ProcessConfig, ProcessRecord, Os}
use slam_system_manager.Process.Commands.{valid_process_name, valid_substitution_name}
use slam_system_manager.Process.Control.{State, no_process, refresh_process}
use slam_system_manager.Process.Table.{refresh_process-config}
use slam_system_manager.Process.Load.{
  emplace, emplace_record, required_value, read_substitutions, substitutions_of, read_directory,
  check_process, read_process, read_processes, process_entries, any_running, parse_processes,
  load_config,
}
use Prim.Native.Nat.{Ordering}
use Prim.Native.String.{compare}

abbrev pub IsNamed : String × String → Type 0
IsNamed (key, text) = valid_substitution_name key ≡ true

emplace-Every :
    (key text : String) (t : List (String × String))
    → valid_substitution_name key ≡ true
    → Every IsNamed t
    → Every IsNamed (emplace key text t)
unfolding emplace
emplace-Every key text [] h k = (h, tt)
emplace-Every key text ((k', old) ∷ t) h (p, ps) = elim (Bool-cases (str_eq k' key)) [
  | inl e ↦ rw e (p, ps)
  | inr e ↦ rw e (p, emplace-Every key text t h ps)
]

module _ (os : Os) where
  open os use {Double, World, lt, zero_d}

  -- An entry of the table behind a load: valid names, a command, stop timeouts that do not compare below zero, and
  -- no process yet.
  pub record IsLoaded (e : String × ProcessRecord Double) : Type 0 where
    pub named : valid_process_name e.0 ≡ true
    pub commanded : is_empty e.1.config.command ≡ false
    pub interrupts : lt e.1.config.sigint_timeout_sec zero_d ≡ false
    pub terminates : lt e.1.config.sigterm_timeout_sec zero_d ≡ false
    pub substitutes : Every IsNamed e.1.config.substitutions
    pub not_started : e.1.pid ≡ no_process
    pub no_exit : e.1.last_exit_code ≡ none

  emplace_record-Every :
      (name : String) (r : ProcessRecord Double) (t : List (String × ProcessRecord Double))
      → IsLoaded (name, r)
      → Every IsLoaded t
      → Every IsLoaded (emplace_record name r t)
  unfolding emplace_record
  emplace_record-Every name r [] h k = (h, tt)
  emplace_record-Every name r ((key, old) ∷ t) h (p, ps) =
      elim (compare name key)
        as (λ o. Every IsLoaded (elim o as (λ _. List (String × ProcessRecord Double)) [
          | Ordering.lt ↦ (name, r) ∷ (key, old) ∷ t
          | Ordering.eq ↦ (key, old) ∷ t
          | Ordering.gt ↦ (key, old) ∷ emplace_record name r t
        ])) [
          | Ordering.lt ↦ (h, (p, ps))
          | Ordering.eq ↦ (p, ps)
          | Ordering.gt ↦ (p, emplace_record-Every name r t h ps)
        ]

  module _ (yaml : Yaml Double) where
    open yaml use {Node, as_string, as_bool, as_double, is_map, entries, child}

    read_substitutions-Every :
        (name : String) (l : List (Node × Node)) (found t : List (String × String))
        → Every IsNamed found
        → read_substitutions os yaml name l found ≡ value t
        → Every IsNamed t
    unfolding read_substitutions
    read_substitutions-Every name [] found t h = λ e. subst (Every IsNamed) (value-injective e) h
    read_substitutions-Every name ((first, second) ∷ rest) found t h =
        >>=-ensures (Every IsNamed) _
          (λ key. refuse-ensures (Every IsNamed) (not (valid_substitution_name key)) _ _ (λ named.
            >>=-ensures (Every IsNamed) _
              (λ text t' e.
                read_substitutions-Every name rest (emplace key text found) t'
                  (emplace-Every key text found (ground arith) h) e)
              (relabelled ("Invalid process substitution '" +++ name +++ "." +++ key +++ "': ")
                (as_string second))))
          (as_string first) t

    substitutions_of-Every :
        (name : String) (node : Node) (t : List (String × String))
        → substitutions_of os yaml name node ≡ value t
        → Every IsNamed t
    unfolding substitutions_of
    substitutions_of-Every name node t e = elim (Option-cases (child node "substitutions")) [
      | inl missing ↦
          subst (Every IsNamed) (value-injective (rw (missing, substitutions_of) at e)) tt
      | inr (map, found) ↦
          refuse-ensures (Every IsNamed) (not (is_map map)) _ _
            (λ _ t'. read_substitutions-Every name (entries map) [] t' tt) t
            (rw (found, substitutions_of) at e)
    ]

    abbrev Reads : String → ProcessConfig Double → Type 0
    Reads name c = IsLoaded (name, record { config = c; pid = no_process; last_exit_code = none })

    check_process-IsLoaded :
        (name : String) (c c' : ProcessConfig Double)
        → valid_process_name name ≡ true
        → Every IsNamed c.substitutions
        → check_process os yaml name c ≡ value c'
        → IsLoaded (name, record { config = c'; pid = no_process; last_exit_code = none })
    unfolding check_process
    check_process-IsLoaded name c c' v h =
        refuse-ensures (Reads name) (is_empty c.command) _ _
          (λ commanded.
            refuse-ensures (Reads name)
              (lt c.sigint_timeout_sec zero_d || lt c.sigterm_timeout_sec zero_d) _ _
              (λ timed d e. subst (Reads name) {x = c} (value-injective e) (record {
                named = v;
                commanded = commanded;
                interrupts = ground arith;
                terminates = ground arith;
                substitutes = h;
                not_started = refl;
                no_exit = refl;
              })))
          c'

    read_process-IsLoaded :
        (name : String) (node : Node)
        → valid_process_name name ≡ true
        → (c : ProcessConfig Double) → read_process os yaml name node ≡ value c
        → Reads name c
    unfolding read_process
    read_process-IsLoaded name node v = refuse-ensures (Reads name) (not (is_map node)) _ _ λ _.
        >>=-ensures (Reads name) _
          (λ command.
            >>=-ensures (Reads name) _
              (λ auto_start.
                >>=-ensures (Reads name) _
                  (λ sigint_timeout_sec.
                    >>=-ensures (Reads name) _
                      (λ sigterm_timeout_sec.
                        >>=-ensures (Reads name) _
                          (λ working_directory c.
                            >>=-ensures-eq (Reads name) _ (substitutions_of os yaml name node) c
                              λ substitutions found.
                                check_process-IsLoaded name _ c v
                                  (substitutions_of-Every name node substitutions found))
                          (read_directory os yaml node))
                      (required_value os yaml name as_double node "sigterm_timeout_sec"))
                  (required_value os yaml name as_double node "sigint_timeout_sec"))
              (required_value os yaml name as_bool node "auto_start"))
          (required_value os yaml name as_string node "command")

    read_processes-IsLoaded :
        (l : List (Node × Node)) (found t : List (String × ProcessRecord Double))
        → Every IsLoaded found
        → read_processes os yaml l found ≡ value t
        → Every IsLoaded t
    unfolding read_processes
    read_processes-IsLoaded [] found t h = λ e. subst (Every IsLoaded) (value-injective e) h
    read_processes-IsLoaded ((first, node) ∷ rest) found t h =
        >>=-ensures (Every IsLoaded) _
          (λ name. refuse-ensures (Every IsLoaded) (not (valid_process_name name)) _ _ (λ named t'.
            >>=-ensures-eq (Every IsLoaded) _ (read_process os yaml name node) t' (λ c read e.
              read_processes-IsLoaded rest _ t'
                (emplace_record-Every name _ found
                  (read_process-IsLoaded name node (ground arith) c read) h)
                e)))
          (as_string first) t

    -- The names with their configurations.
    abbrev pub configs : List (String × ProcessRecord Double) → List (String × ProcessConfig Double)
    configs [] = []
    configs ((name, r) ∷ t) = (name, r.config) ∷ configs t

    -- Asked in the order of the names, some record still has a running process.
    abbrev pub SomeRuns : List (String × ProcessRecord Double) → World → Type 0
    SomeRuns [] w = ⊥
    SomeRuns ((name, r) ∷ t) w =
        let (w', r', running) = refresh_process os r w in (running ≡ true) ⊎ SomeRuns t w'

    any_running-SomeRuns :
        (t : List (String × ProcessRecord Double)) (w : World)
        → ((any_running os yaml t w).2 ≡ true) ↔ SomeRuns t w
    unfolding any_running
    any_running-SomeRuns [] w = (λ h. cc, λ h. absurd h)
    any_running-SomeRuns ((name, r) ∷ t) w =
        let (to, from) = any_running-SomeRuns t (refresh_process os r w).0 in
        elim (Bool-cases (refresh_process os r w).2) [
          | inl e ↦ (λ h. inl e, λ h. rw e refl)
          | inr e ↦ (
            λ h. inr (to (rw e at h)),
            λ h. rw e (elim h [ inl h ↦ absurd (cc) | inr h ↦ from h ]),
          )
        ]

    any_running-configs :
        (t : List (String × ProcessRecord Double)) (w : World)
        → configs (any_running os yaml t w).1 ≡ configs t
    unfolding any_running
    any_running-configs [] w = refl
    any_running-configs ((name, r) ∷ t) w =
        if_both
          (λ (u : World × List (String × ProcessRecord Double) × Bool).
            configs u.1 ≡ (name, r.config) ∷ configs t)
          (refresh_process os r w).2
          (λ _. ap (λ c. (name, c) ∷ configs t) (refresh_process-config os r w))
          (λ _.
            ap (λ c. (name, c) ∷ configs (any_running os yaml t (refresh_process os r w).0).1)
              (refresh_process-config os r w)
            ∙ ap (λ l. (name, r.config) ∷ l) (any_running-configs t (refresh_process os r w).0))

    module _ (load_file : String → Outcome Node) where
      parse_processes-IsLoaded :
          (path : String) (t : List (String × ProcessRecord Double))
          → parse_processes os yaml load_file path ≡ value t
          → Every IsLoaded t
      unfolding parse_processes
      parse_processes-IsLoaded path =
          >>=-ensures (Every IsLoaded) _
            (λ root.
              >>=-ensures (Every IsLoaded) _ (λ nodes t. read_processes-IsLoaded nodes [] t tt)
                (process_entries os yaml root))
            (relabelled ("Unable to load process config '" +++ path +++ "': ") (load_file path))

      none_runs :
          (s : State os) → (any_running os yaml s.table s.os).2 ≡ false → ¬ SomeRuns s.table s.os
      none_runs s idle h = cc ((any_running-SomeRuns s.table s.os).1 h)

      -- loadConfig throws before it touches the manager where the file is refused; throws, and keeps every name
      -- with its configuration, where some process of the table still runs; or, where none runs, puts the file's processes into the table, all of them with valid names,
      -- a command, stop timeouts that do not compare below zero and no process yet.
      pub load_config_cases :
          (path : String) (s : State os)
          → ((why : String) × (parse_processes os yaml load_file path ≡ throws why)
              × (load_config os yaml load_file path s ≡ (s, throws why)))
            ⊎ (SomeRuns s.table s.os
                × ((load_config os yaml load_file path s).1
                    ≡ throws "Cannot reload process config while a managed process is running")
                × (configs (load_config os yaml load_file path s).0.table ≡ configs s.table))
            ⊎ (¬ SomeRuns s.table s.os)
              × ((load_config os yaml load_file path s).1 ≡ value tt)
              × (parse_processes os yaml load_file path
                  ≡ value (load_config os yaml load_file path s).0.table)
              × Every IsLoaded (load_config os yaml load_file path s).0.table
      unfolding load_config
      load_config_cases path s = elim (Outcome-cases (parse_processes os yaml load_file path)) [
        | inr (why, e) ↦ inl (why, e, rw (e, load_config) refl)
        | inl (loaded, e) ↦ elim (Bool-cases (any_running os yaml s.table s.os).2) [
          | inl running ↦
              rw (e, load_config)
                (rw running (
                  inr (
                    inl (
                      (any_running-SomeRuns s.table s.os).0 running,
                      refl,
                      any_running-configs s.table s.os,
                    ))))
          | inr idle ↦
              rw (e, load_config)
                (rw idle (
                  inr (inr (none_runs s idle, refl, refl, parse_processes-IsLoaded path loaded e))))
        ]
      ]
