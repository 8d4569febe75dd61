-- ===== src/Process/Load.antt =====
-- ProcessManager::loadConfig.
use Prim.Native.Nat.{Ordering}
use Prim.Native.String.{compare}
use slam_system_manager.Base.{
  is_empty, Bool, true, false, not, ◌||◌, List, [], ◌∷◌, String, ◌+++◌, str_eq, none, some,
  if◌then◌else◌,
}
use slam_system_manager.Outcome.{Outcome, value, throws, relabelled, refuse, ◌>>=◌, ◌>>◌}
use slam_system_manager.Yaml.{Yaml, required, section_at}
use slam_system_manager.Process.{ProcessConfig, ProcessRecord, Os}
use slam_system_manager.Process.Commands.{valid_process_name, valid_substitution_name}
use slam_system_manager.Process.Control.{State, refresh_process, no_process}

-- `emplace` on an unordered_map, in the order of insertion: a key that is there stays.
unfoldable pub emplace : String → String → List (String × String) → List (String × String)
emplace key text [] = (key, text) ∷ []
emplace key text ((k, old) ∷ rest) =
    if str_eq k key then (k, old) ∷ rest else (k, old) ∷ emplace key text rest

-- `emplace` on a std::map, which is sorted by its keys: a key that is there stays.
unfoldable pub emplace_record :
    {D : Type 0}
    → String
    → ProcessRecord D
    → List (String × ProcessRecord D)
    → List (String × ProcessRecord D)
emplace_record name r [] = (name, r) ∷ []
emplace_record name r ((key, old) ∷ t) = elim (compare name key) [
  | Ordering.lt ↦ (name, r) ∷ (key, old) ∷ t
  | Ordering.eq ↦ (key, old) ∷ t
  | Ordering.gt ↦ (key, old) ∷ emplace_record name r t
]

module _ (os : Os) (yaml : Yaml os.Double) where
  open os use {Double, World, lt, zero_d}
  open yaml use {Node, child, is_map, entries, as_string, as_bool, as_double}

  abbrev pub required_value : String → {T : Type 0} → (Node → Outcome T) → Node → String → Outcome T
  required_value process =
      required yaml
        (λ key. "Missing process configuration key '" +++ process +++ "." +++ key +++ "'")
        (λ key. "Invalid process configuration key '" +++ process +++ "." +++ key +++ "': ")

  unfoldable pub read_directory : Node → Outcome String
  read_directory node = elim (child node "working_directory") [
    | none ↦ value ""
    | some directory ↦ as_string directory
  ]

  unfoldable pub read_substitutions :
      String → List (Node × Node) → List (String × String) → Outcome (List (String × String))
  read_substitutions name [] found = value found
  read_substitutions name ((first, second) ∷ rest) found = do
    key ← as_string first
    refuse (not (valid_substitution_name key))
        ("Invalid process substitution name '" +++ key +++ "' for " +++ name)
    text ←
        relabelled ("Invalid process substitution '" +++ name +++ "." +++ key +++ "': ")
          (as_string second)
    read_substitutions name rest (emplace key text found)

  unfoldable pub substitutions_of : String → Node → Outcome (List (String × String))
  substitutions_of name node = elim (child node "substitutions") [
    | none ↦ value []
    | some substitutions ↦ do
      refuse (not (is_map substitutions)) ("Process substitutions must be a map: " +++ name)
      read_substitutions name (entries substitutions) []
  ]

  unfoldable pub check_process : String → ProcessConfig Double → Outcome (ProcessConfig Double)
  check_process name config = do
    refuse (is_empty config.command) ("Process command must not be empty: " +++ name)
    refuse (lt config.sigint_timeout_sec zero_d || lt config.sigterm_timeout_sec zero_d)
        ("Process stop timeouts must not be negative: " +++ name)
    value config

  unfoldable pub read_process : String → Node → Outcome (ProcessConfig Double)
  read_process name node = do
    refuse (not (is_map node)) ("Process configuration must be a map: " +++ name)
    command ← required_value name as_string node "command"
    auto_start ← required_value name as_bool node "auto_start"
    sigint_timeout_sec ← required_value name as_double node "sigint_timeout_sec"
    sigterm_timeout_sec ← required_value name as_double node "sigterm_timeout_sec"
    working_directory ← read_directory node
    substitutions ← substitutions_of name node
    check_process name (record {
      command = command;
      working_directory = working_directory;
      substitutions = substitutions;
      auto_start = auto_start;
      sigint_timeout_sec = sigint_timeout_sec;
      sigterm_timeout_sec = sigterm_timeout_sec;
    })

  unfoldable pub read_processes :
      List (Node × Node)
      → List (String × ProcessRecord Double)
      → Outcome (List (String × ProcessRecord Double))
  read_processes [] loaded = value loaded
  read_processes ((first, node) ∷ rest) loaded = do
    name ← as_string first
    refuse (not (valid_process_name name)) ("Invalid process name: " +++ name)
    config ← read_process name node
    read_processes rest (
        emplace_record name (record { config = config; pid = no_process; last_exit_code = none })
          loaded)

  unfoldable pub process_entries : Node → Outcome (List (Node × Node))
  process_entries root = do
    nodes ←
        section_at yaml "Process config must contain a non-empty 'processes' map" root "processes"
    elim (entries nodes) [
      | [] ↦ throws "Process config must contain a non-empty 'processes' map"
      | e ∷ rest ↦ value (e ∷ rest)
    ]

  -- The loop that refreshes every record and stops at the first that still runs.
  unfoldable pub any_running :
      List (String × ProcessRecord Double)
      → World
      → World × List (String × ProcessRecord Double) × Bool
  any_running [] w = (w, [], false)
  any_running ((name, r) ∷ t) w =
      let (w', r', running) = refresh_process os r w in
      let (w'', t', later) = any_running t w' in
      if running then (w', (name, r') ∷ t, true) else (w'', (name, r') ∷ t', later)

  module _ (load_file : String → Outcome Node) where
    unfoldable pub parse_processes : String → Outcome (List (String × ProcessRecord Double))
    parse_processes path = do
      root ← relabelled ("Unable to load process config '" +++ path +++ "': ") (load_file path)
      nodes ← process_entries root
      read_processes nodes []

    unfoldable pub load_config : String → State os → State os × Outcome (Unit {0})
    load_config path s = elim (parse_processes path) [
      | throws why ↦ (s, throws why)
      | value loaded ↦
          let (w, t, running) = any_running s.table s.os in
          if running
          then (
            record { table = t; os = w },
            throws "Cannot reload process config while a managed process is running",
          )
          else (record { table = loaded; os = w }, value tt)
    ]
