-- ===== src/Tests/Processes.antt =====
-- The theorems of the process manager at concrete inputs.
use slam_system_manager.Base.{
  Every, is_empty, ℕ, ◌+◌, ◌≡◌, ◌⊎◌, refl, pos, Bool, true, false, if◌then◌else◌, none, some,
  str_eq, ◌+++◌, List, [], ◌∷◌, String, arith,
}
use slam_system_manager.Outcome.{Outcome, value, throws}
use slam_system_manager.Yaml.{Yaml, section_at, map_at, required}
use slam_system_manager.Steps.{alone, EndsFrom}
use slam_system_manager.Process.{
  ProcessConfig, sigint, sigterm, sigkill, exited, still_running, ended, child, Os, write_record,
  find,
}
use slam_system_manager.Process.Commands.{
  valid_process_name, is_letter, all_name_chars, is_name_char, replace_all, unresolved,
  name_in_braces, merged, assign, expand_command, substituted,
}
use slam_system_manager.Process.Control.{
  no_process, State, start_process, start_found, start_known, refresh_named, refresh_process,
  launch_expanded, launch, note_fork, note_wait,
}
use slam_system_manager.Process.Stopping.{
  begin_stop, begin_found, escalate, stop_by, signal_process_group, check_exit, check_found,
  wait_rounds, wait_for_exit, stop_process,
}
use slam_system_manager.Process.Load.{
  process_entries, read_processes, read_process, read_directory, read_substitutions,
  substitutions_of, check_process, any_running, parse_processes, load_config,
}
use slam_system_manager.Process.Resolved.{HasToken, expand_command_cases}
use slam_system_manager.Process.Started.{Started, start_process-Started}
use slam_system_manager.Process.Stops.{Stopped, stop_process-Gone}
use slam_system_manager.Process.Waits.{Clock, wait_rounds-fuel}
use slam_system_manager.Process.Loaded.{IsLoaded, SomeRuns, configs, load_config_cases}
use slam_system_manager.Tests.Simulation.{whole}

-- One child, number 7, that heeds SIGTERM; a clock in nanoseconds.
pub record Machine : Type 0 where
  pub alive : Bool
  pub clock : ℕ

abbrev pub machine : Os
machine = record {
  doubles = whole;
  World = Machine;
  fork = λ command directory m. (record m { alive = true }, child (pos 7));
  set_group = λ pid m. (m, tt);
  waitpid = λ pid m. (m, if m.alive then still_running else ended (exited 0));
  kill = λ pid signal m. (
    record m { alive = elim signal [ sigint ↦ m.alive | sigterm ↦ false | sigkill ↦ false ] },
    none,
  );
  now = λ m. (m, m.clock);
  sleep_for = λ n m. (record m { clock = m.clock + n }, tt);
  nanoseconds = λ n. n;
  order = λ l. l;
}

abbrev mapper : ProcessConfig ℕ
mapper = record {
  command = "run {map}";
  working_directory = "";
  substitutions = [];
  auto_start = false;
  sigint_timeout_sec = 0;
  sigterm_timeout_sec = 0;
}

abbrev pub idle : State machine
idle = record {
  table = ("mapping", record { config = mapper; pid = no_process; last_exit_code = none }) ∷ [];
  os = record { alive = false; clock = 0 };
}

abbrev pub busy : State machine
busy = record {
  table = ("mapping", record { config = mapper; pid = pos 7; last_exit_code = none }) ∷ [];
  os = record { alive = true; clock = 0 };
}

abbrev office : List (String × String)
office = ("map", "office") ∷ []

ready : expand_command "run {map}" office ≡ value "run office"
unfolding expand_command substituted replace_all unresolved name_in_braces
ready = refl

starts : (start_process machine "mapping" office idle).1.0 ≡ true
unfolding start_process start_found start_known refresh_named refresh_process find write_record
    launch_expanded launch note_fork expand_command substituted replace_all unresolved
    name_in_braces merged assign
starts = refl

start_process-Started_example :
    Started machine "mapping" office idle (start_process machine "mapping" office idle).0
start_process-Started_example = start_process-Started machine "mapping" office idle starts

expand_command_cases_example :
    ((expand_command "run {map}" [] ≡ value (substituted "run {map}" []))
      × (¬ HasToken (substituted "run {map}" [])))
    ⊎ ((t : HasToken (substituted "run {map}" [])) × (expand_command "run {map}" []
          ≡ throws ("Missing command substitution for token: {" +++ t.name +++ "}")))
expand_command_cases_example = expand_command_cases "run {map}" []

known :
    find "mapping" busy.table
    ≡ some (record { config = mapper; pid = pos 7; last_exit_code = none })
unfolding find
known = refl

stop_process-Gone_example :
    EndsFrom (Stopped machine "mapping" (pos 7)) (stop_process machine "mapping") busy
stop_process-Gone_example =
    stop_process-Gone machine "mapping"
      (record { config = mapper; pid = pos 7; last_exit_code = none }) busy known

stops : (alone (stop_process machine "mapping") busy).1 ≡ (true, "")
unfolding alone stop_process begin_stop begin_found find refresh_named refresh_process note_wait
    escalate stop_by signal_process_group wait_for_exit wait_rounds check_exit check_found
    write_record
stops = refl

machine_clock : Clock machine
machine_clock = record {
  clock = λ m. m.clock;
  waitpid_on = λ pid m. omega arith;
  sleep_on = λ n m. omega arith;
  now_after = λ m. omega arith;
  now_before = λ m. omega arith;
}

wait_rounds-fuel_example :
    alone (wait_rounds machine 5 "mapping" (pos 7) (0 + 100000000)) busy
    ≡ alone (wait_for_exit machine "mapping" (pos 7) 100000000) busy
wait_rounds-fuel_example =
    wait_rounds-fuel machine machine_clock 5 "mapping" (pos 7) 100000000 busy (omega arith)

-- A file with one process.
abbrev process_file : Yaml ℕ
process_file = record {
  Node = String;
  child = λ parent key. some key;
  is_null = λ node. false;
  is_map = λ node. true;
  is_sequence = λ node. false;
  elements = λ node. [];
  entries = λ node. if str_eq node "processes" then ("mapping", "mapping") ∷ [] else [];
  as_string = λ node. value node;
  as_bool = λ node. value true;
  as_double = λ node. value 1;
  as_size = λ node. value 1;
}

abbrev found : String → Outcome String
found path = value ""

load_config_cases_example :
    ((why : String) × (parse_processes machine process_file found "processes.yaml" ≡ throws why)
      × (load_config machine process_file found "processes.yaml" idle ≡ (idle, throws why)))
    ⊎ (SomeRuns machine process_file idle.table idle.os
        × ((load_config machine process_file found "processes.yaml" idle).1
            ≡ throws "Cannot reload process config while a managed process is running")
        × (configs machine process_file
              (load_config machine process_file found "processes.yaml" idle).0.table
            ≡ configs machine process_file idle.table))
    ⊎ (¬ SomeRuns machine process_file idle.table idle.os)
      × ((load_config machine process_file found "processes.yaml" idle).1 ≡ value tt)
      × (parse_processes machine process_file found "processes.yaml"
          ≡ value (load_config machine process_file found "processes.yaml" idle).0.table)
      × Every
          (IsLoaded machine)
          (load_config machine process_file found "processes.yaml" idle).0.table
load_config_cases_example = load_config_cases machine process_file found "processes.yaml" idle

loads : (load_config machine process_file found "processes.yaml" idle).1 ≡ value tt
unfolding load_config parse_processes process_entries section_at map_at read_processes read_process
    required read_directory read_substitutions substitutions_of check_process any_running
    refresh_process valid_process_name is_letter all_name_chars is_name_char is_empty
loads = refl
