-- ===== src/Tests/Examples.antt =====
-- The theorems at concrete inputs.
use slam_system_manager.Base.{ℕ, ◌≡◌, refl, ◌↔◌, true, false, List, [], ◌∷◌}
use slam_system_manager.State.{
  boot, wait_mode, mapping_starting, mapping, map_saving, localized, shutdown, can_transition,
}
use slam_system_manager.State.Graph.{
  Edge, Leads, start, onward, is_mapping, can_transition_iff-Edge, Leads-everywhere, Leads-ends,
  Stays-is_mapping,
}
use slam_system_manager.Program.{turn}
use slam_system_manager.Manager.Fields.{transition_to_locked}
use slam_system_manager.Manager.Background.{launch_operation}
use slam_system_manager.Manager.Mapping.{
  begin_start, select_map, check_output, prepare_map, enter_mapping, handle_start_mapping,
}
use slam_system_manager.Manager.Recovery.{begin_recover, handle_recover}
use slam_system_manager.Manager.System.{
  System, Event, arrive, advance, start_mapping, recover, save_map, entry, step, run,
}
use slam_system_manager.Manager.Token.{idle, Done, Guarded, Calm}
use slam_system_manager.Manager.Token.History.{
  entry-Guarded, IsSound, visited, Follows, step-IsSound, run-Follows, run-transient, run-released,
}
use slam_system_manager.Tests.Simulation.{Plant, simulation, node_in, idle_plant}

can_transition_iff-Edge_example :
    (can_transition wait_mode mapping_starting ≡ true) ↔ Edge wait_mode mapping_starting
can_transition_iff-Edge_example = can_transition_iff-Edge wait_mode mapping_starting

Leads-everywhere_example : Leads mapping localized
Leads-everywhere_example = Leads-everywhere mapping localized (λ e. cc) (λ e. cc)

Leads-ends_example :
    (mapping ≡ shutdown → localized ≡ shutdown) × (localized ≡ boot → mapping ≡ boot)
Leads-ends_example = Leads-ends {s = mapping} {t = localized} Leads-everywhere_example

Stays-is_mapping_example : is_mapping map_saving ≡ true
unfolding can_transition
Stays-is_mapping_example =
    Stays-is_mapping {s = mapping_starting} {t = map_saving}
      (onward {t = mapping} (onward {t = mapping_starting} start refl refl) refl refl) refl

abbrev waiting_node : System simulation
waiting_node = record { manager = node_in wait_mode; world = idle_plant; threads = [] }

waiting_node-IsSound : IsSound simulation waiting_node
waiting_node-IsSound = record { crew = tt; known = λ e h. refl }

-- A client starts mapping: after eight turns of its callback the state is MAPPING_STARTING.
abbrev asking : List (Event ℕ Plant)
asking =
    arrive (start_mapping "office")
    ∷ advance 0
    ∷ advance 0
    ∷ advance 0
    ∷ advance 0
    ∷ advance 0
    ∷ advance 0
    ∷ advance 0
    ∷ advance 0
    ∷ []

asked : System simulation
unfolding run step turn entry handle_start_mapping prepare_map check_output begin_start
    enter_mapping select_map transition_to_locked can_transition launch_operation
asked = run simulation waiting_node asking

asked_state : asked.manager.current_state ≡ mapping_starting
unfolding asked
asked_state = refl

run-transient_example : (run simulation waiting_node asking).manager.operation_in_progress ≡ true
unfolding asked
run-transient_example = run-transient simulation waiting_node asking waiting_node-IsSound refl refl

run-Follows_example : Follows wait_mode (visited simulation waiting_node asking)
run-Follows_example = run-Follows simulation waiting_node asking waiting_node-IsSound

step-IsSound_example : IsSound simulation (step simulation waiting_node (arrive recover))
step-IsSound_example = step-IsSound simulation waiting_node (arrive recover) waiting_node-IsSound

entry-Guarded_example : Guarded Done idle (entry simulation save_map)
entry-Guarded_example = entry-Guarded simulation save_map

-- A recovery request outside ERROR is refused, and its thread is over.
abbrev refusing : List (Event ℕ Plant)
refusing = arrive recover ∷ advance 0 ∷ []

run-released_example :
    ((run simulation waiting_node refusing).manager.operation_in_progress ≡ false)
    × Calm (run simulation waiting_node refusing).manager
unfolding asked begin_recover handle_recover
run-released_example = run-released simulation waiting_node refusing waiting_node-IsSound (tt, tt)
