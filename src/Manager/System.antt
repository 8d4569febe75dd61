-- ===== src/Manager/System.antt =====
-- The whole node after its construction: every callback as an entry point, and histories of turns
-- of the threads, of new callbacks, of changes outside and of the destructor's flag.
use slam_system_manager.Base.{ℕ, true, List, [], ◌∷◌, String}
use slam_system_manager.Program.{Prog, turn}
use slam_system_manager.Manager.Fields.{Manager}
use slam_system_manager.Manager.Components.{Components}
use slam_system_manager.Manager.Maps.{
  handle_get_map_list, handle_create_map, handle_delete_map, handle_load_map,
}
use slam_system_manager.Manager.Mapping.{handle_start_mapping, handle_stop_mapping, handle_save_map}
use slam_system_manager.Manager.Localization.{handle_start_localization, handle_stop_localization}
use slam_system_manager.Manager.Pose.{
  handle_initial_pose_observed, handle_localization_confirmed, save_last_pose,
  handle_set_initial_pose,
}
use slam_system_manager.Manager.Sensors.{update_sensor_state, monitor_processes}
use slam_system_manager.Manager.Recovery.{handle_recover}

-- What can call into the node: its services, its timers and the callbacks of its adapters.
pub data Entry (P : Type 0) : Type 0 where
  get_map_list stop_mapping save_map stop_localization recover : Entry P
  create_map delete_map load_map start_mapping start_localization : String → Entry P
  set_initial_pose : P → Entry P
  sensor_timer process_timer last_pose_timer : Entry P
  initial_pose_observed localization_confirmed : Entry P

pub data Event (P W : Type 0) : Type 0 where
  arrive : Entry P → Event P W
  advance : ℕ → Event P W
  environment : W → Event P W
  destroy : Event P W

module _ (c : Components) where
  open c use {World, Double, Pose}

  unfoldable pub entry : Entry Pose → Prog (Manager Double) World
  entry get_map_list = handle_get_map_list c
  entry stop_mapping = handle_stop_mapping c
  entry save_map = handle_save_map c
  entry stop_localization = handle_stop_localization c
  entry recover = handle_recover c
  entry (create_map name) = handle_create_map c name
  entry (delete_map name) = handle_delete_map c name
  entry (load_map name) = handle_load_map c name
  entry (start_mapping name) = handle_start_mapping c name
  entry (start_localization name) = handle_start_localization c name
  entry (set_initial_pose pose) = handle_set_initial_pose c pose
  entry sensor_timer = update_sensor_state c
  entry process_timer = monitor_processes c
  entry last_pose_timer = save_last_pose c
  entry initial_pose_observed = handle_initial_pose_observed c
  entry localization_confirmed = handle_localization_confirmed c

  pub record System : Type 0 where
    pub manager : Manager Double
    pub world : World
    pub threads : List (Prog (Manager Double) World)

  unfoldable pub step : System → Event Pose World → System
  step s (arrive e) = record s { threads = entry e ∷ s.threads }
  step s (advance i) =
      let (m, w, ps) = turn i s.manager s.world s.threads in
      record { manager = m; world = w; threads = ps }
  step s (environment w) = record s { world = w }
  step s destroy = record s { manager = record s.manager { shutting_down = true } }

  unfoldable pub run : System → List (Event Pose World) → System
  run s [] = s
  run s (e ∷ es) = run (step s e) es
