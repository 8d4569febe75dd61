-- ===== src/Manager/Maps.antt =====
-- The map services: handleGetMapList, handleCreateMap, handleDeleteMap and handleLoadMap.
use slam_system_manager.Base.{
  true, false, ◌||◌, [], ◌∷◌, String, Option, none, some, str_eq, length, if◌then◌else◌, ◌+++◌,
}
use slam_system_manager.Program.{
  response, response_with, value, throws, Prog, ret, lock, call, ◌>>=◌, ◌>>◌,
}
use slam_system_manager.Manager.Fields.{Manager, is_active_slam_state, finish_operation}
use slam_system_manager.Manager.Components.{Components}

module _ (c : Components) where
  open c use {World, Double, list_maps, create_map, delete_map, load_map, get_map_path, size_text}

  unfoldable pub handle_get_map_list : Prog (Manager Double) World
  handle_get_map_list = do
    maps ← call list_maps
    elim maps [
      | value names ↦
          ret (response_with true ("Found " +++ size_text (length names) +++ " map(s)") names)
      | throws what ↦ ret (response false what)
    ]

  -- The guard of the three services that change the map directory or the selection.
  unfoldable pub begin_map_change :
      Option String → String → Manager Double → Manager Double × Option String
  begin_map_change selected refusal m =
      if is_active_slam_state m.current_state || m.operation_in_progress
      then (m, some refusal)
      else elim selected [
        | none ↦ (record m { operation_in_progress = true }, none)
        | some name ↦
            if str_eq name m.current_map
            then (m, some "Cannot delete the currently selected map")
            else (record m { operation_in_progress = true }, none)
      ]

  unfoldable pub handle_create_map : String → Prog (Manager Double) World
  handle_create_map name = do
    refused ← lock (begin_map_change none "Map directories cannot be changed while SLAM is active")
    elim refused [
      | some message ↦ ret (response false message)
      | none ↦ do
        created ← call (create_map name)
        elim created [
          | throws what ↦ do lock finish_operation; ret (response false what)
          | value _ ↦ elim (get_map_path name) [
            | throws what ↦ do lock finish_operation; ret (response false what)
            | value path ↦ do
              lock finish_operation
              ret (response_with true "Map directory created" (path ∷ []))
          ]
        ]
    ]

  unfoldable pub handle_delete_map : String → Prog (Manager Double) World
  handle_delete_map name = do
    refused ← lock (begin_map_change (some name) "Maps cannot be deleted while SLAM is active")
    elim refused [
      | some message ↦ ret (response false message)
      | none ↦ do
        deleted ← call (delete_map name)
        lock finish_operation
        elim deleted [
          | throws what ↦ ret (response false what)
          | value _ ↦ ret (response true "Map deleted")
        ]
    ]

  unfoldable pub handle_load_map : String → Prog (Manager Double) World
  handle_load_map name = do
    refused ← lock (begin_map_change none "Maps cannot be loaded while SLAM is active")
    elim refused [
      | some message ↦ ret (response false message)
      | none ↦ do
        loaded ← call (load_map name)
        elim loaded [
          | throws what ↦ do lock finish_operation; ret (response false what)
          | value path ↦ do
            lock (λ m. (record m { current_map = name }, tt))
            lock finish_operation
            ret (response_with true "Map selected" (path ∷ []))
        ]
    ]
