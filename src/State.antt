-- ===== src/State.antt =====
-- include/slam_system_manager/system_state.hpp: the states of the system, their names and the table
-- of transitions.
pub mod Graph
use slam_system_manager.Base.{
  ℕ, ◌==◌, Bool, true, false, ◌&&◌, ◌||◌, List, [], ◌∷◌, String, if◌then◌else◌,
}

pub data State : Type 0 where
  boot system_check sensor_starting sensor_ready wait_mode mapping_starting mapping map_saving
        localization_starting relocalizing localized error recovering shutdown :
      State

-- The value of the enumerator.
abbrev pub index : State → ℕ
index boot = 0
index system_check = 1
index sensor_starting = 2
index sensor_ready = 3
index wait_mode = 4
index mapping_starting = 5
index mapping = 6
index map_saving = 7
index localization_starting = 8
index relocalizing = 9
index localized = 10
index error = 11
index recovering = 12
index shutdown = 13

-- `==` on the enumeration.
abbrev pub is : State → State → Bool
is s t = index s == index t

unfoldable pub to_string : State → String
to_string boot = "BOOT"
to_string system_check = "SYSTEM_CHECK"
to_string sensor_starting = "SENSOR_STARTING"
to_string sensor_ready = "SENSOR_READY"
to_string wait_mode = "WAIT_MODE"
to_string mapping_starting = "MAPPING_STARTING"
to_string mapping = "MAPPING"
to_string map_saving = "MAP_SAVING"
to_string localization_starting = "LOCALIZATION_STARTING"
to_string relocalizing = "RELOCALIZING"
to_string localized = "LOCALIZED"
to_string error = "ERROR"
to_string recovering = "RECOVERING"
to_string shutdown = "SHUTDOWN"

-- The array `allowed`.
abbrev allowed : List (State × State)
allowed =
    (boot, system_check)
    ∷ (boot, error)
    ∷ (boot, shutdown)
    ∷ (system_check, sensor_starting)
    ∷ (system_check, error)
    ∷ (system_check, shutdown)
    ∷ (sensor_starting, sensor_ready)
    ∷ (sensor_starting, error)
    ∷ (sensor_starting, shutdown)
    ∷ (sensor_ready, wait_mode)
    ∷ (sensor_ready, sensor_starting)
    ∷ (sensor_ready, mapping_starting)
    ∷ (sensor_ready, localization_starting)
    ∷ (sensor_ready, error)
    ∷ (sensor_ready, shutdown)
    ∷ (wait_mode, sensor_starting)
    ∷ (wait_mode, mapping_starting)
    ∷ (wait_mode, localization_starting)
    ∷ (wait_mode, error)
    ∷ (wait_mode, shutdown)
    ∷ (mapping_starting, mapping)
    ∷ (mapping_starting, wait_mode)
    ∷ (mapping_starting, error)
    ∷ (mapping_starting, shutdown)
    ∷ (mapping, map_saving)
    ∷ (mapping, wait_mode)
    ∷ (mapping, error)
    ∷ (mapping, shutdown)
    ∷ (map_saving, wait_mode)
    ∷ (map_saving, error)
    ∷ (map_saving, shutdown)
    ∷ (localization_starting, relocalizing)
    ∷ (localization_starting, wait_mode)
    ∷ (localization_starting, error)
    ∷ (relocalizing, localized)
    ∷ (relocalizing, wait_mode)
    ∷ (relocalizing, error)
    ∷ (localized, relocalizing)
    ∷ (localized, wait_mode)
    ∷ (localized, error)
    ∷ (error, recovering)
    ∷ []

-- The loop over the array.
listed : List (State × State) → State → State → Bool
listed [] s t = false
listed ((a, b) ∷ rest) s t = is a s && is b t || listed rest s t

unfoldable pub can_transition : State → State → Bool
unfolding listed
can_transition s t =
    if listed allowed s t
    then true
    else if is s error && is t shutdown
    then true
    else if is s recovering
        && (is t system_check
            || is t sensor_starting
            || is t wait_mode
            || is t error
            || is t shutdown)
    then true
    else if (is s localization_starting || is s relocalizing || is s localized) && is t shutdown
    then true
    else false
