-- ===== src/Lib.antt =====
-- Verification of slam_system_manager, a ROS 2 node that supervises an Ouster sensor, a mapping
-- process and a localization process, and offers services to start, stop, save and recover.
--
-- The program's parts. SystemManager (src/system_manager.cpp) owns the state of
-- include/slam_system_manager/system_state.hpp. Its services and timers run on a multi-threaded
-- executor (src/system_manager_main.cpp), and long operations on a thread of their own
-- (launchOperation); all of them share the fields behind mutex_. It calls the adapters (which start
-- and stop processes through ProcessManager), MapManager, HealthMonitor and
-- LocalizationQualityMonitor.
--
-- Files.
--   Base: names and helpers that all files share. Doubles: the operations on
--     double and float, as an interface; the comparisons of IEEE 754, as laws that a theorem may assume.
--   Outcome: calls that may throw. Yaml: yaml-cpp as an interface, and requiredValue. Steps: calls that
--     run several sections, with other threads in between.
--   State: system_state.hpp, the enumeration, toString and canTransition (index is the enumerator's
--     value, is the comparison). State/Graph: the transition diagram as a relation.
--   Program: callbacks as programs of atomic sections. A lock_guard block of the source is one section
--     on the record Manager; a call of another component is one section on the world. turn is one
--     section of one thread, alone a run without interference.
--   Manager/Fields: the fields of SystemManager and the sections transitionToLocked, setSystemError
--     and finishOperation. Manager/Components: the calls of the other components, as an interface.
--     Manager/Background: launchOperation with its catch clauses. Manager/Maps, Manager/Mapping,
--     Manager/Localization, Manager/Pose, Manager/Sensors, Manager/Recovery: the handlers handleX as
--     handle_x, and the lambdas that they launch as x_operation. Manager/System: all callbacks as entry
--     points, and histories of arriving callbacks, turns of threads, outside changes and the
--     destructor's flag.
--   Manager/Token and its children: the discipline of operation_in_progress_, a rule for each kind of
--     section, each handler, arbitrary interleavings, whole histories.
--   Quality: the messages, configuration and fields of LocalizationQualityMonitor
--     (src/localization_quality_monitor.cpp). Quality/Observe: reset and the observers.
--     Quality/Score and Quality/Evaluate: evaluate in its steps, up to the score and behind it.
--     Quality/History: runs of these calls, with the verdict of each evaluation; History/Steps
--     and History/Machine: the calls as moves of a small machine on the state and the counters,
--     History/Streaks and History/Runs: that machine against the history.
--     Quality/Safety: single calls. Quality/Config and Quality/Valid: loadConfig and what it accepts.
--   Health: HealthMonitor (src/health_monitor.cpp). Health/Load: loadConfig and the constructor.
--     Health/Windows: its queues of samples.
--     Health/Receipts: its calls in sequence.
--   Config: ConfigManager (src/config_manager.cpp). Config/Load: load, get and isLoaded.
--     Config/Accepts: what load accepts.
--   Process: ProcessManager (src/process_manager.cpp), over the operating system as an interface.
--     Process/Commands: names and expandCommand. Process/Control: refreshProcessLocked, startProcess and
--     the queries. Process/Stopping: stopProcess. Process/Groups: the operations on all processes.
--     Process/Load: loadConfig. Process/Resolved, Process/Table, Process/Started, Process/Stops,
--     Process/Waits, Process/Loaded: what they do.
--   Store: MapManager (src/map_manager.cpp), over the file system as an interface. Store/Io: calls
--     that change the files and may throw. Store/Names: isValidMapName. Store/Metadata: the
--     metadata of a map. Store/Operations: the operations. Store/Laws, Store/Maps, Store/Listing: what they do.
--   Relocalization: RelocalizationAdapter (src/relocalization_adapter.cpp). Relocalization/Validate:
--     validatePose. Relocalization/Session: the session and the handlers of messages.
--     Relocalization/Reading and Relocalization/LastPose: loadLastPose and writeLastPose.
--     Relocalization/Saving: requestLastPoseSave and the worker. Relocalization/Calls: all calls, and
--     interleavings of their sections; Relocalization/Trust and Relocalization/Requests: what they keep
--     and do.
--   Adapters: LocalizationAdapter (src/localization_adapter.cpp) and MappingAdapter
--     (src/mapping_adapter.cpp), which call the operations of Process. Adapters/Configuration and
--     Adapters/MappingConfig: loadConfig. Adapters/RuntimeConfig: prepareRuntimeConfig.
--     Adapters/Localization and Adapters/Mapping: start, stop and saveMap. Adapters/Ready and
--     Adapters/Saved: what they do.
--   Tests: a concrete world, runs on it and the theorems at concrete inputs.
--
-- Bounds and fuel. Steady-clock times are numbers of nanoseconds. The polling loop of the stored
-- pose in handleStartLocalization takes as many rounds as sleeps of 100 ms fit in its interval, and
-- one more: each round sleeps for at least 100 ms, so the deadline has passed by then. The counter of
-- attempts is structural. The counters of the quality monitor wrap at 2 ^ 64, those in its status
-- saturate at 2 ^ 32 - 1. Times of ROS and of the steady clock are natural numbers, and the difference of
-- two, which may be negative, is a parameter. The loop of waitForExit has fuel for its timeout in
-- rounds of 50 ms, and two more, those of
-- waitForInitialPoseConsumer and of LocalizationAdapter::start the same for rounds of 100 ms.
--
-- What the model leaves open. The model starts behind the constructor, so the owned components
-- exist and their null tests pass. An interleaving may start any callback at any time, also where
-- the executor's callback groups would not, and may change the world between any two sections.
-- Joining the previous operation thread is left out, since that thread has nothing to do behind
-- finishOperation. Calls that the source wraps in no error code, and that throw, do so where
-- Manager/Components gives an Outcome; stops, resets and the start of mapping do not throw, so
-- that the catch clauses of performRecovery are there but are not reached. A key that is asked of a YAML
-- scalar is a missing key, where yaml-cpp throws BadSubscript. Reading a field
-- together with the lock that guards it is one section; logging has no effect.
--
-- Not modelled: the constructors but those of MapManager and HealthMonitor, and status publication. The calls that Manager/Components gives to the node are not yet bound to the models of
-- the components in Process, Store, Relocalization and Adapters. ROS, YAML, the file system and the
-- operating system enter as parameters.
pub mod Base
pub mod Outcome
pub mod Yaml
pub mod Store
pub mod Relocalization
pub mod Adapters
pub mod State
pub mod Doubles
pub mod Program
pub mod Manager
pub mod Config
pub mod Steps
pub mod Process
pub mod Quality
pub mod Health
pub mod Tests
