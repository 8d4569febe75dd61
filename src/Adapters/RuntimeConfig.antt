-- ===== src/Adapters/RuntimeConfig.antt =====
-- MappingAdapter::prepareRuntimeConfig.
use slam_system_manager.Base.{true, not, ◌||◌, [], ◌∷◌, String, ◌+++◌, str_eq, Option, none, some}
use slam_system_manager.Outcome.{Outcome, value, throws}
use slam_system_manager.Yaml.{map_at}
use slam_system_manager.Store.{written, not_opened, not_written}
use slam_system_manager.Store.Io.{Io, ◌>>=◌, ◌>>◌, done, refused, refuse_io, lift, query, effect}
use slam_system_manager.Adapters.{MappingHost}
use slam_system_manager.Adapters.MappingConfig.{MappingAdapterConfig, resolve_config_path}

module _ (host : MappingHost) (config : MappingAdapterConfig host.Double) where
  open host use {
    World, FilePath, is_absolute, filename, text_of, yaml, slash, parent_path, is_directory, remove,
    rename, write_file, getpid, load_file, assign_text, assign_bool, emit,
  }
  open yaml use {Node, child}

  abbrev pub runtime_path : FilePath → FilePath
  runtime_path directory = slash directory config.runtime_config_name

  abbrev pub temporary_path : FilePath → FilePath
  temporary_path directory =
      slash directory ("." +++ config.runtime_config_name +++ ".tmp." +++ getpid)

  -- root["/**"]["ros__parameters"], if it is a map.
  unfoldable pub parameters_of : Node → Option Node
  parameters_of root = elim (child root "/**") [
    | none ↦ none
    | some node ↦ map_at yaml node "ros__parameters"
  ]

  -- The template with the two parameters that the adapter sets.
  unfoldable pub edited : FilePath → Node → Node
  edited map_path root =
      assign_bool ("/**" ∷ "ros__parameters" ∷ "pcd_save" ∷ "pcd_save_en" ∷ []) true
        (assign_text ("/**" ∷ "ros__parameters" ∷ "map_file_path" ∷ []) (text_of map_path) root)

  -- The end of prepareRuntimeConfig: the temporary file takes the place of the old one.
  unfoldable pub install_runtime : FilePath → Io World FilePath
  install_runtime directory = do
    error ← effect (rename (temporary_path directory) (runtime_path directory))
    elim error [
      | none ↦ done (runtime_path directory)
      | some why ↦ do
        remove (temporary_path directory)
        refused ("Unable to install mapping runtime config: " +++ why)
    ]

  unfoldable pub write_runtime : FilePath → Option String → Io World FilePath
  write_runtime directory none = refused "Unable to serialize mapping runtime configuration"
  write_runtime directory (some output) = do
    outcome ← effect (write_file (temporary_path directory) (output +++ "\n"))
    elim outcome [
      | not_opened ↦
          refused
            ("Unable to create mapping runtime config: " +++ text_of (temporary_path directory))
      | not_written ↦
          refused
            ("Unable to write mapping runtime config: " +++ text_of (temporary_path directory))
      | written ↦ install_runtime directory
    ]

  abbrev pub relabelled_load : FilePath → World → Outcome Node
  relabelled_load path w = elim (load_file (text_of path) w) [
    | value root ↦ value root
    | throws what ↦ throws ("Unable to load mapping template '" +++ text_of path +++ "': " +++ what)
  ]

  unfoldable pub prepare_runtime_config : FilePath → Io World FilePath
  prepare_runtime_config map_path = do
    refuse_io (not (is_absolute map_path) || not (str_eq (filename map_path) "map.pcd"))
        "Mapping output must be an absolute path ending in map.pcd"
    there ← query (is_directory (parent_path map_path))
    refuse_io (not there) ("Map directory does not exist: " +++ text_of (parent_path map_path))
    template_path ← lift (resolve_config_path host config.template_config)
    root ← query (relabelled_load template_path)
    elim (parameters_of root) [
      | none ↦ refused "Mapping template must contain '/**.ros__parameters'"
      | some parameters ↦ write_runtime (parent_path map_path) (emit (edited map_path root))
    ]
