-- ===== src/Adapters/MappingConfig.antt =====
-- MappingAdapter::loadConfig and resolveConfigPath.
use Prim.Native.Char.{code}
use slam_system_manager.Base.{
  is_empty, starts_at_root, ◌==◌, not, ◌||◌, String, ◌+++◌, str_eq, Option, none, some,
  if◌then◌else◌,
}
use slam_system_manager.Outcome.{Outcome, value, throws, relabelled, refuse, ◌>>=◌, ◌>>◌}
use slam_system_manager.Yaml.{required, section_at}
use slam_system_manager.Adapters.{MappingHost}

pub record MappingAdapterConfig (D : Type 0) : Type 0 where
  pub template_config : String
  pub runtime_config_name : String
  pub save_service_name : String
  pub save_service_type : String
  pub startup_timeout_sec : D
  pub save_timeout_sec : D

-- What follows a prefix, if the text starts with it.
unfoldable pub behind_prefix : String → String → Option String
behind_prefix String.[] s = some s
behind_prefix (String.◌∷◌ c p) String.[] = none
behind_prefix (String.◌∷◌ c p) (String.◌∷◌ d s) =
    let rest = behind_prefix p s in if code c == code d then rest else none

-- The parts before and behind the first '/'.
unfoldable pub split_at_slash : String → Option (String × String)
split_at_slash String.[] = none
split_at_slash (String.◌∷◌ c s) =
    let rest = split_at_slash s in
    if code c == b'/'
    then some ("", s)
    else elim rest [ none ↦ none | some (before, behind) ↦ some (String.◌∷◌ c before, behind) ]

module _ (host : MappingHost) where
  open host use {
    Double, World, FilePath, le, zero_d, yaml, slash, from_text, is_absolute, has_parent_path,
    package_share_directory,
  }
  open yaml use {Node, as_string, as_double}

  -- resolveConfigPath behind the prefix.
  unfoldable pub resolve_package : String → Option (String × String) → Outcome FilePath
  resolve_package path none = throws ("Invalid package:// mapping template path: " +++ path)
  resolve_package path (some (package_name, relative_path)) = do
    refuse (is_empty package_name) ("Invalid package:// mapping template path: " +++ path)
    share ← package_share_directory package_name
    value (slash share relative_path)

  unfoldable pub resolve_config_path : String → Outcome FilePath
  resolve_config_path path = elim (behind_prefix "package://" path) [
    | none ↦ do
      refuse (not (is_absolute (from_text path)))
          "Mapping template path must be absolute or use package://"
      value (from_text path)
    | some package_and_path ↦ resolve_package path (split_at_slash package_and_path)
  ]

  abbrev pub required_value : {T : Type 0} → (Node → Outcome T) → Node → String → Outcome T
  required_value =
      required yaml (λ key. "Missing mapping_adapter configuration key: " +++ key)
        (λ key. "Invalid mapping_adapter configuration key '" +++ key +++ "': ")

  unfoldable pub check_mapping : MappingAdapterConfig Double → Outcome (MappingAdapterConfig Double)
  check_mapping c = do
    refuse (is_empty c.runtime_config_name || has_parent_path (from_text c.runtime_config_name))
        "mapping_adapter.runtime_config_name must be a file name"
    refuse (is_empty c.save_service_name || not (starts_at_root c.save_service_name))
        "mapping adapter save service name must be absolute"
    refuse (not (str_eq c.save_service_type "std_srvs/srv/Trigger"))
        ("Unsupported mapping save service type: " +++ c.save_service_type)
    refuse (le c.startup_timeout_sec zero_d || le c.save_timeout_sec zero_d)
        "Mapping adapter timeouts must be positive"
    value c

  unfoldable pub load_mapping :
      (String → Outcome Node) → String → Outcome (MappingAdapterConfig Double)
  load_mapping load_file path = do
    root ← relabelled "Unable to load mapping adapter config: " (load_file path)
    mapping ←
        section_at yaml "Process config must contain a mapping_adapter map" root "mapping_adapter"
    template_config ← required_value as_string mapping "template_config"
    runtime_config_name ← required_value as_string mapping "runtime_config_name"
    startup_timeout_sec ← required_value as_double mapping "startup_timeout_sec"
    save_service ←
        section_at yaml "mapping_adapter.save_service must be a map" mapping "save_service"
    save_service_name ← required_value as_string save_service "name"
    save_service_type ← required_value as_string save_service "type"
    save_timeout_sec ← required_value as_double save_service "timeout_sec"
    check_mapping (record {
      template_config = template_config;
      runtime_config_name = runtime_config_name;
      save_service_name = save_service_name;
      save_service_type = save_service_type;
      startup_timeout_sec = startup_timeout_sec;
      save_timeout_sec = save_timeout_sec;
    })
