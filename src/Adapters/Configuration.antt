-- ===== src/Adapters/Configuration.antt =====
-- LocalizationAdapter::loadConfig.
use slam_system_manager.Base.{
  starts_at_root, not, ◌||◌, List, [], ◌∷◌, String, ◌+++◌, if◌then◌else◌,
}
use slam_system_manager.Doubles.{Doubles}
use slam_system_manager.Outcome.{Outcome, value, throws, relabelled, refuse, ◌>>=◌, ◌>>◌}
use slam_system_manager.Yaml.{Yaml, required, section_at}

pub record LocalizationAdapterConfig (D : Type 0) : Type 0 where
  pub startup_timeout_sec : D
  pub startup_stability_sec : D
  pub required_topics : List String

module _ (f : Doubles) where
  open f use {Double, lt, le, zero_d}

  unfoldable pub check_topics : List String → Outcome (Unit {0})
  check_topics [] = value tt
  check_topics (topic ∷ topics) = do
    refuse (not (starts_at_root topic))
        ("Localization required topics must be absolute: " +++ topic)
    check_topics topics

  unfoldable pub check_localization :
      LocalizationAdapterConfig Double → Outcome (LocalizationAdapterConfig Double)
  check_localization c = do
    refuse
        (le c.startup_timeout_sec zero_d
          || le c.startup_stability_sec zero_d
          || lt c.startup_timeout_sec c.startup_stability_sec)
        "Localization adapter startup timing must be positive and stability must not exceed timeout"
    check_topics c.required_topics
    value c

  module _ (yaml : Yaml Double) where
    open yaml use {Node, elements, is_sequence, as_string, as_double}

    abbrev pub required_value : {T : Type 0} → (Node → Outcome T) → Node → String → Outcome T
    required_value =
        required yaml (λ key. "Missing localization_adapter configuration key: " +++ key)
          (λ key. "Invalid localization_adapter configuration key '" +++ key +++ "': ")

    -- `as<std::vector<std::string>>`, whose text on a node that is no sequence is unknown.
    unfoldable pub read_texts : List Node → Outcome (List String)
    read_texts [] = value []
    read_texts (node ∷ nodes) = do
      text ← as_string node
      texts ← read_texts nodes
      value (text ∷ texts)

    module _ (bad_conversion : String) (load_file : String → Outcome Node) where
      abbrev pub as_texts : Node → Outcome (List String)
      as_texts node = if is_sequence node then read_texts (elements node) else throws bad_conversion

      unfoldable pub load_localization : String → Outcome (LocalizationAdapterConfig Double)
      load_localization path = do
        root ← relabelled "Unable to load localization adapter config: " (load_file path)
        localization ←
            section_at yaml "Process config must contain a localization_adapter map" root
              "localization_adapter"
        startup_timeout_sec ← required_value as_double localization "startup_timeout_sec"
        startup_stability_sec ← required_value as_double localization "startup_stability_sec"
        required_topics ← required_value as_texts localization "required_topics"
        check_localization (record {
          startup_timeout_sec = startup_timeout_sec;
          startup_stability_sec = startup_stability_sec;
          required_topics = required_topics;
        })
