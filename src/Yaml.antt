-- ===== src/Yaml.antt =====
-- yaml-cpp as an interface, and the function template requiredValue, of which each source file has a
-- copy with texts of its own.
use slam_system_manager.Base.{ℕ, Bool, List, String, Option, none, some, if◌then◌else◌}
use slam_system_manager.Outcome.{Outcome, value, throws, relabelled}

-- `child` is `parent[key]`, with `none` for a key that is missing or a parent that cannot have keys.
-- (Of a scalar yaml-cpp throws BadSubscript instead; the callers throw in either case, with another text.)
-- `elements` and `entries` are what a loop over a sequence and over a map visits. The conversions
-- throw YAML::Exception with a text.
pub record Yaml (D : Type 0) : Type 1 where
  pub Node : Type 0
  pub child : Node → String → Option Node
  pub is_null : Node → Bool
  pub is_map : Node → Bool
  pub is_sequence : Node → Bool
  pub elements : Node → List Node
  pub entries : Node → List (Node × Node)
  pub as_string : Node → Outcome String
  pub as_bool : Node → Outcome Bool
  pub as_double : Node → Outcome D
  pub as_size : Node → Outcome ℕ

module _ {D : Type 0} (yaml : Yaml D) where
  open yaml use {Node, child, is_null, is_map}

  -- requiredValue<T>, with the texts of the two exceptions.
  unfoldable pub required :
      {T : Type 0}
      → (String → String)
      → (String → String)
      → (Node → Outcome T)
      → Node
      → String
      → Outcome T
  required missing invalid read parent key = elim (child parent key) [
    | none ↦ throws (missing key)
    | some node ↦
        if is_null node then throws (missing key) else relabelled (invalid key) (read node)
  ]

  -- A child that is a map.
  unfoldable pub map_at : Node → String → Option Node
  map_at parent key = elim (child parent key) [
    | none ↦ none
    | some node ↦ if is_map node then some node else none
  ]

  -- A child that must be a map.
  unfoldable pub section_at : String → Node → String → Outcome Node
  section_at why parent key = elim (map_at parent key) [
    | none ↦ throws why
    | some node ↦ value node
  ]
