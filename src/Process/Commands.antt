-- ===== src/Process/Commands.antt =====
-- Names, substitutions and ProcessManager::expandCommand.
use Prim.Native.Char.{code}
use Prim.Native.String.{count}
use text.Mathlib.Text.{starts_with}
use slam_system_manager.Base.{
  ℕ, zero, suc, ◌-◌, ◌==◌, leb, Bool, true, false, ◌&&◌, ◌||◌, List, [], ◌∷◌, String, ◌+++◌, str_eq,
  Option, none, some, if◌then◌else◌,
}
use slam_system_manager.Outcome.{Outcome, value, throws}

-- [A-Za-z] and [A-Za-z0-9_]
unfoldable pub is_letter : ℕ → Bool
is_letter c = leb b'a' c && leb c b'z' || leb b'A' c && leb c b'Z'

unfoldable pub is_name_char : ℕ → Bool
is_name_char c = is_letter c || leb b'0' c && leb c b'9' || c == b'_'

unfoldable pub all_name_chars : String → Bool
all_name_chars String.[] = true
all_name_chars (String.◌∷◌ c s) = is_name_char (code c) && all_name_chars s

-- ^[A-Za-z][A-Za-z0-9_]*$
unfoldable pub valid_process_name : String → Bool
valid_process_name String.[] = false
valid_process_name (String.◌∷◌ c s) = is_letter (code c) && all_name_chars s

-- ^[A-Za-z_][A-Za-z0-9_]*$
unfoldable pub valid_substitution_name : String → Bool
valid_substitution_name String.[] = false
valid_substitution_name (String.◌∷◌ c s) =
    (is_letter (code c) || code c == b'_') && all_name_chars s

-- The loop of find and replace: every occurrence from the left, none inside a replacement. The first
-- argument counts the characters of a match that are still to be dropped.
unfoldable pub replace_all : String → String → ℕ → String → String
replace_all token text skip String.[] = String.[]
replace_all token text (suc skip) (String.◌∷◌ c s) = replace_all token text skip s
replace_all token text zero (String.◌∷◌ c s) = elim (starts_with (String.◌∷◌ c s) token) [
  | true ↦ text +++ replace_all token text (count token - 1) s
  | false ↦ String.◌∷◌ c (replace_all token text 0 s)
]

unfoldable pub substituted : String → List (String × String) → String
substituted command [] = command
substituted command ((key, text) ∷ rest) =
    substituted (replace_all ("{" +++ key +++ "}") text 0 command) rest

-- The end of a match of \{[A-Za-z_][A-Za-z0-9_]*\}, behind its first name character: the rest of the
-- name.
unfoldable pub name_before_brace : String → Option String
name_before_brace String.[] = none
name_before_brace (String.◌∷◌ c s) =
    let rest = name_before_brace s in
    if code c == b'}'
    then some ""
    else if is_name_char (code c)
    then elim rest [ none ↦ none | some name ↦ some (String.◌∷◌ c name) ]
    else none

unfoldable pub name_in_braces : String → Option String
name_in_braces String.[] = none
name_in_braces (String.◌∷◌ c s) =
    if is_letter (code c) || code c == b'_'
    then elim (name_before_brace s) [ none ↦ none | some name ↦ some (String.◌∷◌ c name) ]
    else none

-- regex_search: the name in the first match.
unfoldable pub unresolved : String → Option String
unresolved String.[] = none
unresolved (String.◌∷◌ c s) =
    let later = unresolved s in
    if code c == b'{'
    then elim (name_in_braces s) [ some name ↦ some name | none ↦ later ]
    else later

unfoldable pub expand_command : String → List (String × String) → Outcome String
expand_command command substitutions =
    let expanded = substituted command substitutions in
    elim (unresolved expanded) [
      | some name ↦ throws ("Missing command substitution for token: {" +++ name +++ "}")
      | none ↦ value expanded
    ]

-- `merged[key] = text`
unfoldable pub assign : String → String → List (String × String) → List (String × String)
assign key text [] = (key, text) ∷ []
assign key text ((k, old) ∷ rest) =
    if str_eq k key then (k, text) ∷ rest else (k, old) ∷ assign key text rest

unfoldable pub merged : List (String × String) → List (String × String) → List (String × String)
merged into [] = into
merged into ((key, text) ∷ rest) = merged (assign key text into) rest
