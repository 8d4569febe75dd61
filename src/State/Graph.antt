-- ===== src/State/Graph.antt =====
-- The transition diagram of system_state.hpp as a relation, and what paths through it can do.
use slam_system_manager.Base.{
  ◌≡◌, refl, sym, ap, ◌∙◌, str_eq, String, if◌then◌else◌, ◌≢◌, ◌↔◌, Bool, true, ◌||◌, arith,
}
use slam_system_manager.State.{
  State, boot, system_check, sensor_starting, sensor_ready, wait_mode, mapping_starting, mapping,
  map_saving, localization_starting, relocalizing, localized, error, recovering, shutdown, is,
  to_string, can_transition,
}

pub is→eq : (s t : State) → is s t ≡ true → s ≡ t
is→eq s t h = ground arith

pub is_self : (s : State) → is s s ≡ true
is_self s = ground arith

-- The states from which a mode is started.
pub data IsIdle : State → Type 0 where
  ready : IsIdle sensor_ready
  waiting : IsIdle wait_mode

-- The states that give up and wait for the next mode.
pub data IsMode : State → Type 0 where
  starting_map : IsMode mapping_starting
  making_map : IsMode mapping
  saving_map : IsMode map_saving
  starting_localization : IsMode localization_starting
  seeking : IsMode relocalizing
  tracking : IsMode localized

-- The diagram: boot, sensor readiness, the two modes, failure, recovery and shutdown.
pub data Edge : State → State → Type 0 where
  check : Edge boot system_check
  start_sensors : Edge system_check sensor_starting
  sensors_up : Edge sensor_starting sensor_ready
  sensors_down : {s : State} → IsIdle s → Edge s sensor_starting
  settle : Edge sensor_ready wait_mode
  start_mapping : {s : State} → IsIdle s → Edge s mapping_starting
  map : Edge mapping_starting mapping
  save : Edge mapping map_saving
  start_localization : {s : State} → IsIdle s → Edge s localization_starting
  seek : Edge localization_starting relocalizing
  lock : Edge relocalizing localized
  reseek : Edge localized relocalizing
  leave : {s : State} → IsMode s → Edge s wait_mode
  fail : {s : State} → s ≢ error → s ≢ shutdown → Edge s error
  recover : Edge error recovering
  recheck : Edge recovering system_check
  restart : Edge recovering sensor_starting
  resume : Edge recovering wait_mode
  halt : {s : State} → s ≢ shutdown → Edge s shutdown

ruleset edges = (
  check, start_sensors, sensors_up, sensors_down, settle, start_mapping, map, save,
  start_localization, seek, lock, reseek, leave, fail, recover, recheck, restart, resume, halt,
  ready, waiting, starting_map, making_map, saving_map, starting_localization, seeking, tracking,
)

can_transition→Edge : (s t : State) → can_transition s t ≡ true → Edge s t
unfolding can_transition
can_transition→Edge s t h = grind (arith, edges)

Edge→can_transition : {s t : State} → Edge s t → can_transition s t ≡ true
unfolding can_transition
Edge→can_transition {s} (halt h) = ground arith
Edge→can_transition {s} (fail h k) = ground arith
Edge→can_transition check = refl
Edge→can_transition (sensors_down ready) = refl
Edge→can_transition (sensors_down waiting) = refl
Edge→can_transition (start_mapping ready) = refl
Edge→can_transition (start_mapping waiting) = refl
Edge→can_transition (start_localization ready) = refl
Edge→can_transition (start_localization waiting) = refl
Edge→can_transition (leave starting_map) = refl
Edge→can_transition (leave making_map) = refl
Edge→can_transition (leave saving_map) = refl
Edge→can_transition (leave starting_localization) = refl
Edge→can_transition (leave seeking) = refl
Edge→can_transition (leave tracking) = refl
Edge→can_transition _ = refl

-- `canTransition` holds of exactly the edges of the diagram.
pub can_transition_iff-Edge : (s t : State) → (can_transition s t ≡ true) ↔ Edge s t
can_transition_iff-Edge s t = (can_transition→Edge s t, Edge→can_transition)

-- The state that a published name stands for.
decode : String → State
decode x =
    if str_eq x "BOOT"
    then boot
    else if str_eq x "SYSTEM_CHECK"
    then system_check
    else if str_eq x "SENSOR_STARTING"
    then sensor_starting
    else if str_eq x "SENSOR_READY"
    then sensor_ready
    else if str_eq x "WAIT_MODE"
    then wait_mode
    else if str_eq x "MAPPING_STARTING"
    then mapping_starting
    else if str_eq x "MAPPING"
    then mapping
    else if str_eq x "MAP_SAVING"
    then map_saving
    else if str_eq x "LOCALIZATION_STARTING"
    then localization_starting
    else if str_eq x "RELOCALIZING"
    then relocalizing
    else if str_eq x "LOCALIZED"
    then localized
    else if str_eq x "ERROR"
    then error
    else if str_eq x "RECOVERING"
    then recovering
    else shutdown

decode-to_string : (s : State) → decode (to_string s) ≡ s
unfolding decode to_string
decode-to_string boot = refl
decode-to_string _ = refl

-- No two states share a name.
to_string_injective : (s t : State) → to_string s ≡ to_string t → s ≡ t
to_string_injective s t h = sym (decode-to_string s) ∙ ap decode h ∙ decode-to_string t

-- A sequence of transitions that `canTransition` allows.
pub data Leads (s : State) : State → Type 0 where
  here : Leads s s
  along : {t u : State} → Leads s t → can_transition t u ≡ true → Leads s u

Leads-trans : {s t u : State} → Leads s t → Leads t u → Leads s u
Leads-trans p here = p
Leads-trans p (along q e) = along (Leads-trans p q) e

follow : {s t u : State} → Leads s t → Edge t u → Leads s u
follow p e = along p (Edge→can_transition e)

from_error : (t : State) → t ≢ boot → Leads error t
from_error boot h = absurd (h refl)
from_error mapping _ =
    follow (follow (follow (follow here recover) resume) (start_mapping waiting)) map
from_error map_saving _ =
    follow (follow (follow (follow (follow here recover) resume) (start_mapping waiting)) map) save
from_error localized _ =
    follow (follow (follow (follow (follow here recover) resume) (start_localization waiting)) seek)
      lock
from_error relocalizing _ =
    follow (follow (follow (follow here recover) resume) (start_localization waiting)) seek
from_error localization_starting _ =
    follow (follow (follow here recover) resume) (start_localization waiting)
from_error mapping_starting _ = follow (follow (follow here recover) resume) (start_mapping waiting)
from_error sensor_ready _ = follow (follow (follow here recover) restart) sensors_up
from_error shutdown _ = follow here (halt (λ e. cc))
from_error error _ = here
from_error recovering _ = follow here recover
from_error wait_mode _ = follow (follow here recover) resume
from_error sensor_starting _ = follow (follow here recover) restart
from_error system_check _ = follow (follow here recover) recheck

to_error : (s : State) → s ≢ shutdown → Leads s error
to_error error h = here
to_error shutdown h = absurd (h refl)
to_error _ h = follow here (fail (λ e. cc) h)

-- From every state but SHUTDOWN every state but BOOT can be reached by transitions that `canTransition` allows.
pub Leads-everywhere : (s t : State) → s ≢ shutdown → t ≢ boot → Leads s t
Leads-everywhere s t h k = Leads-trans (to_error s h) (from_error t k)

can_transition-ends : (s t : State) → can_transition s t ≡ true → (s ≢ shutdown) × (t ≢ boot)
unfolding can_transition
can_transition-ends s t e = ground arith

-- Transitions that `canTransition` allows never leave SHUTDOWN and never enter BOOT.
pub Leads-ends : {s t : State} → Leads s t → (s ≡ shutdown → t ≡ shutdown) × (t ≡ boot → s ≡ boot)
Leads-ends here = (λ e. e, λ e. e)
Leads-ends (along {t = t} {u = u} p e) = ground (arith, Leads-ends p, can_transition-ends t u e)

abbrev pub is_mapping : State → Bool
is_mapping s = is s mapping_starting || is s mapping || is s map_saving

abbrev pub is_localization : State → Bool
is_localization s = is s localization_starting || is s relocalizing || is s localized

-- A sequence of transitions that `canTransition` allows in which no state after the first is outside the six mode states.
pub data Stays (s : State) : State → Type 0 where
  start : Stays s s
  onward :
      {t u : State}
      → Stays s t
      → can_transition t u ≡ true
      → (is_mapping u || is_localization u) ≡ true
      → Stays s u

can_transition-mode :
    (s t : State)
    → can_transition s t ≡ true
    → is_mapping s ≡ true
    → (is_mapping t || is_localization t) ≡ true
    → is_mapping t ≡ true
unfolding can_transition
can_transition-mode s t e h k = ground arith

-- Transitions that `canTransition` allows lead from a mapping state to a localization state only through a state that is neither.
pub Stays-is_mapping : {s t : State} → Stays s t → is_mapping s ≡ true → is_mapping t ≡ true
Stays-is_mapping start h = h
Stays-is_mapping (onward {t = t} {u = u} p e k) h =
    can_transition-mode t u e (Stays-is_mapping p h) k
