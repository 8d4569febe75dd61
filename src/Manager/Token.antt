-- ===== src/Manager/Token.antt =====
-- The discipline of operation_in_progress_: which thread holds the flag, and what a holder knows of
-- the state. `Guarded` follows a program section by section.
pub mod Rules
pub mod Operations
pub mod Maps
pub mod Mapping
pub mod Saving
pub mod Pose
pub mod Localization
pub mod Sensors
pub mod Recovery
pub mod Sharing
pub mod Interleaving
pub mod History
use slam_system_manager.Base.{◌≡◌, ◌⊎◌, Bool, true, false, ◌||◌, List, [], ◌∷◌}
use slam_system_manager.State.{
  State, is, can_transition, mapping_starting, map_saving, localization_starting, recovering,
}
use slam_system_manager.Program.{
  Reply, response, response_with, finished, raised, Prog, ret, locked, outside, fork,
}
use slam_system_manager.Manager.Fields.{Manager}

-- The states that only a running operation may occupy.
abbrev pub is_transient : State → Bool
is_transient s =
    is s mapping_starting || is s map_saving || is s localization_starting || is s recovering

-- A thread is outside any operation, or holds the flag: with a state that is not transient, or with
-- a transient state that it has entered itself.
pub data Token : Type 0 where
  idle settled : Token
  busy : State → Token

module _ {D : Type 0} where
  -- Before the destructor runs, a transient state is `t`, or there is none.
  abbrev pub Calm : Manager D → Type 0
  Calm m = m.shutting_down ≡ false → is_transient m.current_state ≡ false

  abbrev pub Only : State → Manager D → Type 0
  Only t m = m.shutting_down ≡ false → is_transient m.current_state ≡ true → m.current_state ≡ t

  -- What a thread knows before each of its sections.
  abbrev pub Knows : Token → Manager D → Type 0
  Knows idle m = m.operation_in_progress ≡ false → Calm m
  Knows settled m = (m.operation_in_progress ≡ true) × Calm m
  Knows (busy t) m = (m.operation_in_progress ≡ true) × Only t m

  -- No transient state is entered.
  abbrev pub Quiet : Manager D → Manager D → Type 0
  Quiet m m' = is_transient m'.current_state ≡ true → m'.current_state ≡ m.current_state

  -- The fields on which the discipline rests stay as they are.
  abbrev pub Same : Manager D → Manager D → Type 0
  Same m m' =
      (m'.current_state ≡ m.current_state)
      × (m'.operation_in_progress ≡ m.operation_in_progress)
      × (m'.shutting_down ≡ m.shutting_down)

  -- The flag is taken, and nothing else changes on which the discipline rests.
  abbrev pub Takes : Manager D → Manager D → Type 0
  Takes m m' =
      (m.operation_in_progress ≡ false)
      × (m'.operation_in_progress ≡ true)
      × (m'.current_state ≡ m.current_state)
      × (m'.shutting_down ≡ m.shutting_down)

  -- How a section may use the flag, by the thread's token before and after it.
  abbrev pub Passes : Token → Token → Manager D → Manager D → Type 0
  Passes idle idle m m' = (m'.operation_in_progress ≡ m.operation_in_progress) × Quiet m m'
  Passes idle settled m m' =
      (m.operation_in_progress ≡ false) × (m'.operation_in_progress ≡ true) × Calm m'
  Passes idle (busy t) m m' =
      (m.operation_in_progress ≡ false) × (m'.operation_in_progress ≡ true) × Only t m'
  Passes settled idle m m' = (m'.operation_in_progress ≡ false) × Calm m'
  Passes settled settled m m' = (m'.operation_in_progress ≡ true) × Calm m'
  Passes settled (busy t) m m' = (m'.operation_in_progress ≡ true) × Only t m'
  Passes (busy t) idle m m' = ⊥
  Passes (busy t) settled m m' = (m'.operation_in_progress ≡ true) × Calm m'
  Passes (busy t) (busy u) m m' = (m'.operation_in_progress ≡ true) × Only u m'

  -- Every section changes the state along the table, if at all, and leaves the destructor's flag.
  abbrev pub Legal : Manager D → Manager D → Type 0
  Legal m m' =
      (m'.current_state ≡ m.current_state)
      ⊎ (can_transition m.current_state m'.current_state ≡ true)

  pub record Moves (tok tok' : Token) (m m' : Manager D) : Type 0 where
    pub legal : Legal m m'
    pub shutting : m'.shutting_down ≡ m.shutting_down
    pub flag : Passes tok tok' m m'

-- A thread may end with the flag only by an exception that leaves the callback.
abbrev pub Done : Token → Reply → Type 0
Done idle r = Unit
Done _ (raised what) = Unit
Done _ _ = ⊥

-- How an operation may end before launchOperation's handlers: settled, or by an exception.
abbrev pub Ended : Token → Reply → Type 0
Ended idle r = ⊥
Ended settled r = Unit
Ended (busy t) (raised what) = Unit
Ended (busy t) _ = ⊥

module _ {D W : Type 0} where
  abbrev pub Guarded : (Token → Reply → Type 0) → Token → Prog (Manager D) W → Type 0
  Guarded E tok (ret r) = E tok r
  Guarded E tok (locked u k) =
      (m : Manager D) → Knows tok m → (tok' : Token) × Moves tok tok' m (u m) × Guarded E tok' (k m)
  Guarded E tok (outside u k) = (w : W) → Guarded E tok (k w)
  Guarded E tok (fork p q) = Guarded Done tok p × Guarded E idle q
