-- ===== src/Manager/Token/Rules.antt =====
-- One rule of `Guarded` for each kind of section in the callbacks.
use slam_system_manager.Base.{◌≡◌, ◌≢◌, true, false, arith}
use slam_system_manager.State.{State, can_transition}
use slam_system_manager.Manager.Fields.{Manager, transition_to_locked, finish_operation}
use slam_system_manager.Manager.Token.{
  is_transient, Token, idle, settled, busy, Knows, Same, Takes, Moves,
}

module _ {D : Type 0} where
  pub keep-Moves : (tok : Token) (m m' : Manager D) → Knows tok m → Same m m' → Moves tok tok m m'
  keep-Moves idle m m' a s = ground arith
  keep-Moves settled m m' a s = ground arith
  keep-Moves (busy t) m m' a s = ground arith

  pub go-Moves :
      (tok : Token) (next : State) (m : Manager D)
      → is_transient next ≡ false
      → Knows tok m
      → Moves tok tok m (transition_to_locked next m).0
  unfolding transition_to_locked
  go-Moves idle next m h a = ground arith
  go-Moves settled next m h a = ground arith
  go-Moves (busy t) next m h a = ground arith

  pub settle-Moves :
      (t next : State) (m : Manager D)
      → is_transient next ≡ false
      → can_transition t next ≡ true
      → Knows (busy t) m
      → Moves (busy t) settled m (transition_to_locked next m).0
  unfolding transition_to_locked
  settle-Moves t next m h k a = ground arith

  pub enter-Moves :
      (t : State) (m : Manager D)
      → Knows settled m
      → Moves settled (busy t) m (transition_to_locked t m).0
        × ((transition_to_locked t m).1 ≡ false
            → Moves settled settled m (transition_to_locked t m).0)
  unfolding transition_to_locked
  enter-Moves t m a = ground arith

  pub leave-Moves :
      (t : State) (m m' : Manager D)
      → Knows (busy t) m
      → Same m m'
      → m.current_state ≢ t
      → Moves (busy t) settled m m'
  leave-Moves t m m' a s n = ground arith

  pub release-Moves :
      (m : Manager D) → Knows settled m → Moves settled idle m (finish_operation m).0
  unfolding finish_operation
  release-Moves m a = ground arith

  pub take-Moves : (m m' : Manager D) → Knows idle m → Takes m m' → Moves idle settled m m'
  take-Moves m m' a t = ground arith
