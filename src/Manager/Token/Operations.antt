-- ===== src/Manager/Token/Operations.antt =====
-- The discipline of launchOperation: an operation may end by any exception, and the flag comes back.
use slam_system_manager.Base.{◌≡◌, refl, inl, inr, Bool, true, String, arith, if_both, Bool-cases}
use slam_system_manager.State.{State, error, can_transition}
use slam_system_manager.Program.{
  Reply, response, response_with, finished, raised, Prog, ret, locked, outside, fork, lock, ◌>>=◌,
  ◌>>◌,
}
use slam_system_manager.Manager.Fields.{
  Manager, transition_to_locked, set_system_error, finish_operation, look,
}
use slam_system_manager.Manager.Background.{transition_to, after, operation_end, launch_operation}
use slam_system_manager.Manager.Token.{
  is_transient, Token, idle, settled, busy, Knows, Moves, Done, Ended, Guarded,
}
use slam_system_manager.Manager.Token.Rules.{keep-Moves, go-Moves, release-Moves}

-- Every transient state may fail.
transient_can_fail : (s : State) → is_transient s ≡ true → can_transition s error ≡ true
unfolding can_transition
transient_can_fail s h = ground arith

module _ {D : Type 0} where
  pub fail-Moves :
      (t : State) (m : Manager D)
      → Knows (busy t) m
      → Moves (busy t) settled m (transition_to_locked error m).0
  unfolding transition_to_locked
  fail-Moves t m a = ground (arith, transient_can_fail m.current_state)

  stopping-Moves :
      (t : State) (m : Manager D)
      → Knows (busy t) m
      → m.shutting_down ≡ true
      → Moves (busy t) settled m m
  stopping-Moves t m a s = ground arith

  staying-Moves : (t : State) (m : Manager D) → Knows (busy t) m → Moves (busy t) (busy t) m m
  staying-Moves t m a = ground arith

module _ {D W : Type 0} (E : Token → Reply → Type 0) where
  -- The holder of any transient state asks for ERROR.
  pub fail-Guarded :
      (t : State) (k : Bool → Prog (Manager D) W)
      → ((b : Bool) → Guarded E settled (k b))
      → Guarded E (busy t) (transition_to error >>= k)
  fail-Guarded t k g m a = (settled, fail-Moves t m a, g (transition_to_locked error m).1)

module _ {D W : Type 0} (E F : Token → Reply → Type 0) where
  pub after-Guarded :
      (tok : Token) (p : Prog (Manager D) W) (k : Reply → Prog (Manager D) W)
      → Guarded E tok p
      → ((u : Token) (r : Reply) → E u r → Guarded F u (k r))
      → Guarded F tok (after p k)
  unfolding after
  after-Guarded tok (ret r) k g h = h tok r g
  after-Guarded tok (locked u f) k g h =
      λ m a. let (tok', mv, g') = g m a in (tok', mv, after-Guarded tok' (f m) k g' h)
  after-Guarded tok (outside u f) k g h = λ w. after-Guarded tok (f w) k (g w) h
  after-Guarded tok (fork p q) k g h = (g.0, after-Guarded idle q k g.1 h)

module _ (D W : Type 0) where
  finish-Guarded : Guarded {D = D} {W = W} Done settled (do lock finish_operation; ret finished)
  finish-Guarded m a = (idle, release-Moves m a, tt)

  raised-Guarded :
      (tok : Token) (what : String)
      → Ended tok (raised what)
      → Guarded {D = D} {W = W} Done tok (operation_end (raised what))
  unfolding operation_end set_system_error look
  raised-Guarded idle what h = absurd h
  raised-Guarded settled what h = λ m a. (
    settled,
    keep-Moves settled m _ a (refl, refl, refl),
    λ m a. (
      settled,
      keep-Moves settled m _ a (refl, refl, refl),
      if_both (Guarded Done settled) m.shutting_down (λ _. finish-Guarded)
          (λ _ m a. (settled, go-Moves settled error m refl a, finish-Guarded)),
    ),
  )
  raised-Guarded (busy t) what h = λ m a. (
    busy t,
    keep-Moves (busy t) m _ a (refl, refl, refl),
    λ m a. elim (Bool-cases m.shutting_down) [
      | inl e ↦ (settled, stopping-Moves t m a e, rw e finish-Guarded)
      | inr e ↦ (
        busy t,
        keep-Moves (busy t) m _ a (refl, refl, refl),
        rw e (λ m a. (settled, fail-Moves t m a, finish-Guarded)),
      )
    ],
  )

  operation_end-Guarded :
      (tok : Token) (r : Reply) → Ended tok r → Guarded {D = D} {W = W} Done tok (operation_end r)
  unfolding operation_end
  operation_end-Guarded tok (raised what) h = raised-Guarded tok what h
  operation_end-Guarded settled finished h = finish-Guarded
  operation_end-Guarded settled (response b x) h = finish-Guarded
  operation_end-Guarded settled (response_with b x l) h = finish-Guarded
  operation_end-Guarded idle _ h = absurd h
  operation_end-Guarded (busy t) _ h = absurd h

  -- However the operation ends, its thread gives the flag back.
  pub launch-Guarded :
      (tok : Token) (p : Prog (Manager D) W) (r : Reply)
      → Guarded Ended tok p
      → Guarded Done tok (launch_operation p r)
  unfolding launch_operation
  launch-Guarded tok p r g =
      (after-Guarded Ended Done tok p operation_end g operation_end-Guarded, tt)
