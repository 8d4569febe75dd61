-- ===== src/Manager/Background.antt =====
-- Background operations: launchOperation with its handlers of exceptions, and finishOperation.
use slam_system_manager.Base.{Bool, if◌then◌else◌}
use slam_system_manager.State.{State, error}
use slam_system_manager.Program.{
  Reply, finished, raised, Outcome, value, throws, Prog, ret, locked, outside, fork, Action, lock,
  ◌>>=◌, ◌>>◌,
}
use slam_system_manager.Manager.Fields.{
  Manager, transition_to_locked, set_system_error, finish_operation, look,
}

-- What comes behind a program, given how it ended.
unfoldable pub after : {M W : Type 0} → Prog M W → (Reply → Prog M W) → Prog M W
after (ret r) k = k r
after (locked u f) k = locked u (λ m. after (f m) k)
after (outside u f) k = outside u (λ w. after (f w) k)
after (fork p q) k = fork p (after q k)

-- A call of a function that may throw past its caller.
unfoldable pub following : {M W : Type 0} → Prog M W → Reply → Prog M W
following p (raised what) = ret (raised what)
following p _ = p

-- A component's call that may throw: its value goes on, its exception ends the function.
unfoldable pub or_raise : {M W A : Type 0} → Outcome A → (A → Prog M W) → Prog M W
or_raise (value a) k = k a
or_raise (throws what) k = ret (raised what)

module _ {D W : Type 0} where
  abbrev pub transition_to : State → Action (Manager D) W Bool
  transition_to next = lock (transition_to_locked next)

  -- The catch clauses and the end of the thread's function.
  unfoldable pub operation_end : Reply → Prog (Manager D) W
  operation_end (raised what) = do
    lock (set_system_error "SYSTEM_OPERATION_EXCEPTION" what)
    stopping ← lock (look λ m. m.shutting_down)
    if stopping
        then (do lock finish_operation; ret finished)
        else (do transition_to error; lock finish_operation; ret finished)
  operation_end _ = do lock finish_operation; ret finished

  -- launchOperation: the operation runs beside the callback, which ends with its response.
  unfoldable pub launch_operation : Prog (Manager D) W → Reply → Prog (Manager D) W
  launch_operation operation reply = fork (after operation operation_end) (ret reply)
