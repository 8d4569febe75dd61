-- ===== src/Manager/Token/Recovery.antt =====
-- Recovery keeps the discipline: it enters RECOVERING with the flag, and leaves it on every path.
use slam_system_manager.Base.{
  ◌≡◌, refl, ◌⊎◌, inl, inr, Bool, true, false, List, [], ◌∷◌, String, none, some, arith, Bool-cases,
  if◌then◌else◌,
}
use slam_system_manager.State.{
  State, is, can_transition, sensor_starting, wait_mode, error, recovering,
}
use slam_system_manager.Program.{Reply, raised, finished, response, response_with, Prog}
use slam_system_manager.Manager.Fields.{
  Manager, SensorStatus, transition_to_locked, set_system_error,
}
use slam_system_manager.Manager.Components.{Components}
use slam_system_manager.Manager.Recovery.{
  begin_recover, stop_for_recovery, forget_error, finish_recovery, try_recovery, catch_recovery,
  perform_recovery, handle_recover,
}
use slam_system_manager.Manager.Token.{
  Token, idle, settled, busy, is_transient, Same, Moves, Done, Ended, Guarded,
}
use slam_system_manager.Manager.Token.Rules.{keep-Moves, go-Moves, settle-Moves, leave-Moves}
use slam_system_manager.Manager.Token.Operations.{fail-Moves, after-Guarded, launch-Guarded}

abbrev target : Bool → State
target ready = if ready then wait_mode else sensor_starting

target_lem :
    (ready : Bool)
    → (is_transient (target ready) ≡ false) × (can_transition recovering (target ready) ≡ true)
unfolding can_transition
target_lem true = (refl, refl)
target_lem false = (refl, refl)

module _ (c : Components) where
  open c use {
    Double, World, mapping_running, mapping_stop, localization_running, localization_stop,
    health_status,
  }

  -- The guard refuses and changes nothing, or takes the free flag and goes from ERROR to RECOVERING.
  pub begin_recover_cases :
      (m : Manager Double)
      → ((message : String) × (begin_recover c m ≡ (m, some message)))
        ⊎ ((m.operation_in_progress ≡ false)
            × (m.current_state ≡ error)
            × (begin_recover c m
                ≡ (record m { current_state = recovering; operation_in_progress = true }, none)))
  unfolding begin_recover transition_to_locked can_transition
  begin_recover_cases m = elim (Bool-cases (is m.current_state error)) [
    | inr e ↦ inl ("Recovery is only valid in ERROR state", rw (e, begin_recover))
    | inl e ↦ elim (Bool-cases m.operation_in_progress) [
      | inl b ↦ inl ("Another system operation is in progress", rw (e, begin_recover, b))
      | inr b ↦ inr (b, ground arith, ground arith)
    ]
  ]

  recover-Moves :
      (m : Manager Double)
      → m.operation_in_progress ≡ false
      → m.current_state ≡ error
      → Moves idle
          (busy recovering)
          m
          (record m { current_state = recovering; operation_in_progress = true })
  unfolding can_transition
  recover-Moves m free e = ground arith

  stop_for_recovery-Guarded :
      (running : World → World × Bool) (stop : World → World × (Bool × String)) (label : String)
      (errors : List String) (next : List String → Prog (Manager Double) World)
      → ((l : List String) → Guarded Ended (busy recovering) (next l))
      → Guarded Ended (busy recovering) (stop_for_recovery c running stop label errors next)
  unfolding stop_for_recovery
  stop_for_recovery-Guarded running stop label errors next h w = elim (Bool-cases (running w).1) [
    | inr r ↦ rw r (h errors)
    | inl r ↦ rw r (λ w. elim (Bool-cases (stop w).1.0) [
      | inl s ↦ rw s (h errors)
      | inr s ↦ rw s (λ u. elim (Bool-cases (running u).1) [
        | inl still ↦ rw still (h _)
        | inr over ↦ rw over (h errors)
      ])
    ])
  ]

  forget_error_cases :
      (s : SensorStatus Double) (m : Manager Double)
      → Same m (forget_error c s m).0 × ((forget_error c s m).1 ≡ is m.current_state recovering)
  unfolding forget_error
  forget_error_cases s m = ground arith

  finish_recovery-Guarded :
      (errors : List String) → Guarded Ended (busy recovering) (finish_recovery c errors)
  unfolding finish_recovery set_system_error
  finish_recovery-Guarded (e ∷ errors) = λ m a. (
    busy recovering,
    keep-Moves (busy recovering) m _ a (refl, refl, refl),
    λ m a. (settled, fail-Moves recovering m a, tt),
  )
  finish_recovery-Guarded [] = λ w u v m a.
      let s : SensorStatus Double = (health_status v).1 in
      let (kept, current) = forget_error_cases s m in
      elim (Bool-cases (is m.current_state recovering)) [
        | inr gone ↦
            (settled, leave-Moves recovering m _ a kept (λ e. ground arith), rw (current, gone) tt)
        | inl there ↦ (
          busy recovering,
          keep-Moves (busy recovering) m _ a kept,
          rw (current, there)
              (λ m a. (
                settled,
                settle-Moves recovering (target s.sensor_ready) m (target_lem s.sensor_ready).0
                    (target_lem s.sensor_ready).1 a,
                elim (Bool-cases (transition_to_locked (target s.sensor_ready) m).1) [
                  | inl moved ↦ rw moved tt
                  | inr stuck ↦ rw stuck (λ m a. (
                    settled,
                    keep-Moves settled m _ a (refl, refl, refl),
                    λ m a. (settled, go-Moves settled error m refl a, tt),
                  ))
                ],
              )),
        )
      ]

  try_recovery-Guarded : Guarded Ended (busy recovering) (try_recovery c)
  unfolding try_recovery
  try_recovery-Guarded =
      stop_for_recovery-Guarded mapping_running mapping_stop "mapping: " [] _ λ errors.
        stop_for_recovery-Guarded localization_running localization_stop "localization: " errors _
          finish_recovery-Guarded

  catch_recovery-Guarded :
      (tok : Token) (r : Reply) → Ended tok r → Guarded Ended tok (catch_recovery c r)
  unfolding catch_recovery set_system_error
  catch_recovery-Guarded idle r h = absurd h
  catch_recovery-Guarded settled (raised what) h = λ m a. (
    settled,
    keep-Moves settled m _ a (refl, refl, refl),
    λ m a. (settled, go-Moves settled error m refl a, tt),
  )
  catch_recovery-Guarded (busy t) (raised what) h = λ m a.
      (busy t, keep-Moves (busy t) m _ a (refl, refl, refl), λ m a. (settled, fail-Moves t m a, tt))
  catch_recovery-Guarded settled finished h = h
  catch_recovery-Guarded settled (response b x) h = h
  catch_recovery-Guarded settled (response_with b x l) h = h
  catch_recovery-Guarded (busy t) finished h = h
  catch_recovery-Guarded (busy t) (response b x) h = h
  catch_recovery-Guarded (busy t) (response_with b x l) h = h

  perform_recovery-Guarded : Guarded Ended (busy recovering) (perform_recovery c)
  unfolding perform_recovery
  perform_recovery-Guarded =
      after-Guarded Ended Ended (busy recovering) (try_recovery c) (catch_recovery c)
        try_recovery-Guarded catch_recovery-Guarded

  pub recover-Guarded : Guarded Done idle (handle_recover c)
  unfolding handle_recover
  recover-Guarded m a = elim (begin_recover_cases m) [
    | inl (message, e) ↦ rw e (idle, keep-Moves idle m m a (refl, refl, refl), tt)
    | inr (free, failed, e) ↦ rw e (
      busy recovering,
      recover-Moves m free failed,
      launch-Guarded Double World (busy recovering) _ _ perform_recovery-Guarded,
    )
  ]
