-- ===== src/Manager/Token/Sensors.antt =====
-- The supervising timers keep the discipline.
use slam_system_manager.Base.{
  ◌≡◌, refl, ◌⊎◌, inl, inr, Bool, true, false, not, ◌&&◌, ◌||◌, String, arith, Bool-cases, if_both,
}
use slam_system_manager.State.{
  State, is, sensor_starting, sensor_ready, wait_mode, mapping, relocalizing, localized, error,
}
use slam_system_manager.Program.{Prog}
use slam_system_manager.Manager.Fields.{
  Manager, SensorStatus, is_active_slam_state, set_system_error, clear_error, look,
}
use slam_system_manager.Manager.Components.{Components}
use slam_system_manager.Manager.Sensors.{
  note_status, record_status, set_sensor_error, set_waiting_error, stop_active_slam,
  begin_stop_active, fail_active_slam, wait_for_sensors, sensors_ready, react, update_sensor_state,
  report_exit, monitor_localization, monitor_processes,
}
use slam_system_manager.Manager.Token.{idle, settled, Same, Done, Ended, Guarded}
use slam_system_manager.Manager.Token.Rules.{keep-Moves, go-Moves, take-Moves}
use slam_system_manager.Manager.Token.Operations.{launch-Guarded}

module _ (c : Components) where
  open c use {
    Double, World, lt, mapping_running, localization_running, health_status, steady_now,
    active_failure_grace_sec,
  }

  set_sensor_error-Same :
      (s : SensorStatus Double) (m : Manager Double) → Same m (set_sensor_error c s m).0
  unfolding set_sensor_error set_system_error
  set_sensor_error-Same s m = ground arith

  set_waiting_error-Same :
      (s : SensorStatus Double) (m : Manager Double) → Same m (set_waiting_error c s m).0
  unfolding set_waiting_error set_system_error
  set_waiting_error-Same s m = ground arith

  stop_active_slam-Guarded :
      (mapping_was localization_was : Bool)
      → Guarded Ended settled (stop_active_slam c mapping_was localization_was)
  unfolding stop_active_slam
  stop_active_slam-Guarded true true = λ w u. tt
  stop_active_slam-Guarded true false = λ w. tt
  stop_active_slam-Guarded false true = λ w. tt
  stop_active_slam-Guarded false false = tt

  begin_stop_active_cases :
      (running : Bool) (m : Manager Double)
      → (begin_stop_active c running m ≡ (m, false))
        ⊎ ((m.operation_in_progress ≡ false)
            × (begin_stop_active c running m ≡ (record m { operation_in_progress = true }, true)))
  unfolding begin_stop_active
  begin_stop_active_cases running m = elim (Bool-cases (not m.operation_in_progress && running)) [
    | inr e ↦ inl (rw (e, begin_stop_active))
    | inl e ↦ inr (ground arith, rw (e, begin_stop_active))
  ]

  fail_active_slam-Guarded : (s : SensorStatus Double) → Guarded Done idle (fail_active_slam c s)
  unfolding fail_active_slam
  fail_active_slam-Guarded s m a = (
    idle,
    keep-Moves idle m _ a (set_sensor_error-Same s m),
    λ m a. (
      idle,
      go-Moves idle error m refl a,
      λ w u m a.
          elim (begin_stop_active_cases ((mapping_running w).1 || (localization_running u).1) m) [
            | inl e ↦ rw e (idle, keep-Moves idle m m a (refl, refl, refl), tt)
            | inr (free, e) ↦ rw e (
              settled,
              take-Moves m _ a (free, refl, refl, refl),
              launch-Guarded Double World settled _ _
                  (stop_active_slam-Guarded (mapping_running w).1 (localization_running u).1),
            )
          ],
    ),
  )

  wait_for_sensors-Guarded :
      (s : SensorStatus Double) (state : State) → Guarded Done idle (wait_for_sensors c s state)
  unfolding wait_for_sensors
  wait_for_sensors-Guarded s state =
      elim (Bool-cases (is state sensor_starting && s.startup_grace_elapsed)) [
        | inl e ↦ rw e (λ m a. (idle, keep-Moves idle m _ a (set_waiting_error-Same s m), tt))
        | inr e ↦ rw e tt
      ]

  sensors_ready-Guarded : (state : State) → Guarded Done idle (sensors_ready c state)
  unfolding sensors_ready clear_error
  sensors_ready-Guarded state = elim (Bool-cases (is state sensor_starting)) [
    | inl e ↦ rw e (λ m a. (
      idle,
      keep-Moves idle m _ a (refl, refl, refl),
      λ m a. (
        idle,
        go-Moves idle sensor_ready m refl a,
        λ m a. (idle, go-Moves idle wait_mode m refl a, tt),
      ),
    ))
    | inr e ↦ elim (Bool-cases (is state sensor_ready)) [
      | inl r ↦ rw (e, r) (λ m a. (idle, go-Moves idle wait_mode m refl a, tt))
      | inr r ↦ rw (e, r) tt
    ]
  ]

  abbrev P : Prog (Manager Double) World → Type 0
  P = Guarded Done idle

  react-Guarded :
      (s : SensorStatus Double) (state : State) (failed_for : Double)
      → Guarded Done idle (react c s state failed_for)
  unfolding react
  react-Guarded s state failed_for =
      if_both P s.sensor_ready (λ _. sensors_ready-Guarded state)
        λ _.
          if_both P (is_active_slam_state state)
            (λ _.
              if_both P (lt failed_for active_failure_grace_sec) (λ _. tt)
                (λ _. fail_active_slam-Guarded s))
            λ _.
              if_both P (is state sensor_ready || is state wait_mode)
                (λ _ m a. (
                  idle,
                  go-Moves idle sensor_starting m refl a,
                  wait_for_sensors-Guarded s sensor_starting,
                ))
                (λ _. wait_for_sensors-Guarded s state)

  pub sensor_timer-Guarded : Guarded Done idle (update_sensor_state c)
  unfolding update_sensor_state look note_status record_status
  sensor_timer-Guarded m a = (
    idle,
    keep-Moves idle m m a (refl, refl, refl),
    elim (Bool-cases m.shutting_down) [
      | inl e ↦ rw e tt
      | inr e ↦ rw e (λ w u m a. (
        idle,
        keep-Moves idle m _ a (refl, refl, refl),
        λ m a. (
          idle,
          keep-Moves idle m _ a (refl, refl, refl),
          react-Guarded (health_status w).1 m.current_state _,
        ),
      ))
    ],
  )

  report_exit-Guarded :
      (process label code : String) → Guarded Done idle (report_exit c process label code)
  unfolding report_exit set_system_error
  report_exit-Guarded process label code w m a = (
    idle,
    keep-Moves idle m _ a (refl, refl, refl),
    λ m a. (idle, go-Moves idle error m refl a, tt),
  )

  monitor_localization-Guarded : (state : State) → Guarded Done idle (monitor_localization c state)
  unfolding monitor_localization
  monitor_localization-Guarded state =
      elim (Bool-cases (is state relocalizing || is state localized)) [
        | inr e ↦ rw e tt
        | inl e ↦ rw e (λ w. elim (Bool-cases (localization_running w).1) [
          | inl l ↦ rw l tt
          | inr l ↦
              rw l (report_exit-Guarded "localization" "Localization" "LOCALIZATION_PROCESS_EXITED")
        ])
      ]

  pub process_timer-Guarded : Guarded Done idle (monitor_processes c)
  unfolding monitor_processes look
  process_timer-Guarded m a = (
    idle,
    keep-Moves idle m m a (refl, refl, refl),
    elim (Bool-cases m.shutting_down) [
      | inl e ↦ rw e tt
      | inr e ↦ rw e (λ m a. (
        idle,
        keep-Moves idle m m a (refl, refl, refl),
        elim (Bool-cases m.operation_in_progress) [
          | inl b ↦ rw b tt
          | inr b ↦ elim (Bool-cases (is m.current_state mapping)) [
            | inr n ↦ rw (b, n) (monitor_localization-Guarded m.current_state)
            | inl y ↦
                rw (b, y)
                  (λ w. elim (Bool-cases (mapping_running w).1) [
                    | inl l ↦ rw l (monitor_localization-Guarded m.current_state)
                    | inr l ↦
                        rw l (report_exit-Guarded "mapping" "Mapping" "MAPPING_PROCESS_EXITED")
                  ])
          ]
        ],
      ))
    ],
  )
