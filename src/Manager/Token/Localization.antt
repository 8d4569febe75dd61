-- ===== src/Manager/Token/Localization.antt =====
-- The localization services and their operations keep the discipline.
use slam_system_manager.Base.{
  ℕ, zero, suc, ltb, ◌≡◌, refl, ◌⊎◌, inl, inr, true, false, String, none, some, arith, Bool-cases,
  Option-cases,
}
use slam_system_manager.State.{
  is, can_transition, wait_mode, localization_starting, relocalizing, error,
}
use slam_system_manager.Program.{Outcome-cases, Reply, raised, Prog}
use slam_system_manager.Manager.Fields.{
  Manager, transition_to_locked, set_system_error, clear_map, is_localization_state,
}
use slam_system_manager.Manager.Components.{Components}
use slam_system_manager.Manager.Background.{or_raise, following}
use slam_system_manager.Manager.Mapping.{select_map, failed_start}
use slam_system_manager.Manager.Localization.{
  await_confirmation, retry_last_pose, restore_last_pose, localization_start_operation,
  enter_localization, handle_start_localization, begin_stop_localization, stop_localizing,
  localization_stop_operation, handle_stop_localization,
}
use slam_system_manager.Manager.Pose.{save_last_pose}
use slam_system_manager.Manager.Token.{Token, idle, settled, busy, Done, Ended, Guarded}
use slam_system_manager.Manager.Token.Rules.{
  keep-Moves, go-Moves, settle-Moves, enter-Moves, leave-Moves, release-Moves, take-Moves,
}
use slam_system_manager.Manager.Token.Operations.{fail-Moves, launch-Guarded, after-Guarded}
use slam_system_manager.Manager.Token.Mapping.{begin_start_cases, conflict}
use slam_system_manager.Manager.Token.Pose.{save_last_pose-Guarded}

start_to_relocalizing : can_transition localization_starting relocalizing ≡ true
unfolding can_transition
start_to_relocalizing = refl

abbrev IsSettled : Token → Type 0
IsSettled settled = Unit
IsSettled _ = ⊥

module _ (c : Components) where
  open c use {
    Double, World, Pose, is_valid_map_name, mapping_running, localization_running, load_map,
    parent_path, localization_start, localization_stop, localization_confirmed, load_last_pose,
    wait_for_initial_pose_consumer, publish_initial_pose, steady_now, nanoseconds, last_pose_enable,
    initial_pose_wait_timeout_sec, last_pose_retry_count, last_pose_retry_interval_sec,
  }

  await-Guarded :
      (rounds deadline : ℕ) (next : Prog (Manager Double) World)
      → Guarded Ended settled next
      → Guarded Ended settled (await_confirmation c rounds deadline next)
  unfolding await_confirmation
  await-Guarded zero deadline next g = g
  await-Guarded (suc rounds) deadline next g = λ w.
      elim (Bool-cases (ltb (steady_now w).1 deadline)) [
        | inr late ↦ rw late g
        | inl early ↦ rw early (λ w. elim (Bool-cases (localization_confirmed w).1) [
          | inl e ↦ rw e tt
          | inr e ↦ rw e (λ w. await-Guarded rounds deadline next g)
        ])
      ]

  retry-Guarded :
      (attempts : ℕ) (pose : Pose) → Guarded Ended settled (retry_last_pose c attempts pose)
  unfolding retry_last_pose
  retry-Guarded zero pose = tt
  retry-Guarded (suc attempts) pose = λ w. elim (Bool-cases (publish_initial_pose pose w).1.0) [
    | inr e ↦ rw e tt
    | inl e ↦ rw e (λ w. await-Guarded _ _ _ (retry-Guarded attempts pose))
  ]

  restore-Guarded : (path : String) → Guarded Ended settled (restore_last_pose c path)
  unfolding restore_last_pose or_raise
  restore-Guarded path = elim (Bool-cases last_pose_enable) [
    | inr off ↦ rw off tt
    | inl on ↦ rw on (λ w. elim (Outcome-cases (load_last_pose (parent_path path) w).1) [
      | inr (what, e) ↦ rw (e, or_raise) tt
      | inl ((loaded, why), e) ↦
          rw (e, or_raise)
            (elim (Option-cases loaded) [
              | inl l ↦ rw l tt
              | inr (pose, l) ↦ rw l (λ _ w.
                  elim (Bool-cases
                    (wait_for_initial_pose_consumer initial_pose_wait_timeout_sec w).1) [
                      | inl ready ↦ rw ready (retry-Guarded last_pose_retry_count pose)
                      | inr unready ↦ rw unready tt
                    ])
            ])
    ])
  ]

  start_operation-Guarded :
      (name path : String)
      → Guarded Ended (busy localization_starting) (localization_start_operation c name path)
  unfolding localization_start_operation set_system_error failed_start or_raise
  start_operation-Guarded name path w = elim (Outcome-cases (localization_start name path w).1) [
    | inr (what, e) ↦ rw (e, or_raise) tt
    | inl (attempt, e) ↦
        rw (e, or_raise)
          (elim (Bool-cases attempt.0) [
            | inl started ↦ rw started (λ m a. (
              settled,
              settle-Moves localization_starting relocalizing m refl start_to_relocalizing a,
              elim (Bool-cases (transition_to_locked relocalizing m).1) [
                | inl moved ↦ rw moved (restore-Guarded path)
                | inr stuck ↦ rw stuck (λ w. tt)
              ],
            ))
            | inr failed ↦ rw failed (λ m a. (
              busy localization_starting,
              keep-Moves (busy localization_starting) m _ a (refl, refl, refl),
              λ m a. elim (Bool-cases (is m.current_state localization_starting)) [
                | inl there ↦ (
                  busy localization_starting,
                  keep-Moves (busy localization_starting) m _ a (refl, refl, refl),
                  rw there (λ m a. (settled, fail-Moves localization_starting m a, tt)),
                )
                | inr gone ↦ (
                  settled,
                  leave-Moves localization_starting m _ a (refl, refl, refl) (λ e. ground arith),
                  rw gone tt,
                )
              ],
            ))
          ])
  ]

  enter-Guarded : (name path : String) → Guarded Done settled (enter_localization c name path)
  unfolding enter_localization select_map clear_map
  enter-Guarded name path m a = (
    settled,
    keep-Moves settled m _ a (refl, refl, refl),
    λ w u m a. elim (Bool-cases (transition_to_locked localization_starting m).1) [
      | inl moved ↦ (
        busy localization_starting,
        (enter-Moves localization_starting m a).0,
        rw moved (
            launch-Guarded Double World (busy localization_starting) _ _
              (start_operation-Guarded name path)),
      )
      | inr stuck ↦ (
        settled,
        (enter-Moves localization_starting m a).1 stuck,
        rw stuck (λ m a. (
          settled,
          keep-Moves settled m _ a (refl, refl, refl),
          λ m a. (idle, release-Moves m a, tt),
        )),
      )
    ],
  )

  pub start_localization-Guarded :
      (name : String) → Guarded Done idle (handle_start_localization c name)
  unfolding handle_start_localization
  start_localization-Guarded name = elim (Bool-cases (is_valid_map_name name)) [
    | inr bad ↦ rw bad tt
    | inl good ↦ rw good (λ w u. elim (Bool-cases (conflict c w u)) [
      | inl b ↦ rw b tt
      | inr b ↦ rw b (λ w. elim (Bool-cases (localization_running w).1) [
        | inl l ↦ rw l tt
        | inr l ↦ rw l (λ m a. elim (begin_start_cases c "Localization" m) [
          | inl (message, e) ↦ rw e (idle, keep-Moves idle m m a (refl, refl, refl), tt)
          | inr (free, ready, e) ↦ rw e (
            settled,
            take-Moves m _ a (free, refl, refl, refl),
            λ w. elim (Outcome-cases (load_map name w).1) [
              | inr (what, found) ↦ rw found (λ m a. (idle, release-Moves m a, tt))
              | inl (path, found) ↦ rw found (enter-Guarded name path)
            ],
          )
        ])
      ])
    ])
  ]

  begin_stop_cases :
      (m : Manager Double)
      → ((message : String) × (begin_stop_localization c m ≡ (m, some message)))
        ⊎ ((m.operation_in_progress ≡ false)
            × (begin_stop_localization c m ≡ (record m { operation_in_progress = true }, none)))
  unfolding begin_stop_localization
  begin_stop_cases m = elim (Bool-cases (is_localization_state m.current_state)) [
    | inr e ↦
        inl (
          "Stop localization requires an active localization state",
          rw (e, begin_stop_localization),
        )
    | inl e ↦ elim (Bool-cases m.operation_in_progress) [
      | inl b ↦ inl ("Another system operation is in progress", rw (e, begin_stop_localization, b))
      | inr b ↦ inr (b, rw (e, begin_stop_localization, b))
    ]
  ]

  stop_localizing-Guarded : Guarded Ended settled (stop_localizing c)
  unfolding stop_localizing set_system_error
  stop_localizing-Guarded w = elim (Bool-cases (localization_stop w).1.0) [
    | inr failed ↦ rw failed (λ m a. (
      settled,
      keep-Moves settled m _ a (refl, refl, refl),
      λ m a. (settled, go-Moves settled error m refl a, tt),
    ))
    | inl stopped ↦ rw stopped (λ m a. (
      settled,
      keep-Moves settled m _ a (refl, refl, refl),
      elim (Bool-cases (is_localization_state m.current_state)) [
        | inl e ↦ rw e (λ m a. (settled, go-Moves settled wait_mode m refl a, λ w u. tt))
        | inr e ↦ rw e (λ w u. tt)
      ],
    ))
  ]

  following-Guarded :
      (u : Token) (r : Reply) → IsSettled u → Guarded Ended u (following (stop_localizing c) r)
  unfolding following
  following-Guarded settled (raised what) h = tt
  following-Guarded settled _ h = stop_localizing-Guarded
  following-Guarded idle _ h = absurd h
  following-Guarded (busy t) _ h = absurd h

  stop_operation-Guarded : Guarded Ended settled (localization_stop_operation c)
  unfolding localization_stop_operation
  stop_operation-Guarded =
      after-Guarded (λ u r. IsSettled u) Ended settled (save_last_pose c)
        (following (stop_localizing c))
        (save_last_pose-Guarded c (λ u r. IsSettled u) settled (λ r. tt)) following-Guarded

  pub stop_localization-Guarded : Guarded Done idle (handle_stop_localization c)
  unfolding handle_stop_localization
  stop_localization-Guarded m a = elim (begin_stop_cases m) [
    | inl (message, e) ↦ rw e (idle, keep-Moves idle m m a (refl, refl, refl), tt)
    | inr (free, e) ↦ rw e (
      settled,
      take-Moves m _ a (free, refl, refl, refl),
      launch-Guarded Double World settled _ _ stop_operation-Guarded,
    )
  ]
