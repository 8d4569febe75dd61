-- ===== src/Manager/Token/Mapping.antt =====
-- Starting a mapping run keeps the discipline.
use slam_system_manager.Base.{
  ◌≡◌, refl, ◌⊎◌, inl, inr, Bool, true, false, not, ◌&&◌, ◌||◌, String, none, some, arith,
  Bool-cases, if◌then◌else◌,
}
use slam_system_manager.State.{
  is, can_transition, wait_mode, sensor_ready, mapping_starting, mapping,
}
use slam_system_manager.Program.{Outcome, Outcome-cases, value, throws, Prog}
use slam_system_manager.Manager.Fields.{Manager, transition_to_locked, set_system_error, clear_map}
use slam_system_manager.Manager.Components.{Components}
use slam_system_manager.Manager.Mapping.{
  select_map, begin_start, not_ready_text, failed_start, mapping_start_operation, check_output,
  prepare_map, enter_mapping, handle_start_mapping,
}
use slam_system_manager.Manager.Token.{idle, settled, busy, Done, Ended, Guarded}
use slam_system_manager.Manager.Token.Rules.{
  keep-Moves, settle-Moves, enter-Moves, leave-Moves, release-Moves, take-Moves,
}
use slam_system_manager.Manager.Token.Operations.{fail-Moves, launch-Guarded}

start_to_mapping : can_transition mapping_starting mapping ≡ true
unfolding can_transition
start_to_mapping = refl

module _ (c : Components) where
  open c use {
    Double, World, is_valid_map_name, mapping_running, localization_running, save_service_available,
    map_exists, create_map, get_map_path, is_regular_file, mapping_start, mapping_stop,
    mapping_save, mark_map_saved,
  }

  mapping_start_operation-Guarded :
      (name path : String) (created : Bool)
      → Guarded Ended (busy mapping_starting) (mapping_start_operation c name path created)
  unfolding mapping_start_operation set_system_error failed_start
  mapping_start_operation-Guarded name path created w =
      elim (Bool-cases (mapping_start name path w).1.0) [
        | inl started ↦ rw started (λ m a. (
          settled,
          settle-Moves mapping_starting mapping m refl start_to_mapping a,
          elim (Bool-cases (transition_to_locked mapping m).1) [
            | inl moved ↦ rw moved tt
            | inr stuck ↦ rw stuck (λ w. tt)
          ],
        ))
        | inr failed ↦ rw failed (λ m a. (
          busy mapping_starting,
          keep-Moves (busy mapping_starting) m _ a (refl, refl, refl),
          λ m a. elim (Bool-cases (is m.current_state mapping_starting)) [
            | inl there ↦ (
              busy mapping_starting,
              keep-Moves (busy mapping_starting) m _ a (refl, refl, refl),
              rw there (elim (Bool-cases created) [
                | inl new ↦ rw new (λ w m a. (settled, fail-Moves mapping_starting m a, tt))
                | inr old ↦ rw old (λ m a. (settled, fail-Moves mapping_starting m a, tt))
              ]),
            )
            | inr gone ↦ (
              settled,
              leave-Moves mapping_starting m _ a (refl, refl, refl) (λ e. ground arith),
              rw gone
                  (elim (Bool-cases created) [ inl new ↦ rw new (λ w. tt) | inr old ↦ rw old tt ]),
            )
          ],
        ))
      ]

  check_output-Guarded :
      (name : String) (created : Bool)
      (next : Outcome (String × Bool) → Prog (Manager Double) World)
      → ((r : Outcome (String × Bool)) → Guarded Done settled (next r))
      → Guarded Done settled (check_output c name created next)
  unfolding check_output
  check_output-Guarded name created next h = elim (Outcome-cases (get_map_path name)) [
    | inr (what, e) ↦ rw (e, check_output) (h (throws what))
    | inl (path, e) ↦
        rw (e, check_output)
          (λ w. elim (Outcome-cases (is_regular_file path w).1) [
            | inr (what, found) ↦ rw found (h (throws what))
            | inl (there, found) ↦ rw found (elim (Bool-cases there) [
              | inl t ↦ rw t (h (throws _))
              | inr t ↦ rw t (h (value (path, created)))
            ])
          ])
  ]

  prepare_map-Guarded :
      (name : String) (next : Outcome (String × Bool) → Prog (Manager Double) World)
      → ((r : Outcome (String × Bool)) → Guarded Done settled (next r))
      → Guarded Done settled (prepare_map c name next)
  unfolding prepare_map
  prepare_map-Guarded name next h w = elim (Outcome-cases (map_exists name w).1) [
    | inr (what, e) ↦ rw e (h (throws what))
    | inl (there, e) ↦ rw e (elim (Bool-cases there) [
      | inl t ↦ rw t (check_output-Guarded name false next h)
      | inr t ↦ rw t (λ w. elim (Outcome-cases (create_map name w).1) [
        | inr (what, made) ↦ rw made (h (throws what))
        | inl (_, made) ↦ rw made (check_output-Guarded name true next h)
      ])
    ])
  ]

  enter_mapping-Guarded :
      (name : String) (r : Outcome (String × Bool)) → Guarded Done settled (enter_mapping c name r)
  unfolding enter_mapping select_map clear_map
  enter_mapping-Guarded name (throws what) = λ m a. (idle, release-Moves m a, tt)
  enter_mapping-Guarded name (value (path, created)) = λ m a. (
    settled,
    keep-Moves settled m _ a (refl, refl, refl),
    λ m a. elim (Bool-cases (transition_to_locked mapping_starting m).1) [
      | inl moved ↦ (
        busy mapping_starting,
        (enter-Moves mapping_starting m a).0,
        rw moved (
            launch-Guarded Double World (busy mapping_starting) _ _
              (mapping_start_operation-Guarded name path created)),
      )
      | inr stuck ↦ (
        settled,
        (enter-Moves mapping_starting m a).1 stuck,
        rw stuck (elim (Bool-cases created) [
          | inl new ↦ rw new (λ w m a. (
            settled,
            keep-Moves settled m _ a (refl, refl, refl),
            λ m a. (idle, release-Moves m a, tt),
          ))
          | inr old ↦ rw old (λ m a. (
            settled,
            keep-Moves settled m _ a (refl, refl, refl),
            λ m a. (idle, release-Moves m a, tt),
          ))
        ]),
      )
    ],
  )

  abbrev unready : Manager Double → Bool
  unready m =
      not (is m.current_state wait_mode) && not (is m.current_state sensor_ready)
      || not m.sensor_status.sensor_ready

  abbrev pub conflict : World → World → Bool
  conflict w u =
      let ask : World → World × Bool =
        if (mapping_running w).1 then (λ v. (v, true)) else save_service_available in
      (ask u).1

  -- The guard of a start refuses and changes nothing, or takes the free flag in an idle state with
  -- healthy sensors.
  pub begin_start_cases :
      (mode : String) (m : Manager Double)
      → ((message : String) × (begin_start c mode m ≡ (m, some message)))
        ⊎ ((m.operation_in_progress ≡ false)
            × (m.sensor_status.sensor_ready ≡ true)
            × (begin_start c mode m ≡ (record m { operation_in_progress = true }, none)))
  unfolding begin_start
  begin_start_cases mode m = elim (Bool-cases (unready m)) [
    | inl e ↦ inl (not_ready_text c mode m, rw (e, begin_start))
    | inr e ↦ elim (Bool-cases m.operation_in_progress) [
      | inl b ↦ inl ("Another system operation is in progress", rw (e, begin_start, b))
      | inr b ↦ inr (b, ground arith, rw (e, begin_start, b))
    ]
  ]

  pub start_mapping-Guarded : (name : String) → Guarded Done idle (handle_start_mapping c name)
  unfolding handle_start_mapping
  start_mapping-Guarded name = elim (Bool-cases (is_valid_map_name name)) [
    | inr bad ↦ rw bad tt
    | inl good ↦ rw good (λ w. elim (Bool-cases (localization_running w).1) [
      | inl l ↦ rw l tt
      | inr l ↦ rw l (λ w u. elim (Bool-cases (conflict w u)) [
        | inl b ↦ rw b tt
        | inr b ↦ rw b (λ m a. elim (begin_start_cases "Mapping" m) [
          | inl (message, e) ↦ rw e (idle, keep-Moves idle m m a (refl, refl, refl), tt)
          | inr (free, ready, e) ↦ rw e (
            settled,
            take-Moves m _ a (free, refl, refl, refl),
            prepare_map-Guarded name (enter_mapping c name) (enter_mapping-Guarded name),
          )
        ])
      ])
    ])
  ]
