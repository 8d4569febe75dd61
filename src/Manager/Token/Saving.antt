-- ===== src/Manager/Token/Saving.antt =====
-- Stopping and saving a mapping run keep the discipline.
use slam_system_manager.Base.{
  ◌≡◌, refl, ◌⊎◌, inl, inr, Bool, true, false, ◌&&◌, String, none, some, arith, Bool-cases, str_eq,
}
use slam_system_manager.State.{is, can_transition, wait_mode, mapping, map_saving, error}
use slam_system_manager.Program.{Outcome-cases}
use slam_system_manager.Manager.Fields.{Manager, transition_to_locked, set_system_error, look}
use slam_system_manager.Manager.Components.{Components}
use slam_system_manager.Manager.Background.{or_raise}
use slam_system_manager.Manager.Mapping.{
  failed_start, begin_in_mapping, mapping_stop_operation, handle_stop_mapping, finish_save,
  save_operation, handle_save_map,
}
use slam_system_manager.Manager.Token.{idle, settled, busy, Done, Ended, Guarded}
use slam_system_manager.Manager.Token.Rules.{
  keep-Moves, go-Moves, settle-Moves, enter-Moves, leave-Moves, release-Moves, take-Moves,
}
use slam_system_manager.Manager.Token.Operations.{fail-Moves, launch-Guarded}

saving_to_wait : can_transition map_saving wait_mode ≡ true
unfolding can_transition
saving_to_wait = refl

abbrev stop_refusal : String
stop_refusal = "Stop mapping is only valid in MAPPING state"

abbrev save_refusal : String
save_refusal = "Save map is only valid in MAPPING state"

module _ (c : Components) where
  open c use {
    Double, World, is_valid_map_name, mapping_running, localization_running, save_service_available,
    map_exists, create_map, get_map_path, is_regular_file, mapping_start, mapping_stop,
    mapping_save, mark_map_saved,
  }

  -- The guard of the services that need MAPPING refuses and changes nothing, or takes the free flag.
  pub begin_in_mapping_cases :
      (refusal : String) (m : Manager Double)
      → ((message : String) × (begin_in_mapping c refusal m ≡ (m, some message)))
        ⊎ ((m.operation_in_progress ≡ false)
            × (is m.current_state mapping ≡ true)
            × (begin_in_mapping c refusal m ≡ (record m { operation_in_progress = true }, none)))
  unfolding begin_in_mapping
  begin_in_mapping_cases refusal m = elim (Bool-cases (is m.current_state mapping)) [
    | inr e ↦ inl (refusal, rw (e, begin_in_mapping))
    | inl e ↦ elim (Bool-cases m.operation_in_progress) [
      | inl b ↦ inl ("Another system operation is in progress", rw (e, begin_in_mapping, b))
      | inr b ↦ inr (b, e, rw (e, begin_in_mapping, b))
    ]
  ]

  mapping_stop_operation-Guarded : Guarded Ended settled (mapping_stop_operation c)
  unfolding mapping_stop_operation set_system_error failed_start
  mapping_stop_operation-Guarded w = elim (Bool-cases (mapping_stop w).1.0) [
    | inr failed ↦ rw failed (λ m a. (
      settled,
      keep-Moves settled m _ a (refl, refl, refl),
      λ m a. (settled, go-Moves settled error m refl a, tt),
    ))
    | inl stopped ↦ rw stopped (λ m a. (
      settled,
      keep-Moves settled m _ a (refl, refl, refl),
      elim (Bool-cases (is m.current_state mapping)) [
        | inl e ↦ rw e (λ m a. (settled, go-Moves settled wait_mode m refl a, tt))
        | inr e ↦ rw e tt
      ],
    ))
  ]

  pub stop_mapping-Guarded : Guarded Done idle (handle_stop_mapping c)
  unfolding handle_stop_mapping
  stop_mapping-Guarded m a = elim (begin_in_mapping_cases stop_refusal m) [
    | inl (message, e) ↦ rw e (idle, keep-Moves idle m m a (refl, refl, refl), tt)
    | inr (free, _, e) ↦ rw e (
      settled,
      take-Moves m _ a (free, refl, refl, refl),
      launch-Guarded Double World settled _ _ mapping_stop_operation-Guarded,
    )
  ]

  finish_save-Guarded :
      (saved : Bool) (save_error : String)
      → Guarded Ended (busy map_saving) (finish_save c saved save_error)
  unfolding finish_save set_system_error look
  finish_save-Guarded saved save_error w m a = (
    busy map_saving,
    keep-Moves (busy map_saving) m _ a (ground arith),
    λ m a.
        elim (Bool-cases
          (saved && str_eq save_error "" && stopped && is m.current_state map_saving)) [
            | inl e ↦ (
              busy map_saving,
              keep-Moves (busy map_saving) m _ a (refl, refl, refl),
              rw e
                  (λ m a. (settled, settle-Moves map_saving wait_mode m refl saving_to_wait a, tt)),
            )
            | inr e ↦ elim (Bool-cases (is m.current_state map_saving)) [
              | inr gone ↦ (
                settled,
                leave-Moves map_saving m _ a (refl, refl, refl) (λ e. ground arith),
                rw (e, gone) tt,
              )
              | inl there ↦ (
                busy map_saving,
                keep-Moves (busy map_saving) m _ a (refl, refl, refl),
                rw (e, there) (λ m a. (settled, fail-Moves map_saving m a, tt)),
              )
            ]
          ],
  )
    where
      stopped : Bool
      stopped = (mapping_stop w).1.0

  save_operation-Guarded :
      (name path : String) → Guarded Ended (busy map_saving) (save_operation c name path)
  unfolding save_operation or_raise
  save_operation-Guarded name path w = elim (Outcome-cases (mapping_save path w).1) [
    | inr (what, e) ↦ rw (e, or_raise) tt
    | inl ((saved, what), e) ↦
        rw (e, or_raise)
          (elim (Bool-cases saved) [
            | inr failed ↦ rw failed (finish_save-Guarded false what)
            | inl done ↦ rw done (λ w. elim (Outcome-cases (mark_map_saved name w).1) [
              | inr (why, marked) ↦ rw marked (finish_save-Guarded true why)
              | inl (_, marked) ↦ rw marked (finish_save-Guarded true what)
            ])
          ])
  ]

  pub save_map-Guarded : Guarded Done idle (handle_save_map c)
  unfolding handle_save_map or_raise
  save_map-Guarded m a = elim (begin_in_mapping_cases save_refusal m) [
    | inl (message, e) ↦ rw e (idle, keep-Moves idle m m a (refl, refl, refl), tt)
    | inr (free, _, e) ↦ rw e (
      settled,
      take-Moves m _ a (free, refl, refl, refl),
      λ n a. elim (Bool-cases (transition_to_locked map_saving n).1) [
        | inr stuck ↦ (
          settled,
          (enter-Moves map_saving n a).1 stuck,
          rw stuck (λ m a. (idle, release-Moves m a, tt)),
        )
        | inl moved ↦ (
          busy map_saving,
          (enter-Moves map_saving n a).0,
          rw moved (elim (Outcome-cases (get_map_path m.current_map)) [
            | inr (what, p) ↦ rw (p, or_raise) tt
            | inl (path, p) ↦
                rw (p, or_raise)
                  (launch-Guarded Double World (busy map_saving) _ _
                    (save_operation-Guarded m.current_map path))
          ]),
        )
      ],
    )
  ]
