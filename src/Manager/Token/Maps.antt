-- ===== src/Manager/Token/Maps.antt =====
-- The map services keep the discipline.
use slam_system_manager.Base.{
  ◌≡◌, refl, ◌⊎◌, inl, inr, Bool, true, false, String, Option, none, some, arith, Bool-cases,
  str_eq, ◌||◌,
}
use slam_system_manager.Program.{Outcome-cases}
use slam_system_manager.Manager.Fields.{Manager, is_active_slam_state}
use slam_system_manager.Manager.Components.{Components}
use slam_system_manager.Manager.Maps.{
  handle_get_map_list, begin_map_change, handle_create_map, handle_delete_map, handle_load_map,
}
use slam_system_manager.Manager.Token.{idle, settled, Done, Guarded}
use slam_system_manager.Manager.Token.Rules.{keep-Moves, release-Moves, take-Moves}

abbrev create_refusal : String
create_refusal = "Map directories cannot be changed while SLAM is active"

abbrev delete_refusal : String
delete_refusal = "Maps cannot be deleted while SLAM is active"

abbrev load_refusal : String
load_refusal = "Maps cannot be loaded while SLAM is active"

module _ (c : Components) where
  open c use {Double, World, list_maps, create_map, delete_map, load_map, get_map_path}

  abbrev closed : Manager Double → Bool
  closed m = is_active_slam_state m.current_state || m.operation_in_progress

  -- The guard refuses and changes nothing, or takes the free flag.
  begin_map_change_cases :
      (selected : Option String) (refusal : String) (m : Manager Double)
      → ((message : String) × (begin_map_change c selected refusal m ≡ (m, some message)))
        ⊎ ((m.operation_in_progress ≡ false)
            × (begin_map_change c selected refusal m
                ≡ (record m { operation_in_progress = true }, none)))
  unfolding begin_map_change
  begin_map_change_cases none refusal m = elim (Bool-cases (closed m)) [
    | inl e ↦ inl (refusal, rw (e, begin_map_change))
    | inr e ↦ inr (ground arith, rw (e, begin_map_change))
  ]
  begin_map_change_cases (some name) refusal m = elim (Bool-cases (closed m)) [
    | inl e ↦ inl (refusal, rw (e, begin_map_change))
    | inr e ↦ elim (Bool-cases (str_eq name m.current_map)) [
      | inl same ↦ inl ("Cannot delete the currently selected map", rw (e, begin_map_change, same))
      | inr other ↦ inr (ground arith, rw (e, begin_map_change, other))
    ]
  ]

  pub get_map_list-Guarded : Guarded Done idle (handle_get_map_list c)
  unfolding handle_get_map_list
  get_map_list-Guarded w = elim (Outcome-cases (list_maps w).1) [
    | inl (names, e) ↦ rw e tt
    | inr (what, e) ↦ rw e tt
  ]

  pub create_map-Guarded : (name : String) → Guarded Done idle (handle_create_map c name)
  unfolding handle_create_map
  create_map-Guarded name m a = elim (begin_map_change_cases none create_refusal m) [
    | inl (message, e) ↦ rw e (idle, keep-Moves idle m m a (refl, refl, refl), tt)
    | inr (free, e) ↦ rw e (
      settled,
      take-Moves m _ a (free, refl, refl, refl),
      λ w. elim (Outcome-cases (create_map name w).1) [
        | inl (_, made) ↦ rw made (elim (Outcome-cases (get_map_path name)) [
          | inl (path, p) ↦ rw p (λ m a. (idle, release-Moves m a, tt))
          | inr (what, p) ↦ rw p (λ m a. (idle, release-Moves m a, tt))
        ])
        | inr (what, made) ↦ rw made (λ m a. (idle, release-Moves m a, tt))
      ],
    )
  ]

  pub delete_map-Guarded : (name : String) → Guarded Done idle (handle_delete_map c name)
  unfolding handle_delete_map
  delete_map-Guarded name m a = elim (begin_map_change_cases (some name) delete_refusal m) [
    | inl (message, e) ↦ rw e (idle, keep-Moves idle m m a (refl, refl, refl), tt)
    | inr (free, e) ↦ rw e (
      settled,
      take-Moves m _ a (free, refl, refl, refl),
      λ w m a. (
        idle,
        release-Moves m a,
        elim (Outcome-cases (delete_map name w).1) [
          | inl (_, gone) ↦ rw gone tt
          | inr (what, gone) ↦ rw gone tt
        ],
      ),
    )
  ]

  pub load_map-Guarded : (name : String) → Guarded Done idle (handle_load_map c name)
  unfolding handle_load_map
  load_map-Guarded name m a = elim (begin_map_change_cases none load_refusal m) [
    | inl (message, e) ↦ rw e (idle, keep-Moves idle m m a (refl, refl, refl), tt)
    | inr (free, e) ↦ rw e (
      settled,
      take-Moves m _ a (free, refl, refl, refl),
      λ w. elim (Outcome-cases (load_map name w).1) [
        | inl (path, found) ↦ rw found (λ m a. (
          settled,
          keep-Moves settled m _ a (refl, refl, refl),
          λ m a. (idle, release-Moves m a, tt),
        ))
        | inr (what, found) ↦ rw found (λ m a. (idle, release-Moves m a, tt))
      ],
    )
  ]
