-- ===== src/Process/Table.antt =====
-- The table of processes: what its operations change.
use text.Mathlib.TextEquality.{eq_iff}
use slam_system_manager.Base.{
  ◌≡◌, ◌≢◌, refl, ◌∙◌, ap, ◌⊎◌, inl, inr, Bool, true, false, not, List, [], ◌∷◌, String, Option,
  none, some, Bool-cases, if_both, arith,
}
use slam_system_manager.Outcome.{Attempt, Outcome, value, throws}
use slam_system_manager.Process.{
  ProcessRecord, Waited, still_running, ended, wait_failed, eintr, echild, esrch, other_errno,
  Forked, child, fork_failed, Os, find, write_record,
}
use slam_system_manager.Process.Control.{
  is_positive, no_process, note_wait, State, refresh_process, refresh_named, note_fork, launch,
  launch_expanded, start_known, start_found, start_process,
}

module _ {D : Type 0} where
  -- A write reaches the name that it is for, and no other.
  pub find-write_record :
      (name : String) (r old : ProcessRecord D) (t : List (String × ProcessRecord D))
      → find name t ≡ some old
      → find name (write_record name r t) ≡ some r
  unfolding find write_record
  find-write_record name r old [] h = cc
  find-write_record name r old ((key, q) ∷ t) h = ground (arith, find-write_record name r old t)

  pub find-write_other :
      (name other : String) (r : ProcessRecord D) (t : List (String × ProcessRecord D))
      → other ≢ name
      → find other (write_record name r t) ≡ find other t
  unfolding find write_record
  find-write_other name other r [] h = refl
  find-write_other name other r ((key, q) ∷ t) h =
      ground (arith, eq_iff key name, eq_iff key other, find-write_other name other r t h)

  -- A process that no longer runs has no number, and one that runs keeps its record.
  pub note_wait_cases :
      (waited : Waited) (r : ProcessRecord D)
      → ((note_wait waited r).1 ≡ false) × ((note_wait waited r).0.pid ≡ no_process)
        ⊎ (note_wait waited r ≡ (r, true))
  unfolding note_wait
  note_wait_cases still_running r = inr refl
  note_wait_cases (ended status) r = inl (refl, refl)
  note_wait_cases (wait_failed eintr) r = inr refl
  note_wait_cases (wait_failed echild) r = inl (refl, refl)
  note_wait_cases (wait_failed esrch) r = inr refl
  note_wait_cases (wait_failed other_errno) r = inr refl

module _ (os : Os) where
  open os use {Double, World, fork, set_group, order}

  pub refresh_process_cases :
      (r : ProcessRecord Double) (w : World)
      → ((refresh_process os r w).2 ≡ false) × (is_positive (refresh_process os r w).1.pid ≡ false)
        ⊎ ((refresh_process os r w).2 ≡ true)
          × ((refresh_process os r w).1 ≡ r)
          × (is_positive r.pid ≡ true)
  unfolding refresh_process
  refresh_process_cases r w = elim (Bool-cases (is_positive r.pid)) [
    | inr e ↦ rw e (inl (refl, e))
    | inl e ↦ rw e (elim (note_wait_cases (os.waitpid r.pid w).1 r) [
      | inl (gone, n) ↦ inl (gone, rw n refl)
      | inr same ↦ inr (ap (λ p. p.1) same, ap (λ p. p.0) same, refl)
    ])
  ]

  refresh_named-other :
      (name other : String) (r : ProcessRecord Double) (s : State os)
      → other ≢ name
      → find other (refresh_named os name r s).0.table ≡ find other s.table
  unfolding refresh_named
  refresh_named-other name other r s h = find-write_other name other _ s.table h

  pub refresh_named-find :
      (name : String) (r old : ProcessRecord Double) (s : State os)
      → find name s.table ≡ some old
      → find name (refresh_named os name r s).0.table ≡ some (refresh_process os r s.os).1
  unfolding refresh_named
  refresh_named-find name r old s h = find-write_record name _ old s.table h

  note_fork-other :
      (forked : Forked) (name other : String) (r : ProcessRecord Double) (s : State os)
      → other ≢ name
      → find other (note_fork os forked name r s).0.table ≡ find other s.table
  unfolding note_fork
  note_fork-other (fork_failed why) name other r s h = refl
  note_fork-other (child pid) name other r s h =
      find-write_other name other (record r { pid = pid; last_exit_code = none }) s.table h

  launch_expanded-other :
      (o : Outcome String) (name other : String) (r : ProcessRecord Double) (s : State os)
      → other ≢ name
      → find other (launch_expanded os o name r s).0.table ≡ find other s.table
  unfolding launch_expanded launch
  launch_expanded-other (throws what) name other r s h = refl
  launch_expanded-other (value command) name other r s h = note_fork-other _ name other r _ h

  start_known-other :
      (name other : String) (given : List (String × String)) (r : ProcessRecord Double)
      (s : State os)
      → other ≢ name
      → find other (start_known os name given r s).0.table ≡ find other s.table
  unfolding start_known
  start_known-other name other given r s h =
      if_both (λ (u : State os × Attempt). find other u.0.table ≡ find other s.table)
        (refresh_named os name r s).1 (λ _. refresh_named-other name other r s h)
        (λ _. launch_expanded-other _ name other _ _ h ∙ refresh_named-other name other r s h)

  start_found-other :
      (o : Option (ProcessRecord Double)) (name other : String) (given : List (String × String))
      (s : State os)
      → other ≢ name
      → find other (start_found os o name given s).0.table ≡ find other s.table
  unfolding start_found
  start_found-other none name other given s h = refl
  start_found-other (some r) name other given s h = start_known-other name other given r s h

  -- startProcess changes the record of no other name.
  start_process-other :
      (name other : String) (given : List (String × String)) (s : State os)
      → other ≢ name
      → find other (start_process os name given s).0.table ≡ find other s.table
  unfolding start_process
  start_process-other name other given s h =
      start_found-other (find name s.table) name other given s h

  -- A refresh leaves the configuration alone.
  note_wait-config :
      (waited : Waited) (r : ProcessRecord Double) → (note_wait waited r).0.config ≡ r.config
  unfolding note_wait
  note_wait-config still_running r = refl
  note_wait-config (ended status) r = refl
  note_wait-config (wait_failed eintr) r = refl
  note_wait-config (wait_failed echild) r = refl
  note_wait-config (wait_failed esrch) r = refl
  note_wait-config (wait_failed other_errno) r = refl

  pub refresh_process-config :
      (r : ProcessRecord Double) (w : World) → (refresh_process os r w).1.config ≡ r.config
  unfolding refresh_process
  refresh_process-config r w =
      if_both (λ (u : World × ProcessRecord Double × Bool). u.1.config ≡ r.config)
        (not (is_positive r.pid)) (λ _. refl) (λ _. note_wait-config _ r)
