-- ===== src/Process/Started.antt =====
-- What startProcess has done when it returns true.
use slam_system_manager.Base.{
  ◌≡◌, refl, sym, ◌∙◌, ap, inl, inr, ℤ, true, false, List, String, Option, none, some,
}
use slam_system_manager.Outcome.{Outcome, value, throws}
use slam_system_manager.Process.{ProcessRecord, Forked, child, fork_failed, Os, find}
use slam_system_manager.Process.Commands.{expand_command, merged}
use slam_system_manager.Process.Control.{
  State, refresh_process, refresh_named, note_fork, launch, launch_expanded, start_known,
  start_found, start_process,
}
use slam_system_manager.Process.Table.{
  find-write_record, refresh_process_cases, refresh_named-find, refresh_process-config,
}

module _ (os : Os) where
  open os use {Double, World, fork, set_group, order}

  -- A process that startProcess has started: the former one did not run any more, the command was expanded,
  -- and the record holds the child's number and no exit code.
  pub record Started (name : String) (given : List (String × String)) (s u : State os)
      : Type 0 where
    pub former : ProcessRecord Double
    pub known : find name s.table ≡ some former
    pub stopped : (refresh_process os former s.os).2 ≡ false
    pub command : String
    pub expanded :
        expand_command former.config.command
          (order (merged former.config.substitutions (order given)))
        ≡ value command
    pub pid : ℤ
    pub forked :
        (fork command former.config.working_directory (refresh_process os former s.os).0).1
        ≡ child pid
    pub found : find name u.table ≡ some (record former { pid = pid; last_exit_code = none })

  note_fork-Forked :
      (forked : Forked) (name : String) (r old : ProcessRecord Double) (s : State os)
      → find name s.table ≡ some old
      → (note_fork os forked name r s).1.0 ≡ true
      → (pid : ℤ) × (forked ≡ child pid)
        × (find name (note_fork os forked name r s).0.table
            ≡ some (record r { pid = pid; last_exit_code = none }))
  unfolding note_fork
  note_fork-Forked (fork_failed why) name r old s k h = cc
  note_fork-Forked (child pid) name r old s k h = (
    pid,
    refl,
    find-write_record name (record r { pid = pid; last_exit_code = none }) old s.table k,
  )

  launch_expanded-Forked :
      (o : Outcome String) (name : String) (r old : ProcessRecord Double) (s : State os)
      → find name s.table ≡ some old
      → (launch_expanded os o name r s).1.0 ≡ true
      → (command : String) × (o ≡ value command)
        × ((pid : ℤ) × ((fork command r.config.working_directory s.os).1 ≡ child pid)
            × (find name (launch_expanded os o name r s).0.table
                ≡ some (record r { pid = pid; last_exit_code = none })))
  unfolding launch_expanded launch
  launch_expanded-Forked (throws what) name r old s k h = cc
  launch_expanded-Forked (value command) name r old s k h =
      (command, refl, note_fork-Forked _ name r old _ k h)

  -- A process that still runs is not started again.
  start_known-running :
      (r : ProcessRecord Double) (name : String) (given : List (String × String)) (s : State os)
      → (refresh_process os r s.os).2 ≡ true
      → (start_known os name given r s).1.0 ≡ false
  unfolding start_known refresh_named
  start_known-running r name given s running = rw running refl

  start_known-launches :
      (r : ProcessRecord Double) (name : String) (given : List (String × String)) (s : State os)
      → (refresh_process os r s.os).2 ≡ false
      → start_known os name given r s
        ≡ launch_expanded os
            (expand_command r.config.command (order (merged r.config.substitutions (order given))))
            name
            (refresh_process os r s.os).1
            (refresh_named os name r s).0
  unfolding start_known refresh_named
  start_known-launches r name given s stopped = rw stopped refl

  start_known-Started :
      (r : ProcessRecord Double) (name : String) (given : List (String × String)) (s : State os)
      → find name s.table ≡ some r
      → (refresh_process os r s.os).2 ≡ false
      → (start_known os name given r s).1.0 ≡ true
      → Started name given s (start_known os name given r s).0
  unfolding start_known refresh_named
  start_known-Started r name given s e stopped h =
      let launches = start_known-launches r name given s stopped in
      let (command, expanded, (pid, forked, found)) =
        launch_expanded-Forked _ name (refresh_process os r s.os).1 _ (refresh_named os name r s).0
          (refresh_named-find os name r r s e) (sym (ap (λ u. u.1.0) launches) ∙ h) in
      record {
        former = r;
        known = e;
        stopped = stopped;
        command = command;
        expanded = expanded;
        pid = pid;
        forked =
            ap (λ c. (fork command c.working_directory (refresh_process os r s.os).0).1)
              (sym (refresh_process-config os r s.os))
            ∙ forked;
        found =
            ap (λ u. find name u.0.table) launches
            ∙ found
            ∙ ap (λ c. some (record { config = c; pid = pid; last_exit_code = none }))
                (refresh_process-config os r s.os);
      }

  start_found-Started :
      (o : Option (ProcessRecord Double)) (name : String) (given : List (String × String))
      (s : State os)
      → find name s.table ≡ o
      → (start_found os o name given s).1.0 ≡ true
      → Started name given s (start_found os o name given s).0
  unfolding start_found
  start_found-Started none name given s e h = cc
  start_found-Started (some r) name given s e h = elim (refresh_process_cases os r s.os) [
    | inr (running, _, _) ↦ cc (h, start_known-running r name given s running)
    | inl (stopped, _) ↦ start_known-Started r name given s e stopped h
  ]

  -- startProcess returns true only if it has started the process: the former one did not run, its command
  -- was expanded, the fork gave a child, and the record holds that child's number and no exit code.
  pub start_process-Started :
      (name : String) (given : List (String × String)) (s : State os)
      → (start_process os name given s).1.0 ≡ true
      → Started name given s (start_process os name given s).0
  unfolding start_process
  start_process-Started name given s h = start_found-Started (find name s.table) name given s refl h
