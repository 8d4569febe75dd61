-- ===== src/Process/Stops.antt =====
-- What stopProcess has seen when it reports success.
use slam_system_manager.Base.{
  ℕ, zero, suc, ◌≡◌, refl, ◌⊎◌, inl, inr, ℤ, pos, negsuc, ltb, Bool, true, false, String, Option,
  none, some, Bool-cases, if_both, if◌then◌else◌, arith,
}
use slam_system_manager.Outcome.{Attempt, value, throws}
use slam_system_manager.Steps.{Steps, done, ◌>>=◌, Ends, EndsFrom, Ends-bind, Ends-any}
use slam_system_manager.Process.{ProcessConfig, ProcessRecord, Signal, Os, find}
use slam_system_manager.Process.Control.{
  is_positive, same_pid, State, refresh_process, refresh_named,
}
use slam_system_manager.Process.Stopping.{
  check_found, check_exit, wait_rounds, wait_for_exit, begin_found, begin_stop, stop_by, escalate,
  stop_process, signal_process_group,
}
use slam_system_manager.Process.Table.{refresh_process_cases, refresh_named-find}

not-same_pid : (m n : ℤ) → is_positive m ≡ false → is_positive n ≡ true → same_pid m n ≡ false
not-same_pid (pos m) (pos n) h k = ground arith
not-same_pid (pos m) (negsuc n) h k = refl
not-same_pid (negsuc m) (pos n) h k = refl
not-same_pid (negsuc m) (negsuc n) h k = cc

module _ (os : Os) where
  open os use {Double, World, waitpid, now, sleep_for, nanoseconds}

  -- The table no longer has the process of this number under this name: the name is not there, or its
  -- record has another number.
  abbrev pub Gone : String → ℤ → State os → Type 0
  Gone name pid s =
      (find name s.table ≡ none)
      ⊎ (r : ProcessRecord Double) × (find name s.table ≡ some r) × (same_pid r.pid pid ≡ false)

  refresh_named-stopped :
      (r : ProcessRecord Double) (name : String) (s : State os)
      → (refresh_named os name r s).1 ≡ false
      → is_positive (refresh_process os r s.os).1.pid ≡ false
  unfolding refresh_named
  refresh_named-stopped r name s h = elim (refresh_process_cases os r s.os) [
    | inl (_, gone) ↦ gone
    | inr (running, _, _) ↦ cc
  ]

  refresh_named-running :
      (r : ProcessRecord Double) (name : String) (s : State os)
      → (refresh_named os name r s).1 ≡ true
      → is_positive r.pid ≡ true
  unfolding refresh_named
  refresh_named-running r name s h = elim (refresh_process_cases os r s.os) [
    | inl (stopped, _) ↦ cc
    | inr (_, _, p) ↦ p
  ]

  check_found-Gone :
      (o : Option (ProcessRecord Double)) (name : String) (pid : ℤ) (s : State os)
      → find name s.table ≡ o
      → is_positive pid ≡ true
      → (check_found os o name pid s).1 ≡ true
      → Gone name pid (check_found os o name pid s).0
  unfolding check_found
  check_found-Gone none name pid s e p h = inl e
  check_found-Gone (some r) name pid s e p h = elim (Bool-cases (same_pid r.pid pid)) [
    | inr other ↦ rw other (inr (r, e, other))
    | inl same ↦ rw same (
        inr (
          (refresh_process os r s.os).1,
          refresh_named-find os name r r s e,
          not-same_pid _ pid (refresh_named-stopped r name s (ground arith)) p,
        ))
  ]

  check_exit-Gone :
      (name : String) (pid : ℤ) (s : State os)
      → is_positive pid ≡ true
      → (check_exit os name pid s).1 ≡ true
      → Gone name pid (check_exit os name pid s).0
  unfolding check_exit
  check_exit-Gone name pid s = check_found-Gone (find name s.table) name pid s refl

  abbrev Reports : String → ℤ → State os → Bool → Type 0
  Reports name pid s gone = gone ≡ true → Gone name pid s

  wait_rounds-Gone :
      (fuel : ℕ) (name : String) (pid : ℤ) (deadline : ℕ) (s : State os)
      → is_positive pid ≡ true
      → Ends (Reports name pid) (wait_rounds os fuel name pid deadline) s
  unfolding wait_rounds
  wait_rounds-Gone zero name pid deadline s p = λ h. cc
  wait_rounds-Gone (suc fuel) name pid deadline s p = λ t.
      if_both
        (λ (u : Steps (State os) Bool). Ends (Reports name pid) u (check_exit os name pid t).0)
        (check_exit os name pid t).1 (λ gone _. check_exit-Gone name pid t p gone)
        (λ _ t' t''.
          if_both
            (λ (u : Steps (State os) Bool).
              Ends (Reports name pid) u (record t'' { os = (now t''.os).0 }))
            (ltb (now t''.os).1 deadline) (λ _. wait_rounds-Gone fuel name pid deadline _ p)
            (λ _ h. cc))

  wait_for_exit-Gone :
      (name : String) (pid : ℤ) (timeout : Double) (s : State os)
      → is_positive pid ≡ true
      → Ends (Reports name pid) (wait_for_exit os name pid timeout) s
  unfolding wait_for_exit
  wait_for_exit-Gone name pid timeout s p = λ t. wait_rounds-Gone _ name pid _ _ p

  stop_by-Gone :
      (signal : Signal) (timeout : Double) (name : String) (pid : ℤ) (s : State os)
      → is_positive pid ≡ true
      → Ends (Reports name pid) (stop_by os signal timeout name pid) s
  unfolding stop_by
  stop_by-Gone signal timeout name pid s p =
      Ends-bind (λ _ _. Unit {0}) (Reports name pid) (signal_process_group os pid signal) _ s
        (Ends-any (signal_process_group os pid signal) s)
        (λ t _ _. wait_for_exit-Gone name pid timeout t p)

  abbrev pub Stopped : String → ℤ → State os → Attempt → Type 0
  Stopped name pid s a = a.0 ≡ true → Gone name pid s

  -- One signal of the row, and what follows where the process has not ended.
  stop_by-Stopped :
      (signal : Signal) (timeout : Double) (name : String) (pid : ℤ) (s : State os)
      (rest : Steps (State os) Attempt)
      → is_positive pid ≡ true
      → ((t : State os) → Ends (Stopped name pid) rest t)
      → Ends
          (Stopped name pid)
          (do ended ← stop_by os signal timeout name pid; if ended then done (true, "") else rest)
          s
  stop_by-Stopped signal timeout name pid s rest p h =
      Ends-bind (Reports name pid) (Stopped name pid) (stop_by os signal timeout name pid) _ s
        (stop_by-Gone signal timeout name pid s p)
        (λ t ended g.
          if_both (λ (u : Steps (State os) Attempt). Ends (Stopped name pid) u t) ended (λ e _. g e)
            (λ _. h t))

  escalate-Gone :
      (name : String) (pid : ℤ) (config : ProcessConfig Double) (s : State os)
      → is_positive pid ≡ true
      → Ends (Stopped name pid) (escalate os name pid config) s
  unfolding escalate
  escalate-Gone name pid config s p =
      stop_by-Stopped _ _ name pid s _ p λ t.
        stop_by-Stopped _ _ name pid t _ p λ t'. stop_by-Stopped _ _ name pid t' _ p λ t'' h. cc

  begin_found-Gone :
      (r : ProcessRecord Double) (name : String) (s : State os)
      → Ends
          (Stopped name r.pid)
          (elim (begin_found os (some r) name s).1 [
            | throws why ↦ done (false, why)
            | value (pid, config) ↦ escalate os name pid config
          ])
          (begin_found os (some r) name s).0
  unfolding begin_found
  begin_found-Gone r name s = elim (Bool-cases (refresh_named os name r s).1) [
    | inl e ↦ rw e (escalate-Gone name r.pid r.config _ (refresh_named-running r name s e))
    | inr e ↦ rw e (λ h. cc)
  ]

  -- Whatever other threads do between its sections, stopProcess that finds a record of the name returns true
  -- only if, at its last look, the table no longer held that process: the name had no record, or a record with another number.
  pub stop_process-Gone :
      (name : String) (r : ProcessRecord Double) (s : State os)
      → find name s.table ≡ some r
      → EndsFrom (Stopped name r.pid) (stop_process os name) s
  unfolding stop_process begin_stop
  stop_process-Gone name r s e = rw e (begin_found-Gone r name s)
