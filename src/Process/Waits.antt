-- ===== src/Process/Waits.antt =====
-- Why the wait of stopProcess ends.
use slam_system_manager.Base.{
  ℕ, zero, suc, ◌+◌, ◌*◌, ◌/◌, ◌≤◌, ◌<◌, ◌≡◌, refl, sym, ◌∙◌, ap, inl, inr, ℤ, ltb, Bool, true,
  false, not, String, Option, none, some, Bool-cases, if_both, if◌then◌else◌, arith,
}
use slam_system_manager.Steps.{done, alone, alone-if}
use slam_system_manager.Process.{ProcessRecord, Os, find}
use slam_system_manager.Process.Control.{
  is_positive, same_pid, State, refresh_process, refresh_named,
}
use slam_system_manager.Process.Stopping.{
  check_found, check_exit, poll_ns, wait_rounds, wait_for_exit,
}

-- What the wait relies on: a clock that no call turns back, that `now` reads, and on which sleep_for
-- lets at least its time pass.
pub record Clock (os : Os) : Type 0 where
  pub clock : os.World → ℕ
  pub waitpid_on : (pid : ℤ) (w : os.World) → clock w ≤ clock (os.waitpid pid w).0
  pub sleep_on : (n : ℕ) (w : os.World) → clock w + n ≤ clock (os.sleep_for n w).0
  pub now_after : (w : os.World) → clock w ≤ (os.now w).1
  pub now_before : (w : os.World) → (os.now w).1 ≤ clock (os.now w).0

module _ (os : Os) (time : Clock os) where
  open os use {Double, World, waitpid, now, sleep_for, nanoseconds}
  open time use {clock}

  refresh_process-on :
      (r : ProcessRecord Double) (w : World) → clock w ≤ clock (refresh_process os r w).0
  unfolding refresh_process
  refresh_process-on r w =
      if_both (λ (u : World × ProcessRecord Double × Bool). clock w ≤ clock u.0)
        (not (is_positive r.pid)) (λ _. omega arith) (λ _. time.waitpid_on r.pid w)

  check_found-on :
      (o : Option (ProcessRecord Double)) (name : String) (pid : ℤ) (s : State os)
      → clock s.os ≤ clock (check_found os o name pid s).0.os
  unfolding check_found refresh_named
  check_found-on none name pid s = omega arith
  check_found-on (some r) name pid s =
      if_both (λ (u : State os × Bool). clock s.os ≤ clock u.0.os) (not (same_pid r.pid pid))
        (λ _. omega arith) (λ _. refresh_process-on r s.os)

  check_exit-on :
      (name : String) (pid : ℤ) (s : State os) → clock s.os ≤ clock (check_exit os name pid s).0.os
  unfolding check_exit
  check_exit-on name pid s = check_found-on (find name s.table) name pid s

  -- One round, run alone.
  abbrev round : (State os → State os × Bool) → String → ℤ → ℕ → State os → State os × Bool
  round rest name pid deadline s =
      let (s', gone) = check_exit os name pid s in
      let slept = (sleep_for poll_ns s'.os).0 in
      let s'' = record s' { os = (now slept).0 } in
      if gone then (s', true) else if ltb (now slept).1 deadline then rest s'' else (s'', false)

  wait_rounds-round :
      (fuel : ℕ) (name : String) (pid : ℤ) (deadline : ℕ) (s : State os)
      → alone (wait_rounds os (suc fuel) name pid deadline) s
        ≡ round (alone (wait_rounds os fuel name pid deadline)) name pid deadline s
  unfolding wait_rounds alone
  wait_rounds-round fuel name pid deadline s =
      alone-if (check_exit os name pid s).1 _ _ _
      ∙ ap
          (λ later.
            if (check_exit os name pid s).1 then ((check_exit os name pid s).0, true) else later)
          (alone-if (ltb (now (sleep_for poll_ns (check_exit os name pid s).0.os).0).1 deadline)
            (wait_rounds os fuel name pid deadline) (done false)
            (record {
              table = (check_exit os name pid s).0.table;
              os = (now (sleep_for poll_ns (check_exit os name pid s).0.os).0).0;
            }))

  round-same :
      (p q : State os → State os × Bool) (name : String) (pid : ℤ) (deadline : ℕ) (s : State os)
      → ((t : State os) → clock s.os + poll_ns ≤ clock t.os → clock s.os < deadline → p t ≡ q t)
      → round p name pid deadline s ≡ round q name pid deadline s
  round-same p q name pid deadline s h = elim (Bool-cases (check_exit os name pid s).1) [
    | inl e ↦ rw e refl
    | inr e ↦
        rw e
          (elim (Bool-cases
            (ltb (now (sleep_for poll_ns (check_exit os name pid s).0.os).0).1 deadline)) [
              | inr late ↦ rw late refl
              | inl early ↦ rw early (
                  let slept = time.sleep_on poll_ns (check_exit os name pid s).0.os in
                  let read = time.now_after (sleep_for poll_ns (check_exit os name pid s).0.os).0 in
                  let after =
                    time.now_before (sleep_for poll_ns (check_exit os name pid s).0.os).0 in
                  let before = check_exit-on name pid s in h _ (omega arith) (ground arith))
            ])
  ]

  wait_rounds-enough :
      (m n : ℕ) (name : String) (pid : ℤ) (deadline : ℕ) (s : State os)
      → deadline ≤ clock s.os + m * poll_ns
      → deadline ≤ clock s.os + n * poll_ns
      → alone (wait_rounds os (suc m) name pid deadline) s
        ≡ alone (wait_rounds os (suc n) name pid deadline) s
  wait_rounds-enough zero n name pid deadline s h k =
      wait_rounds-round zero name pid deadline s
      ∙ round-same (alone (wait_rounds os zero name pid deadline))
          (alone (wait_rounds os n name pid deadline)) name pid deadline s
          (λ t slept early. absurd (omega arith))
      ∙ sym (wait_rounds-round n name pid deadline s)
  wait_rounds-enough (suc m) zero name pid deadline s h k =
      wait_rounds-round (suc m) name pid deadline s
      ∙ round-same (alone (wait_rounds os (suc m) name pid deadline))
          (alone (wait_rounds os zero name pid deadline)) name pid deadline s
          (λ t slept early. absurd (omega arith))
      ∙ sym (wait_rounds-round zero name pid deadline s)
  wait_rounds-enough (suc m) (suc n) name pid deadline s h k =
      wait_rounds-round (suc m) name pid deadline s
      ∙ round-same (alone (wait_rounds os (suc m) name pid deadline))
          (alone (wait_rounds os (suc n) name pid deadline)) name pid deadline s
          (λ t slept _. wait_rounds-enough m n name pid deadline t (omega arith) (omega arith))
      ∙ sym (wait_rounds-round (suc n) name pid deadline s)

  -- The fuel of waitForExit is enough: run alone, on a clock that runs forward, its loop gives the same result on any more fuel.
  pub wait_rounds-fuel :
      (fuel : ℕ) (name : String) (pid : ℤ) (timeout : Double) (s : State os)
      → nanoseconds timeout / poll_ns + 2 ≤ fuel
      → alone
          (wait_rounds os fuel name pid ((now s.os).1 + nanoseconds timeout))
          (record s { os = (now s.os).0 })
        ≡ alone (wait_for_exit os name pid timeout) s
  unfolding wait_for_exit alone
  wait_rounds-fuel zero name pid timeout s h = absurd (omega arith)
  wait_rounds-fuel (suc fuel) name pid timeout s h =
      let read = time.now_before s.os in
      wait_rounds-enough fuel (nanoseconds timeout / poll_ns + 1) name pid _ _ (omega arith)
        (omega arith)
      ∙ ap
          (λ n.
            alone (wait_rounds os n name pid ((now s.os).1 + nanoseconds timeout))
              (record s { os = (now s.os).0 }))
          (omega arith)
