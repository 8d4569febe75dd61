-- ===== src/Quality/History/Streaks.antt =====
-- What the state of LocalizationQualityMonitor says about the latest verdicts.
use slam_system_manager.Base.{
  ℕ, suc, ◌%◌, ◌^◌, ◌≤◌, ◌<◌, ◌≡◌, ◌≢◌, refl, sym, subst, List, ◌∷◌, arith,
}
use slam_system_manager.Quality.{localized, degraded, lost, QualityConfig}
use slam_system_manager.Quality.Evaluate.{next_count}
use slam_system_manager.Quality.History.{
  Verdict, idle, good, poor, critical, counts_good, counts_bad, counts_critical, streak,
}
use slam_system_manager.Quality.History.Steps.{Memory}
use slam_system_manager.Quality.History.Machine.{tally, led, moved}

-- The counters are the lengths of the streaks, with 64 bits.
abbrev pub Fits : Memory → List Verdict → Type 0
Fits k h =
    (k.goods ≡ streak counts_good h % 2 ^ 64)
    × (k.bads ≡ streak counts_bad h % 2 ^ 64)
    × (k.criticals ≡ streak counts_critical h % 2 ^ 64)

next_count-mod : (x n : ℕ) → x ≡ n % 2 ^ 64 → next_count x ≡ suc n % 2 ^ 64
unfolding next_count
next_count-mod x n h = omega arith

tally-Fits : (v : Verdict) (k : Memory) (h : List Verdict) → Fits k h → Fits (tally v k) (v ∷ h)
unfolding streak
tally-Fits idle k h p = (refl, refl, refl)
tally-Fits good k h (a, b, c) = (next_count-mod _ _ a, refl, refl)
tally-Fits poor k h (a, b, c) = (refl, next_count-mod _ _ b, refl)
tally-Fits critical k h (a, b, c) = (refl, next_count-mod _ _ b, next_count-mod _ _ c)

pub kept : {k k' : Memory} (h : List Verdict) → Fits k h → k' ≡ k → Fits k' h
kept h p e = subst (λ k. Fits k h) (sym e) p

module _ {D : Type 0} (config : QualityConfig D) where
  pub moved-Fits :
      (v : Verdict) (k : Memory) (h : List Verdict) → Fits k h → Fits (moved config v k) (v ∷ h)
  moved-Fits idle = tally-Fits idle
  moved-Fits good = tally-Fits good
  moved-Fits poor = tally-Fits poor
  moved-Fits critical = tally-Fits critical

  pub moved-lost :
      (v : Verdict) (k : Memory) (h : List Verdict)
      → Fits k h
      → k.state ≢ lost
      → (moved config v k).state ≡ lost
      → config.bad_frames_to_lost ≤ streak counts_critical (v ∷ h)
  unfolding led
  moved-lost idle k h p n e = cc
  moved-lost good k h p n e = let q = tally-Fits good k h p in ground arith
  moved-lost poor k h p n e = let q = tally-Fits poor k h p in ground arith
  moved-lost critical k h p n e = let q = tally-Fits critical k h p in ground arith

  pub moved-localized :
      (v : Verdict) (k : Memory) (h : List Verdict)
      → Fits k h
      → k.state ≢ localized
      → (moved config v k).state ≡ localized
      → config.good_frames_to_recover ≤ streak counts_good (v ∷ h)
  unfolding led
  moved-localized idle k h p n e = cc
  moved-localized good k h p n e = let q = tally-Fits good k h p in ground arith
  moved-localized poor k h p n e = let q = tally-Fits poor k h p in ground arith
  moved-localized critical k h p n e = let q = tally-Fits critical k h p in ground arith

  pub moved-degraded :
      (v : Verdict) (k : Memory) (h : List Verdict)
      → Fits k h
      → k.state ≢ degraded
      → (moved config v k).state ≡ degraded
      → (k.state ≢ lost) × (config.bad_frames_to_degraded ≤ streak counts_bad (v ∷ h))
  unfolding led
  moved-degraded idle k h p n e = cc
  moved-degraded good k h p n e = let q = tally-Fits good k h p in ground arith
  moved-degraded poor k h p n e = let q = tally-Fits poor k h p in ground arith
  moved-degraded critical k h p n e = let q = tally-Fits critical k h p in ground arith

  pub moved-recovers :
      (v : Verdict) (k : Memory) (h : List Verdict)
      → Fits k h
      → v ≡ good
      → 0 < config.bad_frames_to_lost
      → 0 < config.bad_frames_to_degraded
      → config.good_frames_to_recover ≤ streak counts_good (v ∷ h)
      → streak counts_good (v ∷ h) < 2 ^ 64
      → (moved config v k).state ≡ localized
  unfolding led
  moved-recovers good k h p e a b c d = let q = tally-Fits good k h p in ground arith
  moved-recovers idle k h p e a b c d = cc
  moved-recovers poor k h p e a b c d = cc
  moved-recovers critical k h p e a b c d = cc

  pub moved-loses :
      (v : Verdict) (k : Memory) (h : List Verdict)
      → Fits k h
      → v ≡ critical
      → config.bad_frames_to_lost ≤ streak counts_critical (v ∷ h)
      → streak counts_critical (v ∷ h) < 2 ^ 64
      → (moved config v k).state ≡ lost
  unfolding led
  moved-loses critical k h p e c d = let q = tally-Fits critical k h p in ground arith
  moved-loses idle k h p e c d = cc
  moved-loses good k h p e c d = cc
  moved-loses poor k h p e c d = cc
