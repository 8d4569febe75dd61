-- ===== src/Health/Windows.antt =====
-- The sample windows of HealthMonitor: what pruneSamples drops and what it keeps.
use slam_system_manager.Base.{
  ℕ, ◌≤◌, ◌≡◌, refl, ap, true, false, inl, inr, Bool-cases, List, [], ◌∷◌, ◌++◌,
}
use slam_system_manager.Doubles.{Doubles}
use slam_system_manager.Health.{SensorConfig, Health, prune_samples, refresh, get_status}

-- A property of every element.
abbrev pub All : (ℕ → Type 0) → List ℕ → Type 0
All P [] = Unit {0}
All P (t ∷ ts) = P t × All P ts

-- No sample is later than one behind it.
abbrev pub IsSorted : List ℕ → Type 0
IsSorted [] = Unit {0}
IsSorted (t ∷ ts) = All (λ u. t ≤ u) ts × IsSorted ts

module _ (f : Doubles) where
  open f use {Double, lt, elapsed}

  -- The front of the queue, if any, is inside the window.
  abbrev pub IsFresh : Double → ℕ → List ℕ → Type 0
  IsFresh window now [] = Unit {0}
  IsFresh window now (t ∷ ts) = lt window (elapsed now t) ≡ false

  -- pruneSamples drops samples from the front, all of them older than the window, and the first that it
  -- keeps is not older.
  prune_samples-split :
      (window : Double) (now : ℕ) (ts : List ℕ)
      → (dropped : List ℕ) × (dropped ++ prune_samples f window now ts ≡ ts)
        × All (λ t. lt window (elapsed now t) ≡ true) dropped
        × IsFresh window now (prune_samples f window now ts)
  unfolding prune_samples
  prune_samples-split window now [] = ([], refl, tt, tt)
  prune_samples-split window now (t ∷ ts) =
      let (dropped, e, old, fresh) = prune_samples-split window now ts in
      elim (Bool-cases (lt window (elapsed now t))) [
        | inl h ↦ rw h (t ∷ dropped, ap (λ us. t ∷ us) e, (h, old), fresh)
        | inr h ↦ rw h ([], refl, tt, h)
      ]

  IsFresh-prune :
      (window : Double) (now : ℕ) (ts : List ℕ)
      → IsFresh window now ts
      → prune_samples f window now ts ≡ ts
  unfolding prune_samples
  IsFresh-prune window now [] h = refl
  IsFresh-prune window now (t ∷ ts) h = rw h refl

  prune-again :
      (window : Double) (now : ℕ) (ts : List ℕ)
      → prune_samples f window now (prune_samples f window now ts) ≡ prune_samples f window now ts
  prune-again window now ts =
      let (dropped, e, old, fresh) = prune_samples-split window now ts in
      IsFresh-prune window now _ fresh

  -- Asked twice at the same time, getStatus answers the same and leaves the same samples.
  get_status-again :
      (config : SensorConfig Double) (now : ℕ) (h : Health)
      → get_status f config now (get_status f config now h).0 ≡ get_status f config now h
  unfolding get_status refresh
  get_status-again config now h =
      rw (prune-again config.frequency_window_sec now h.pointcloud_samples)
        (rw (prune-again config.frequency_window_sec now h.imu_samples) refl)

  All-fresh :
      (window : Double) (now t : ℕ) (ts : List ℕ)
      → ((a b : ℕ) → a ≤ b → lt window (elapsed now a) ≡ false → lt window (elapsed now b) ≡ false)
      → lt window (elapsed now t) ≡ false
      → All (λ u. t ≤ u) ts
      → All (λ u. lt window (elapsed now u) ≡ false) ts
  All-fresh window now t [] mono h below = tt
  All-fresh window now t (u ∷ ts) mono h (first, below) =
      (mono t u first h, All-fresh window now t ts mono h below)

  -- Where a later sample is never older, every sample of a sorted queue that pruneSamples keeps is inside
  -- the window, and what it keeps is sorted.
  pub prune_samples-All :
      (window : Double) (now : ℕ) (ts : List ℕ)
      → ((a b : ℕ) → a ≤ b → lt window (elapsed now a) ≡ false → lt window (elapsed now b) ≡ false)
      → IsSorted ts
      → All (λ u. lt window (elapsed now u) ≡ false) (prune_samples f window now ts)
        × IsSorted (prune_samples f window now ts)
  unfolding prune_samples
  prune_samples-All window now [] mono s = (tt, tt)
  prune_samples-All window now (t ∷ ts) mono (first, s) =
      elim (Bool-cases (lt window (elapsed now t))) [
        | inl h ↦ rw h (prune_samples-All window now ts mono s)
        | inr h ↦ rw h ((h, All-fresh window now t ts mono h first), (first, s))
      ]
