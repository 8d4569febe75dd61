-- ===== src/Quality/History/Runs.antt =====
-- Runs of LocalizationQualityMonitor from a reset, and what its state says of their latest verdicts.
use slam_system_manager.Base.{ℕ, ◌^◌, ◌≤◌, ◌<◌, ◌≡◌, ◌≢◌, refl, sym, ap, ◌∙◌, List, [], ◌∷◌, String}
use slam_system_manager.Doubles.{Doubles}
use slam_system_manager.Manager.Pose.{QualityContext}
use slam_system_manager.Quality.{localized, degraded, lost, QualityConfig, Monitor}
use slam_system_manager.Quality.Observe.{reset}
use slam_system_manager.Quality.Evaluate.{evaluate}
use slam_system_manager.Quality.History.{
  Verdict, good, critical, counts_good, counts_bad, counts_critical, streak, Event, restart,
  odometry_message, correction_message, pose_message, registration_message, evaluation, verdict,
  apply, note, follow,
}
use slam_system_manager.Quality.History.Steps.{
  memory, observe_odometry-memory, observe_correction-memory, observe_pose-memory,
  observe_registration-memory,
}
use slam_system_manager.Quality.History.Machine.{moved, evaluate-memory}
use slam_system_manager.Quality.History.Streaks.{
  Fits, kept, moved-Fits, moved-lost, moved-localized, moved-degraded, moved-recovers, moved-loses,
}

-- The counters of the monitor are the lengths of the streaks, with 64 bits.
abbrev pub IsCounted : {D F : Type 0} → Monitor D F × List Verdict → Type 0
IsCounted (m, h) = Fits (memory m) h

module _ (f : Doubles) (config : QualityConfig f.Double) where
  open f use {Double, Float}

  apply-IsCounted :
      (e : Event Double Float) (m : Monitor Double Float) (h : List Verdict)
      → IsCounted (m, h)
      → IsCounted (apply f config e m, note f config e m h)
  unfolding apply note reset streak
  apply-IsCounted restart m h p = (refl, refl, refl)
  apply-IsCounted (odometry_message o t) m h p = kept h p (observe_odometry-memory f config o t m)
  apply-IsCounted (correction_message o t) m h p =
      kept h p (observe_correction-memory f config o t m)
  apply-IsCounted (pose_message o t) m h p = kept h p (observe_pose-memory f config o t m)
  apply-IsCounted (registration_message o t) m h p =
      kept h p (observe_registration-memory f config o t m)
  apply-IsCounted (evaluation s t x) m h p =
      kept (verdict f config s t x m ∷ h)
        (moved-Fits config (verdict f config s t x m) (memory m) h p)
        (evaluate-memory f config s t x m)

  follow_from :
      (es : List (Event Double Float)) (s : Monitor Double Float × List Verdict)
      → IsCounted s
      → IsCounted (follow f config es s)
  unfolding follow
  follow_from [] s p = p
  follow_from (e ∷ es) (m, h) p = follow_from es _ (apply-IsCounted e m h p)

  module _ (before : List (Event Double Float)) (m₀ : Monitor Double Float) (map_frame : String)
      (now : ℕ) (context : QualityContext) where
    -- Any run from a reset monitor, and one more evaluation.
    abbrev m : Monitor Double Float
    m = (follow f config before (reset f m₀, [])).0

    abbrev next : Monitor Double Float
    next = evaluate f config map_frame now context m

    abbrev latest : List Verdict
    latest = verdict f config map_frame now context m ∷ (follow f config before (reset f m₀, [])).1

    counted : IsCounted (follow f config before (reset f m₀, []))
    unfolding reset streak
    counted = follow_from before (reset f m₀, []) (refl, refl, refl)

    leads : next.state ≡ (moved config (verdict f config map_frame now context m) (memory m)).state
    leads = ap (λ k. k.state) (evaluate-memory f config map_frame now context m)

    -- After any run from a reset monitor and one more evaluation, the three counters are the numbers of
    -- latest verdicts in a row that were good, not good, and critically bad, reduced to 64 bits.
    pub evaluate-IsCounted : IsCounted (next, latest)
    unfolding apply note
    evaluate-IsCounted = apply-IsCounted (evaluation map_frame now context) m _ counted

    -- After any run from a reset monitor, an evaluation enters LOST only if at least bad_frames_to_lost
    -- verdicts in a row were critically bad, its own the last.
    pub evaluate-lost :
        m.state ≢ lost
        → next.state ≡ lost
        → config.bad_frames_to_lost ≤ streak counts_critical latest
    evaluate-lost n e = moved-lost config _ (memory m) _ counted n (sym leads ∙ e)

    -- After any run from a reset monitor, an evaluation enters LOCALIZED only if at least
    -- good_frames_to_recover verdicts in a row were good, its own the last.
    pub evaluate-localized :
        m.state ≢ localized
        → next.state ≡ localized
        → config.good_frames_to_recover ≤ streak counts_good latest
    evaluate-localized n e = moved-localized config _ (memory m) _ counted n (sym leads ∙ e)

    -- After any run from a reset monitor, an evaluation enters DEGRADED only from a state other than LOST,
    -- and only if at least bad_frames_to_degraded verdicts in a row were not good, its own the last.
    pub evaluate-degraded :
        m.state ≢ degraded
        → next.state ≡ degraded
        → (m.state ≢ lost) × (config.bad_frames_to_degraded ≤ streak counts_bad latest)
    evaluate-degraded n e = moved-degraded config _ (memory m) _ counted n (sym leads ∙ e)

    -- After any run from a reset monitor, with positive bounds on bad frames, a good verdict that ends a
    -- row of at least good_frames_to_recover, and fewer than 2 ^ 64, good ones leaves LOCALIZED behind.
    pub evaluate-recovers :
        verdict f config map_frame now context m ≡ good
        → 0 < config.bad_frames_to_lost
        → 0 < config.bad_frames_to_degraded
        → config.good_frames_to_recover ≤ streak counts_good latest
        → streak counts_good latest < 2 ^ 64
        → next.state ≡ localized
    evaluate-recovers e a b c d = leads ∙ moved-recovers config _ (memory m) _ counted e a b c d

    -- After any run from a reset monitor, a critically bad verdict that ends a row of at least
    -- bad_frames_to_lost, and fewer than 2 ^ 64, critically bad ones leaves LOST behind.
    pub evaluate-loses :
        verdict f config map_frame now context m ≡ critical
        → config.bad_frames_to_lost ≤ streak counts_critical latest
        → streak counts_critical latest < 2 ^ 64
        → next.state ≡ lost
    evaluate-loses e c d = leads ∙ moved-loses config _ (memory m) _ counted e c d
