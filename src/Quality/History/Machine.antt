-- ===== src/Quality/History/Machine.antt =====
-- The hysteresis of LocalizationQualityMonitor by itself: a machine on the state and the counters
-- that reads one verdict for each evaluation, and evaluate as an instance of it.
use slam_system_manager.Base.{
  ℕ, leb, ◌≡◌, refl, Bool, true, false, String, not, ◌&&◌, ◌||◌, if◌then◌else◌, arith,
}
use slam_system_manager.Doubles.{Doubles}
use slam_system_manager.Manager.Pose.{QualityContext}
use slam_system_manager.Quality.{
  QualityState, unknown, localized, degraded, lost, same, QualityConfig, Monitor,
}
use slam_system_manager.Quality.Evaluate.{
  next_count, transition_quality, idle_frame, stamped, report, publishable, count_frame, wanted,
  settle, judge, evaluate,
}
use slam_system_manager.Quality.Score.{Frame, is_good, is_critical}
use slam_system_manager.Quality.History.{Verdict, idle, good, poor, critical, verdict_of, verdict}
use slam_system_manager.Quality.History.Steps.{Memory, memory}

-- The counters behind a verdict.
abbrev pub tally : Verdict → Memory → Memory
tally idle k = record { state = unknown; goods = 0; bads = 0; criticals = 0 }
tally good k = record k { goods = next_count k.goods; bads = 0; criticals = 0 }
tally poor k = record k { goods = 0; bads = next_count k.bads; criticals = 0 }
tally critical k = record k {
  goods = 0;
  bads = next_count k.bads;
  criticals = next_count k.criticals;
}

-- The state that the counters lead to.
unfoldable pub led : {D : Type 0} → QualityConfig D → Memory → QualityState
led config k =
    if leb config.bad_frames_to_lost k.criticals
    then lost
    else if (same k.state unknown || same k.state localized)
        && leb config.bad_frames_to_degraded k.bads
    then degraded
    else if not (same k.state localized) && leb config.good_frames_to_recover k.goods
    then localized
    else k.state

-- A verdict of idle leaves UNKNOWN behind, the others what the counters ask for.
abbrev pub moved : {D : Type 0} → QualityConfig D → Verdict → Memory → Memory
moved config idle k = tally idle k
moved config good k = record (tally good k) { state = led config (tally good k) }
moved config poor k = record (tally poor k) { state = led config (tally poor k) }
moved config critical k = record (tally critical k) { state = led config (tally critical k) }

module _ (f : Doubles) (config : QualityConfig f.Double) where
  open f use {Double, Float}

  count_frame-memory :
      (g c : Bool) (m : Monitor Double Float)
      → memory (count_frame f g c m) ≡ tally (verdict_of g c) (memory m)
  unfolding count_frame
  count_frame-memory true c m = refl
  count_frame-memory false true m = refl
  count_frame-memory false false m = refl

  settle-memory :
      (m : Monitor Double Float)
      → memory (settle f config m) ≡ record (memory m) { state = led config (memory m) }
  unfolding settle wanted transition_quality led
  settle-memory m = ground arith

  counted-memory :
      (g c : Bool) (m : Monitor Double Float)
      → memory (settle f config (count_frame f g c m)) ≡ moved config (verdict_of g c) (memory m)
  unfolding count_frame
  counted-memory true c m = settle-memory (count_frame f true c m)
  counted-memory false true m = settle-memory (count_frame f false true m)
  counted-memory false false m = settle-memory (count_frame f false false m)

  judge-memory :
      (frame : Frame Double) (m : Monitor Double Float)
      → memory (judge f config frame m)
        ≡ moved config (verdict_of (is_good f config frame) (is_critical f config frame)) (memory m)
  unfolding judge
  judge-memory frame m = counted-memory (is_good f config frame) (is_critical f config frame) m

  idle_frame-memory :
      (why : String) (m : Monitor Double Float)
      → memory (idle_frame f why m) ≡ tally idle (memory m)
  unfolding idle_frame transition_quality
  idle_frame-memory why m = ground arith

  -- The two early branches of evaluate, and the verdict's.
  branch-memory :
      (a b : Bool) (x y z : Monitor Double Float) (v : Verdict) (k : Memory)
      → memory x ≡ tally idle k
      → memory y ≡ tally idle k
      → memory z ≡ moved config v k
      → memory (publishable f (if a then x else if b then y else z))
        ≡ moved config (if a then idle else if b then idle else v) k
  unfolding publishable
  branch-memory true b x y z v k p q r = p
  branch-memory false true x y z v k p q r = q
  branch-memory false false x y z v k p q r = r

  -- Evaluations run the machine on their verdicts.
  pub evaluate-memory :
      (map_frame : String) (now : ℕ) (context : QualityContext) (m : Monitor Double Float)
      → memory (evaluate f config map_frame now context m)
        ≡ moved config (verdict f config map_frame now context m) (memory m)
  unfolding evaluate verdict stamped report
  evaluate-memory map_frame now context m =
      branch-memory (not context.localization_active) (not context.localization_initialized) _ _ _ _
        (memory m) (idle_frame-memory _ _) (idle_frame-memory _ _) (judge-memory _ _)
