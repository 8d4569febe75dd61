-- ===== src/Manager/Token/History.antt =====
-- Histories of the whole node: the flag, the transient states and the transition table under every
-- interleaving of callbacks and background operations.
use slam_system_manager.Base.{
  ℕ, ◌≡◌, refl, ◌⊎◌, inl, inr, Bool, true, false, List, [], ◌∷◌, arith, subst, sym, ◌∙◌,
}
use slam_system_manager.State.{State}
use slam_system_manager.State.Graph.{Edge, can_transition_iff-Edge}
use slam_system_manager.Program.{
  raised, finished, response, response_with, Prog, ret, locked, outside, fork, turn,
}
use slam_system_manager.Manager.Fields.{Manager}
use slam_system_manager.Manager.Components.{Components}
use slam_system_manager.Manager.System.{
  Entry, get_map_list, stop_mapping, save_map, stop_localization, recover, create_map, delete_map,
  load_map, start_mapping, start_localization, set_initial_pose, sensor_timer, process_timer,
  last_pose_timer, initial_pose_observed, localization_confirmed, Event, arrive, advance,
  environment, destroy, entry, System, step, run,
}
use slam_system_manager.Manager.Token.{
  is_transient, Token, idle, settled, busy, Knows, Calm, Done, Guarded,
}
use slam_system_manager.Manager.Token.Interleaving.{Crew, Turned, turn-Turned}
use slam_system_manager.Manager.Token.Sharing.{IsHolder}
use slam_system_manager.Manager.Token.Maps.{
  get_map_list-Guarded, create_map-Guarded, delete_map-Guarded, load_map-Guarded,
}
use slam_system_manager.Manager.Token.Mapping.{start_mapping-Guarded}
use slam_system_manager.Manager.Token.Saving.{stop_mapping-Guarded, save_map-Guarded}
use slam_system_manager.Manager.Token.Localization.{
  start_localization-Guarded, stop_localization-Guarded,
}
use slam_system_manager.Manager.Token.Pose.{
  initial_pose_observed-Guarded, localization_confirmed-Guarded, save_last_pose-Guarded,
  set_initial_pose-Guarded,
}
use slam_system_manager.Manager.Token.Sensors.{sensor_timer-Guarded, process_timer-Guarded}
use slam_system_manager.Manager.Token.Recovery.{recover-Guarded}

-- Each state is the one before it or one edge of the diagram away.
abbrev pub Follows : State → List State → Type 0
Follows a [] = Unit
Follows a (b ∷ bs) = ((b ≡ a) ⊎ Edge a b) × Follows b bs

module _ (c : Components) where
  open c use {Double, World, Pose}

  -- Every callback, on every branch and whatever the other components answer, keeps the discipline
  -- of the flag: it takes it only when it is free, gives it back before it ends unless an exception
  -- leaves it, occupies a transient state only while it holds the flag, and changes the state only
  -- along the table.
  pub entry-Guarded : (e : Entry Pose) → Guarded Done idle (entry c e)
  unfolding entry
  entry-Guarded get_map_list = get_map_list-Guarded c
  entry-Guarded stop_mapping = stop_mapping-Guarded c
  entry-Guarded save_map = save_map-Guarded c
  entry-Guarded stop_localization = stop_localization-Guarded c
  entry-Guarded recover = recover-Guarded c
  entry-Guarded (create_map name) = create_map-Guarded c name
  entry-Guarded (delete_map name) = delete_map-Guarded c name
  entry-Guarded (load_map name) = load_map-Guarded c name
  entry-Guarded (start_mapping name) = start_mapping-Guarded c name
  entry-Guarded (start_localization name) = start_localization-Guarded c name
  entry-Guarded (set_initial_pose pose) = set_initial_pose-Guarded c pose
  entry-Guarded sensor_timer = sensor_timer-Guarded c
  entry-Guarded process_timer = process_timer-Guarded c
  entry-Guarded last_pose_timer = save_last_pose-Guarded c Done idle (λ r. tt)
  entry-Guarded initial_pose_observed = initial_pose_observed-Guarded c
  entry-Guarded localization_confirmed = localization_confirmed-Guarded c

  -- The flag is up exactly while one thread holds it, and without it no state is transient.
  pub record IsSound (s : System c) : Type 0 where
    pub crew : Crew s.manager s.manager.operation_in_progress s.threads
    pub known : Knows idle s.manager

  Crew-stop :
      (m : Manager Double) (b : Bool) (ps : List (Prog (Manager Double) World))
      → Crew m b ps
      → Crew (record m { shutting_down = true }) b ps
  Crew-stop m true [] k = absurd k
  Crew-stop m false [] k = tt
  Crew-stop m false (p ∷ ps) k = (k.0, Crew-stop m false ps k.1)
  Crew-stop m true (p ∷ ps) (inl (g, k)) = inl (g, Crew-stop m true ps k)
  Crew-stop m true (p ∷ ps) (inr (idle, h, a, g, k)) = absurd h
  Crew-stop m true (p ∷ ps) (inr (settled, h, a, g, k)) =
      inr (settled, tt, (a.0, λ e. cc), g, Crew-stop m false ps k)
  Crew-stop m true (p ∷ ps) (inr (busy t, h, a, g, k)) =
      inr (busy t, tt, (a.0, λ e. cc), g, Crew-stop m false ps k)

  arrived :
      (m : Manager Double) (b : Bool) (p : Prog (Manager Double) World)
      (ps : List (Prog (Manager Double) World))
      → Guarded Done idle p
      → Crew m b ps
      → Crew m b (p ∷ ps)
  arrived m true p ps g k = inl (g, k)
  arrived m false p ps g k = (g, k)

  advanced :
      (i : ℕ) (s : System c)
      → IsSound s
      → Turned s.manager.operation_in_progress s.manager
          (turn i s.manager s.world s.threads).0
          (turn i s.manager s.world s.threads).2
  advanced i s v =
      turn-Turned i s.manager.operation_in_progress s.manager s.world s.threads (λ e. e) v.known
        v.crew

  flag_held :
      (b : Bool) (m m' : Manager Double) (ps : List (Prog (Manager Double) World))
      → m.operation_in_progress ≡ b
      → (t : Turned b m m' ps) → t.held ≡ m'.operation_in_progress
  flag_held b m m' ps e t = elim t.effect [
    | inl (same, v) ↦ sym same ∙ sym e ∙ sym v.flag.0
    | inr (_, flag) ↦ sym flag
  ]

  Crew-at :
      (m : Manager Double) (b b' : Bool) (ps : List (Prog (Manager Double) World))
      → b ≡ b'
      → Crew m b ps
      → Crew m b' ps
  Crew-at m b b' ps e k = subst (λ x. Crew m x ps) e k

  -- Every event keeps a sound system sound.
  pub step-IsSound : (s : System c) (e : Event Pose World) → IsSound s → IsSound (step c s e)
  unfolding step
  step-IsSound s (arrive e) v = record {
    crew = arrived s.manager _ (entry c e) s.threads (entry-Guarded e) v.crew;
    known = v.known;
  }
  step-IsSound s (advance i) v =
      let t = advanced i s v in
      record {
        crew =
            Crew-at _ _ _ _ (flag_held s.manager.operation_in_progress s.manager _ _ refl t) t.crew;
        known = t.known;
      }
  step-IsSound s (environment w) v = record { crew = v.crew; known = v.known }
  step-IsSound s destroy v = record {
    crew = Crew-stop s.manager _ s.threads v.crew;
    known = λ e h. cc;
  }

  -- The state of the node after each event.
  abbrev pub visited : System c → List (Event Pose World) → List State
  visited s [] = []
  visited s (e ∷ es) = (step c s e).manager.current_state ∷ visited (step c s e) es

  step-Edge :
      (s : System c) (e : Event Pose World)
      → IsSound s
      → let a = s.manager.current_state in
        let b = (step c s e).manager.current_state in (b ≡ a) ⊎ Edge a b
  unfolding step
  step-Edge s (arrive e) v = inl refl
  step-Edge s (environment w) v = inl refl
  step-Edge s destroy v = inl refl
  step-Edge s (advance i) v = elim (advanced i s v).legal [
    | inl same ↦ inl same
    | inr legal ↦ inr ((can_transition_iff-Edge _ _).0 legal)
  ]

  run-IsSound : (s : System c) (es : List (Event Pose World)) → IsSound s → IsSound (run c s es)
  unfolding run
  run-IsSound s [] v = v
  run-IsSound s (e ∷ es) v = run-IsSound (step c s e) es (step-IsSound s e v)

  -- Whatever the interleaving, each single event leaves the state of the node as it is or moves it
  -- along one edge of the transition diagram.
  pub run-Follows :
      (s : System c) (es : List (Event Pose World))
      → IsSound s
      → Follows s.manager.current_state (visited s es)
  run-Follows s [] v = tt
  run-Follows s (e ∷ es) v = (step-Edge s e v, run-Follows (step c s e) es (step-IsSound s e v))

  -- Whatever the interleaving, before the destructor runs a transient state (MAPPING_STARTING,
  -- MAP_SAVING, LOCALIZATION_STARTING or RECOVERING) is occupied only while an operation is in progress.
  pub run-transient :
      (s : System c) (es : List (Event Pose World))
      → IsSound s
      → (run c s es).manager.shutting_down ≡ false
      → is_transient (run c s es).manager.current_state ≡ true
      → (run c s es).manager.operation_in_progress ≡ true
  run-transient s es v up t = ground (arith, (run-IsSound s es v).known)

  -- A thread that has come to its end, but by an exception.
  abbrev pub IsOver : Prog (Manager Double) World → Type 0
  IsOver (ret (raised what)) = ⊥
  IsOver (ret _) = Unit
  IsOver _ = ⊥

  abbrev pub AllOver : List (Prog (Manager Double) World) → Type 0
  AllOver [] = Unit
  AllOver (p ∷ ps) = IsOver p × AllOver ps

  over_free :
      (tok : Token) (p : Prog (Manager Double) World)
      → IsHolder tok
      → IsOver p
      → Guarded Done tok p
      → ⊥
  over_free idle p h o g = absurd h
  over_free settled (ret (raised what)) h o g = absurd o
  over_free settled (ret finished) h o g = g
  over_free settled (ret (response b x)) h o g = g
  over_free settled (ret (response_with b x l)) h o g = g
  over_free settled (locked u k) h o g = absurd o
  over_free settled (outside u k) h o g = absurd o
  over_free settled (fork p q) h o g = absurd o
  over_free (busy t) (ret (raised what)) h o g = absurd o
  over_free (busy t) (ret finished) h o g = g
  over_free (busy t) (ret (response b x)) h o g = g
  over_free (busy t) (ret (response_with b x l)) h o g = g
  over_free (busy t) (locked u k) h o g = absurd o
  over_free (busy t) (outside u k) h o g = absurd o
  over_free (busy t) (fork p q) h o g = absurd o

  Crew-over :
      (m : Manager Double) (b : Bool) (ps : List (Prog (Manager Double) World))
      → AllOver ps
      → Crew m b ps
      → b ≡ false
  Crew-over m false ps o k = refl
  Crew-over m true [] o k = absurd k
  Crew-over m true (p ∷ ps) o (inl (g, k)) = Crew-over m true ps o.1 k
  Crew-over m true (p ∷ ps) o (inr (tok, h, a, g, k)) = absurd (over_free tok p h o.0 g)

  -- Whatever the interleaving, once every thread has come to its end other than by an exception, the
  -- flag is down and, before the destructor runs, the state is not transient: no path leaks the flag.
  pub run-released :
      (s : System c) (es : List (Event Pose World))
      → IsSound s
      → AllOver (run c s es).threads
      → ((run c s es).manager.operation_in_progress ≡ false) × Calm (run c s es).manager
  run-released s es v o =
      let u = run-IsSound s es v in let down = Crew-over _ _ _ o u.crew in (down, u.known down)
