-- ===== src/Manager/Token/Sharing.antt =====
-- What a thread knows of the manager while other threads take their sections.
use slam_system_manager.Base.{◌≡◌, refl, ◌⊎◌, inl, inr, true, false, arith}
use slam_system_manager.Manager.Fields.{Manager}
use slam_system_manager.Manager.Token.{Token, idle, settled, busy, Knows, Moves}

abbrev pub IsHolder : Token → Type 0
IsHolder idle = ⊥
IsHolder _ = Unit

module _ {D : Type 0} where
  -- What the holder knows outlives the sections of the others.
  pub stable :
      (tok : Token) (m m' : Manager D)
      → IsHolder tok
      → Knows tok m
      → Moves idle idle m m'
      → Knows tok m'
  stable idle m m' h a v = absurd h
  stable settled m m' h a v = ground arith
  stable (busy t) m m' h a v = ground arith

  -- What every thread knows outlives any section.
  pub holds_on :
      (tok tok' : Token) (m m' : Manager D)
      → Knows idle m
      → Knows tok m
      → Moves tok tok' m m'
      → Knows idle m' × Knows tok' m'
  holds_on idle idle m m' i a v = ground arith
  holds_on idle settled m m' i a v = ground arith
  holds_on idle (busy t) m m' i a v = ground arith
  holds_on settled idle m m' i a v = ground arith
  holds_on settled settled m m' i a v = ground arith
  holds_on settled (busy t) m m' i a v = ground arith
  holds_on (busy t) idle m m' i a v = ground arith
  holds_on (busy t) settled m m' i a v = ground arith
  holds_on (busy t) (busy u) m m' i a v = ground arith

  -- The flag after a section of the holder, or of a thread that takes it.
  pub flag_after :
      (tok tok' : Token) (m m' : Manager D)
      → Moves tok tok' m m'
      → IsHolder tok
      → (IsHolder tok' × (m'.operation_in_progress ≡ true))
        ⊎ ((tok' ≡ idle) × (m'.operation_in_progress ≡ false))
  flag_after idle tok' m m' v h = absurd h
  flag_after settled idle m m' v h = inr (refl, v.flag.0)
  flag_after settled settled m m' v h = inl (tt, v.flag.0)
  flag_after settled (busy t) m m' v h = inl (tt, v.flag.0)
  flag_after (busy t) idle m m' v h = absurd v.flag
  flag_after (busy t) settled m m' v h = inl (tt, v.flag.0)
  flag_after (busy t) (busy u) m m' v h = inl (tt, v.flag.0)

  pub taken : (m : Manager D) → m.operation_in_progress ≡ false → m.operation_in_progress ≡ true → ⊥
  taken m e h = cc

  pub up :
      (tok : Token) (m : Manager D)
      → IsHolder tok
      → Knows tok m
      → (false ≡ true) ⊎ (m.operation_in_progress ≡ false)
      → ⊥
  up idle m h a e = absurd h
  up settled m h a e = ground arith
  up (busy t) m h a e = ground arith
