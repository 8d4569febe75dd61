-- ===== src/Manager/Token/Interleaving.antt =====
-- Any interleaving of disciplined threads: at most one of them holds the flag, and the flag is up
-- exactly while one does.
use slam_system_manager.Base.{
  ℕ, zero, suc, ◌≡◌, refl, ◌⊎◌, inl, inr, Bool, true, false, List, [], ◌∷◌, subst, sym,
}
use mathlib.Core.Bool.{false≢true}
use slam_system_manager.Program.{Prog, ret, locked, outside, fork, turn}
use slam_system_manager.Manager.Fields.{Manager}
use slam_system_manager.Manager.Token.{
  Token, idle, settled, busy, Knows, Moves, Legal, Done, Guarded,
}
use slam_system_manager.Manager.Token.Rules.{keep-Moves}
use slam_system_manager.Manager.Token.Sharing.{IsHolder, stable, holds_on, flag_after, taken, up}

module _ {D W : Type 0} where
  -- The threads, with the holder among them or not.
  abbrev pub Crew : Manager D → Bool → List (Prog (Manager D) W) → Type 0
  Crew m true [] = ⊥
  Crew m false [] = Unit
  Crew m true (p ∷ ps) =
      (Guarded Done idle p × Crew m true ps)
      ⊎ ((tok : Token) × IsHolder tok × Knows tok m × Guarded Done tok p × Crew m false ps)
  Crew m false (p ∷ ps) = Guarded Done idle p × Crew m false ps

  Crew-free :
      (m m' : Manager D) (ps : List (Prog (Manager D) W)) → Crew m false ps → Crew m' false ps
  Crew-free m m' [] c = tt
  Crew-free m m' (p ∷ ps) c = (c.0, Crew-free m m' ps c.1)

  Crew-stable :
      (m m' : Manager D) (b : Bool) (ps : List (Prog (Manager D) W))
      → Moves idle idle m m'
      → Crew m b ps
      → Crew m' b ps
  Crew-stable m m' false ps v c = Crew-free m m' ps c
  Crew-stable m m' true [] v c = absurd c
  Crew-stable m m' true (p ∷ ps) v (inl (g, c)) = inl (g, Crew-stable m m' true ps v c)
  Crew-stable m m' true (p ∷ ps) v (inr (tok, h, a, g, c)) =
      inr (tok, h, stable tok m m' h a v, g, Crew-free m m' ps c)

  -- The outcome of one turn among the threads `ps`, with the holder among them or not.
  pub record Turned (b : Bool) (m m' : Manager D) (ps' : List (Prog (Manager D) W)) : Type 0 where
    pub held : Bool
    pub crew : Crew m' held ps'
    pub legal : Legal m m'
    pub known : Knows idle m'
    pub effect :
        ((b ≡ held) × Moves idle idle m m')
        ⊎ (((b ≡ true) ⊎ (m.operation_in_progress ≡ false)) × (m'.operation_in_progress ≡ held))

  beside :
      (m : Manager D) (b : Bool) (p : Prog (Manager D) W) (ps : List (Prog (Manager D) W))
      → Guarded Done idle p
      → Crew m b ps
      → Crew m b (p ∷ ps)
  beside m true p ps g c = inl (g, c)
  beside m false p ps g c = (g, c)

  unmoved :
      (b : Bool) (m : Manager D) (ps' : List (Prog (Manager D) W))
      → Knows idle m
      → Crew m b ps'
      → Turned b m m ps'
  unmoved b m ps' a c = record {
    held = b;
    crew = c;
    legal = inl refl;
    known = a;
    effect = inl (refl, keep-Moves idle m m a (refl, refl, refl));
  }

  -- A thread without the flag makes a section.
  idle_section :
      (b : Bool) (m m' : Manager D) (tok : Token) (p : Prog (Manager D) W)
      (ps : List (Prog (Manager D) W))
      → (b ≡ true → m.operation_in_progress ≡ true)
      → Knows idle m
      → Moves idle tok m m'
      → Guarded Done tok p
      → Crew m b ps
      → Turned b m m' (p ∷ ps)
  idle_section b m m' idle p ps f a v g c = record {
    held = b;
    crew = beside m' b p ps g (Crew-stable m m' b ps v c);
    legal = v.legal;
    known = (holds_on idle idle m m' a a v).0;
    effect = inl (refl, v);
  }
  idle_section true m m' settled p ps f a v g c = absurd (taken m v.flag.0 (f refl))
  idle_section true m m' (busy t) p ps f a v g c = absurd (taken m v.flag.0 (f refl))
  idle_section false m m' settled p ps f a v g c = record {
    held = true;
    crew = inr (settled, tt, (holds_on idle settled m m' a a v).1, g, Crew-free m m' ps c);
    legal = v.legal;
    known = (holds_on idle settled m m' a a v).0;
    effect = inr (inr v.flag.0, v.flag.1);
  }
  idle_section false m m' (busy t) p ps f a v g c = record {
    held = true;
    crew = inr (busy t, tt, (holds_on idle (busy t) m m' a a v).1, g, Crew-free m m' ps c);
    legal = v.legal;
    known = (holds_on idle (busy t) m m' a a v).0;
    effect = inr (inr v.flag.0, v.flag.1);
  }

  -- The holder makes a section.
  holder_section :
      (m m' : Manager D) (tok tok' : Token) (p : Prog (Manager D) W)
      (ps : List (Prog (Manager D) W))
      → IsHolder tok
      → Knows idle m
      → Knows tok m
      → Moves tok tok' m m'
      → Guarded Done tok' p
      → Crew m false ps
      → Turned true m m' (p ∷ ps)
  holder_section m m' tok tok' p ps h i a v g c = elim (flag_after tok tok' m m' v h) [
    | inl (h', up) ↦ record {
      held = true;
      crew = inr (tok', h', (holds_on tok tok' m m' i a v).1, g, Crew-free m m' ps c);
      legal = v.legal;
      known = (holds_on tok tok' m m' i a v).0;
      effect = inr (inl refl, up);
    }
    | inr (e, down) ↦ record {
      held = false;
      crew = (subst (λ t. Guarded Done t p) e g, Crew-free m m' ps c);
      legal = v.legal;
      known = (holds_on tok tok' m m' i a v).0;
      effect = inr (inl refl, down);
    }
  ]

  -- The first thread's turn, without the flag and with it.
  idle-turn :
      (b : Bool) (m : Manager D) (w : W) (p : Prog (Manager D) W) (ps : List (Prog (Manager D) W))
      → (b ≡ true → m.operation_in_progress ≡ true)
      → Knows idle m
      → Guarded Done idle p
      → Crew m b ps
      → Turned b m (turn zero m w (p ∷ ps)).0 (turn zero m w (p ∷ ps)).2
  unfolding turn
  idle-turn b m w (ret r) ps f a g c = unmoved b m (ret r ∷ ps) a (beside m b (ret r) ps g c)
  idle-turn b m w (locked u k) ps f a g c =
      let (tok, v, g') = g m a in idle_section b m (u m) tok (k m) ps f a v g' c
  idle-turn b m w (outside u k) ps f a g c = unmoved b m (k w ∷ ps) a (beside m b (k w) ps (g w) c)
  idle-turn b m w (fork p q) ps f a g c =
      unmoved b m (p ∷ q ∷ ps) a (beside m b p (q ∷ ps) g.0 (beside m b q ps g.1 c))

  holder_turn :
      (m : Manager D) (w : W) (tok : Token) (p : Prog (Manager D) W)
      (ps : List (Prog (Manager D) W))
      → IsHolder tok
      → Knows idle m
      → Knows tok m
      → Guarded Done tok p
      → Crew m false ps
      → Turned true m (turn zero m w (p ∷ ps)).0 (turn zero m w (p ∷ ps)).2
  unfolding turn
  holder_turn m w tok (ret r) ps h i a g c = unmoved true m (ret r ∷ ps) i (inr (tok, h, a, g, c))
  holder_turn m w tok (locked u k) ps h i a g c =
      let (tok', v, g') = g m a in holder_section m (u m) tok tok' (k m) ps h i a v g' c
  holder_turn m w tok (outside u k) ps h i a g c =
      unmoved true m (k w ∷ ps) i (inr (tok, h, a, g w, c))
  holder_turn m w tok (fork p q) ps h i a g c =
      unmoved true m (p ∷ q ∷ ps) i (inr (tok, h, a, g.0, (g.1, c)))

  -- A turn behind the first thread, which does not hold the flag, or does.
  idle_over :
      (b : Bool) (m m' : Manager D) (p : Prog (Manager D) W) (ps' : List (Prog (Manager D) W))
      → Guarded Done idle p
      → Turned b m m' ps'
      → Turned b m m' (p ∷ ps')
  idle_over b m m' p ps' g t = record {
    held = t.held;
    crew = beside m' t.held p ps' g t.crew;
    legal = t.legal;
    known = t.known;
    effect = t.effect;
  }

  holder_over :
      (m m' : Manager D) (tok : Token) (p : Prog (Manager D) W) (ps' : List (Prog (Manager D) W))
      → IsHolder tok
      → Knows tok m
      → Guarded Done tok p
      → Turned false m m' ps'
      → Turned true m m' (p ∷ ps')
  holder_over m m' tok p ps' h a g t = elim t.effect [
    | inl (e, v) ↦ record {
      held = true;
      crew = inr (tok, h, stable tok m m' h a v, g, subst (λ b. Crew m' b ps') (sym e) t.crew);
      legal = t.legal;
      known = t.known;
      effect = inl (refl, v);
    }
    | inr (free, flag) ↦ absurd (up tok m h a free)
  ]

  -- Every turn of a disciplined crew leaves a disciplined crew.
  pub turn-Turned :
      (i : ℕ) (b : Bool) (m : Manager D) (w : W) (ps : List (Prog (Manager D) W))
      → (b ≡ true → m.operation_in_progress ≡ true)
      → Knows idle m
      → Crew m b ps
      → Turned b m (turn i m w ps).0 (turn i m w ps).2
  unfolding turn
  turn-Turned i b m w [] f a c = unmoved b m [] a c
  turn-Turned zero false m w (p ∷ ps) f a c = idle-turn false m w p ps f a c.0 c.1
  turn-Turned zero true m w (p ∷ ps) f a (inl (g, c)) = idle-turn true m w p ps f a g c
  turn-Turned zero true m w (p ∷ ps) f a (inr (tok, h, k, g, c)) =
      holder_turn m w tok p ps h a k g c
  turn-Turned (suc i) false m w (p ∷ ps) f a c =
      idle_over false m _ p _ c.0 (turn-Turned i false m w ps f a c.1)
  turn-Turned (suc i) true m w (p ∷ ps) f a (inl (g, c)) =
      idle_over true m _ p _ g (turn-Turned i true m w ps f a c)
  turn-Turned (suc i) true m w (p ∷ ps) f a (inr (tok, h, k, g, c)) =
      holder_over m _ tok p _ h k g (turn-Turned i false m w ps (λ e. absurd (false≢true e)) a c)
