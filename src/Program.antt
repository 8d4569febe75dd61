-- ===== src/Program.antt =====
-- Callbacks and background threads as programs of atomic sections. A lock_guard block is one
-- section on the manager's fields; a call of another component is one section on what lies outside
-- the manager. Between two sections any other thread may run.
pub use slam_system_manager.Outcome.{Outcome, value, throws, Outcome-cases}
use slam_system_manager.Base.{ℕ, zero, suc, Bool, List, [], ◌∷◌, String}

-- What a thread ends with: a service's response, the plain end of a timer or a background
-- operation, or an exception that leaves the callback.
pub data Reply : Type 0 where
  response : Bool → String → Reply
  response_with : Bool → String → List String → Reply
  finished : Reply
  raised : String → Reply

module _ (M W : Type 0) where
  -- A section gets the state from before it. `fork` starts a thread beside the one that goes on.
  pub data Prog : Type 0 where
    ret : Reply → Prog
    locked : (M → M) → (M → Prog) → Prog
    outside : (W → W) → (W → Prog) → Prog
    fork : Prog → Prog → Prog

  -- One section with its result.
  pub data Action (R : Type 0) : Type 0 where
    lock : (M → M × R) → Action R
    call : (W → W × R) → Action R

infixl 5 ◌>>=◌ ◌>>◌
abbrev pub ◌>>=◌ : {M W R : Type 0} → Action M W R → (R → Prog M W) → Prog M W
lock f >>= k = locked (λ m. (f m).0) (λ m. k (f m).1)
call f >>= k = outside (λ w. (f w).0) (λ w. k (f w).1)

abbrev pub ◌>>◌ : {M W R : Type 0} → Action M W R → Prog M W → Prog M W
a >> p = a >>= λ _. p

-- Running a program with no other thread in between; a thread that it starts runs to its end first.
unfoldable pub alone : {M W : Type 0} → Prog M W → M → W → M × W × Reply
alone (ret r) m w = (m, w, r)
alone (locked u k) m w = alone (k m) (u m) w
alone (outside u k) m w = alone (k w) m (u w)
alone (fork p q) m w = let (m', w', _) = alone p m w in alone q m' w'

-- One turn of the `i`-th thread.
unfoldable pub turn : {M W : Type 0} → ℕ → M → W → List (Prog M W) → M × W × List (Prog M W)
turn i m w [] = (m, w, [])
turn zero m w (ret r ∷ ps) = (m, w, ret r ∷ ps)
turn zero m w (locked u k ∷ ps) = (u m, w, k m ∷ ps)
turn zero m w (outside u k ∷ ps) = (m, u w, k w ∷ ps)
turn zero m w (fork p q ∷ ps) = (m, w, p ∷ q ∷ ps)
turn (suc i) m w (p ∷ ps) = let (m', w', ps') = turn i m w ps in (m', w', p ∷ ps')
