-- ===== src/Steps.antt =====
-- A call of a component whose state several threads share: the sections that it runs one after the
-- other, with its result. Between two sections the other threads may change the state.
use slam_system_manager.Base.{◌≡◌, refl, Bool, true, false, List, ◌∷◌, if◌then◌else◌}

pub data Steps (S R : Type 0) : Type 0 where
  done : R → Steps S R
  step : (S → S) → (S → Steps S R) → Steps S R

infixl 5 ◌>>=◌ ◌>>◌
abbrev pub ◌>>=◌ : {S R T : Type 0} → Steps S R → (R → Steps S T) → Steps S T
done r >>= k = k r
step u p >>= k = step u (λ s. p s >>= k)

abbrev pub ◌>>◌ : {S R T : Type 0} → Steps S R → Steps S T → Steps S T
p >> q = p >>= λ _. q

-- One section, with its result.
abbrev pub act : {S R : Type 0} → (S → S × R) → Steps S R
act f = step (λ s. (f s).0) (λ s. done (f s).1)

-- A run in which no other thread gets in between.
unfoldable pub alone : {S R : Type 0} → Steps S R → S → S × R
alone (done r) s = (s, r)
alone (step u k) s = alone (k s) (u s)

-- `Q` holds of the state and the result at the end, whatever state each section finds.
abbrev pub Ends : {S R : Type 0} → (S → R → Type 0) → Steps S R → S → Type 0
Ends Q (done r) s = Q s r
Ends {S} Q (step u k) s = (t : S) → Ends Q (k t) (u t)

pub Ends-bind :
    {S R T : Type 0} (P : S → R → Type 0) (Q : S → T → Type 0) (p : Steps S R) (k : R → Steps S T)
    (s : S)
    → Ends P p s
    → ((t : S) (r : R) → P t r → Ends Q (k r) t)
    → Ends Q (p >>= k) s
Ends-bind P Q (done r) k s h rest = rest s r h
Ends-bind P Q (step u p) k s h rest = λ t. Ends-bind P Q (p t) k (u t) (h t) rest

pub alone-bind :
    {S R T : Type 0} (p : Steps S R) (k : R → Steps S T) (s : S)
    → alone (p >>= k) s ≡ alone (k (alone p s).1) (alone p s).0
unfolding alone
alone-bind (done r) k s = refl
alone-bind (step u p) k s = alone-bind (p s) k (u s)

pub Ends-alone :
    {S R : Type 0} (Q : S → R → Type 0) (p : Steps S R) (s : S)
    → Ends Q p s
    → Q (alone p s).0 (alone p s).1
unfolding alone
Ends-alone Q (done r) s h = h
Ends-alone Q (step u k) s h = Ends-alone Q (k s) (u s) (h s)

-- The same of a run whose first section finds the given state.
abbrev pub EndsFrom : {S R : Type 0} → (S → R → Type 0) → Steps S R → S → Type 0
EndsFrom Q (done r) s = Q s r
EndsFrom Q (step u k) s = Ends Q (k s) (u s)

-- Nothing is asked of the end.
pub Ends-any : {S R : Type 0} (p : Steps S R) (s : S) → Ends (λ _ _. Unit {0}) p s
Ends-any (done r) s = tt
Ends-any (step u k) s = λ t. Ends-any (k t) (u t)

pub alone-if :
    {S R : Type 0} (b : Bool) (p q : Steps S R) (s : S)
    → alone (if b then p else q) s ≡ (if b then alone p s else alone q s)
alone-if true p q s = refl
alone-if false p q s = refl

-- `Q` holds at the end of the states that the sections have found, the latest first, and of the result,
-- whatever states they find. The list holds those found before.
abbrev pub Watched : {S R : Type 0} → (List S → R → Type 0) → List S → Steps S R → Type 0
Watched Q h (done r) = Q h r
Watched {S} Q h (step u k) = (t : S) → Watched Q (t ∷ h) (k t)

pub Watched-bind :
    {S R T : Type 0} (P : List S → R → Type 0) (Q : List S → T → Type 0) (p : Steps S R)
    (k : R → Steps S T) (h : List S)
    → Watched P h p
    → ((h' : List S) (r : R) → P h' r → Watched Q h' (k r))
    → Watched Q h (p >>= k)
Watched-bind P Q (done r) k h w rest = rest h r w
Watched-bind P Q (step u p) k h w rest = λ t. Watched-bind P Q (p t) k (t ∷ h) (w t) rest

-- Nothing is asked of the states.
pub Watched-any : {S R : Type 0} (p : Steps S R) (h : List S) → Watched (λ _ _. Unit {0}) h p
Watched-any (done r) h = tt
Watched-any (step u k) h = λ t. Watched-any (k t) (t ∷ h)
