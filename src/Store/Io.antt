-- ===== src/Store/Io.antt =====
-- Calls that change the files and may throw.
use slam_system_manager.Base.{String, Bool, true, false}
use slam_system_manager.Outcome.{Outcome, value, throws}

abbrev pub Io : Type 0 → Type 0 → Type 0
Io W A = W → W × Outcome A

infixl 10 ◌>>=◌ ◌>>◌
abbrev pub ◌>>=◌ : {W A B : Type 0} → Io W A → (A → Io W B) → Io W B
(m >>= k) w = elim (m w).1 [ value a ↦ k a (m w).0 | throws why ↦ ((m w).0, throws why) ]

abbrev pub ◌>>◌ : {W B : Type 0} → Io W (Unit {0}) → Io W B → Io W B
m >> k = m >>= λ _. k

abbrev pub done : {W A : Type 0} → A → Io W A
done a w = (w, value a)

abbrev pub refused : {W A : Type 0} → String → Io W A
refused why w = (w, throws why)

abbrev pub refuse_io : {W : Type 0} → Bool → String → Io W (Unit {0})
refuse_io true why w = (w, throws why)
refuse_io false why w = (w, value tt)

-- A call that throws or not, and changes nothing.
abbrev pub lift : {W A : Type 0} → Outcome A → Io W A
lift o w = (w, o)

-- A question to the files, which may throw.
abbrev pub query : {W A : Type 0} → (W → Outcome A) → Io W A
query f w = (w, f w)

-- A call that changes the files, with its result.
abbrev pub effect : {W A : Type 0} → (W → W × A) → Io W A
effect f w = ((f w).0, value (f w).1)
