-- ===== src/Outcome.antt =====
-- Calls that may throw: a value, or the text of the exception.
use slam_system_manager.Base.{Bool, true, false, String, ◌+++◌, ◌≡◌, refl, ◌⊎◌, inl, inr}

pub data Outcome (A : Type 0) : Type 0 where
  value : A → Outcome A
  throws : String → Outcome A

-- A call that reports failure by `false` and an error text, which stays empty where none is set.
abbrev pub Attempt : Type 0
Attempt = Bool × String

infixl 10 ◌>>=◌ ◌>>◌
abbrev pub ◌>>=◌ : {A B : Type 0} → Outcome A → (A → Outcome B) → Outcome B
value a >>= k = k a
throws why >>= k = throws why

abbrev pub ◌>>◌ : {B : Type 0} → Outcome (Unit {0}) → Outcome B → Outcome B
m >> k = m >>= λ _. k

-- `if (broken) { throw … }`
abbrev pub refuse : Bool → String → Outcome (Unit {0})
refuse true why = throws why
refuse false why = value tt

-- A handler that puts a text before that of the exception.
abbrev pub relabelled : {A : Type 0} → String → Outcome A → Outcome A
relabelled label (value a) = value a
relabelled label (throws what) = throws (label +++ what)

-- To split on the end of a call and keep the equation.
pub Outcome-cases :
    {A : Type 0} (o : Outcome A) → ((a : A) × (o ≡ value a)) ⊎ ((what : String) × (o ≡ throws what))
Outcome-cases (value a) = inl (a, refl)
Outcome-cases (throws what) = inr (what, refl)

-- What the last part of a block ensures of its results, the block ensures.
pub >>=-ensures :
    {A B : Type 0} (P : B → Type 0) (k : A → Outcome B)
    → ((a : A) (b : B) → k a ≡ value b → P b)
    → (o : Outcome A) (b : B) → (o >>= k) ≡ value b
    → P b
>>=-ensures P k rest (value a) b h = rest a b h
>>=-ensures P k rest (throws what) b h = cc

-- The same behind a check, whose condition is then false.
pub refuse-ensures :
    {B : Type 0} (P : B → Type 0) (broken : Bool) (why : String) (m : Outcome B)
    → (broken ≡ false → (b : B) → m ≡ value b → P b)
    → (b : B) → (refuse broken why >> m) ≡ value b
    → P b
refuse-ensures P true why m rest b h = cc
refuse-ensures P false why m rest b h = rest refl b h

-- The same of one result, with what the first call returned.
pub >>=-ensures-eq :
    {A B : Type 0} (P : B → Type 0) (k : A → Outcome B) (o : Outcome A) (b : B)
    → ((a : A) → o ≡ value a → k a ≡ value b → P b)
    → (o >>= k) ≡ value b
    → P b
>>=-ensures-eq P k (value a) b rest h = rest a refl h
>>=-ensures-eq P k (throws what) b rest h = cc

pub value-injective : {A : Type 0} {a b : A} → value a ≡ value b → a ≡ b
value-injective h = cc
